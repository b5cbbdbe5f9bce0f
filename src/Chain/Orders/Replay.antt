-- ===== src/Chain/Orders/Replay.antt =====
-- Logs that are read from bytes, and logs that are handled twice.
use irg_gdp.Base.{
  ℕ, zero, suc, ◌≡◌, refl, ap, Bool, true, false, Option, none, some, List, [], ◌∷◌, ◌++◌, arith,
  all, not, ◌==◌, find?, update_where, Option-cases, Bool-cases, inl, inr,
}
use irg_gdp.Wallet.Model.{Account, RecoveryCase, Time, Digest}
use irg_gdp.Wallet.Recovery.{has_case_id}
use irg_gdp.Wallet.Monad.{set_wallet}
use irg_gdp.Chain.Orders.{
  rstrip, RecoveryLog, lacks_request, save_request, handle_requested, lacks_execution,
  confirm_execution, mirror, handle_executed,
}

abbrev pub zeros : ℕ → List ℕ
zeros zero = []
zeros (suc n) = 0 ∷ zeros n

rstrip-zeros : (n : ℕ) → rstrip (zeros n) ≡ []
unfolding rstrip
rstrip-zeros zero = refl
rstrip-zeros (suc n) = rw (rstrip-zeros n) refl

abbrev pub is_nonzero : ℕ → Bool
is_nonzero b = not (b == 0)

-- The bytes of a number that was padded with zeros to the width of its field are read back, if none
-- of them is zero, as none of the codes of a digit is.
pub rstrip-padded : (bs : List ℕ) (n : ℕ) → all is_nonzero bs ≡ true → rstrip (bs ++ zeros n) ≡ bs
unfolding rstrip
rstrip-padded [] n h = rstrip-zeros n
rstrip-padded (b ∷ bs) n h = ground (arith, rstrip-padded bs n)

update-settled :
    (q : RecoveryCase → Bool) (f g : RecoveryCase → RecoveryCase) (cs : List RecoveryCase)
    → ((c : RecoveryCase) → q (f c) ≡ false)
    → update_where q g (update_where q f cs) ≡ update_where q f cs
update-settled q f g [] out = refl
update-settled q f g (c ∷ cs) out = elim (Bool-cases (q c)) [
  | inl e ↦ rw (e, out c, update-settled q f g cs out) refl
  | inr e ↦ rw (e, e, update-settled q f g cs out) refl
]

-- A request event that is handled again, as when a round of the watcher is repeated, changes
-- nothing, whatever transaction it names.
pub requested_again :
    (parse : List ℕ → Option ℕ) (log : RecoveryLog) (tx : Digest) (s : Account)
    → handle_requested parse (record log { tx_hash = tx }) (handle_requested parse log s)
      ≡ handle_requested parse log s
unfolding handle_requested
requested_again parse log tx s = elim (Option-cases (parse (rstrip log.case_id))) [
  | inl e ↦ rw (handle_requested, e, e) refl
  | inr (id, e) ↦
      rw (handle_requested, e, e)
        (ap (λ cs. record s { cases = cs })
          (update-settled (lacks_request id) (save_request log.tx_hash) (save_request tx) s.cases
            (λ c. ground arith)))
]

-- An account that an execution event leaves alone.
abbrev IsSettled : Time → RecoveryLog → ℕ → Account → Type 0
IsSettled now log id s =
    (update_where (lacks_execution id) (confirm_execution now log.tx_hash) s.cases ≡ s.cases)
    × ((log.old_wallet == s.wallet.address) ≡ true → mirror s.wallet ≡ s.wallet)

settled_stays :
    (parse : List ℕ → Option ℕ) (now : Time) (log : RecoveryLog) (id : ℕ) (s : Account)
    → parse (rstrip log.case_id) ≡ some id
    → IsSettled now log id s
    → handle_executed parse now log s ≡ s
unfolding handle_executed
settled_stays parse now log id s e (f, g) = elim (Option-cases (find? (has_case_id id) s.cases)) [
  | inl k ↦ rw (handle_executed, e, k) refl
  | inr (c, k) ↦ elim (Bool-cases (log.old_wallet == s.wallet.address)) [
    | inl b ↦ rw (handle_executed, e, k, b, f) (ap (λ w. record s { wallet = w }) (g b))
    | inr b ↦ rw (handle_executed, e, k, b, f) refl
  ]
]

abbrev confirmed : Time → RecoveryLog → ℕ → Account → Account
confirmed now log id s = record s {
  cases = update_where (lacks_execution id) (confirm_execution now log.tx_hash) s.cases;
}

module _ (parse : List ℕ → Option ℕ) (now : Time) (log : RecoveryLog) (s : Account) (id : ℕ)
    (c : RecoveryCase) (e : parse (rstrip log.case_id) ≡ some id)
    (k : find? (has_case_id id) s.cases ≡ some c) where
  executed_mirrored :
      (log.old_wallet == s.wallet.address) ≡ true
      → handle_executed parse now log s ≡ set_wallet mirror (confirmed now log id s)
  unfolding handle_executed
  executed_mirrored b = rw (handle_executed, e, k, b) refl

  executed_alone :
      (log.old_wallet == s.wallet.address) ≡ false
      → handle_executed parse now log s ≡ confirmed now log id s
  unfolding handle_executed
  executed_alone b = rw (handle_executed, e, k, b) refl

no_case :
    (parse : List ℕ → Option ℕ) (now : Time) (log : RecoveryLog) (s : Account) (id : ℕ)
    → parse (rstrip log.case_id) ≡ some id
    → find? (has_case_id id) s.cases ≡ none
    → handle_executed parse now log s ≡ s
unfolding handle_executed
no_case parse now log s id e k = rw (handle_executed, e, k) refl

differ : {b : Bool} → b ≡ false → b ≡ true → ⊥
differ {b} f t = ground (arith, f, t)

-- An execution event that is handled again at a later time changes nothing: the time at which the
-- execution can no longer be reversed stays that of the first.
pub executed_again :
    (parse : List ℕ → Option ℕ) (now later : Time) (log : RecoveryLog) (s : Account)
    → handle_executed parse later log (handle_executed parse now log s)
      ≡ handle_executed parse now log s
unfolding handle_executed
executed_again parse now later log s = elim (Option-cases (parse (rstrip log.case_id))) [
  | inl e ↦ rw (handle_executed, e, e) refl
  | inr (id, e) ↦ elim (Option-cases (find? (has_case_id id) s.cases)) [
    | inl k ↦ rw (no_case parse now log s id e k) (no_case parse later log s id e k)
    | inr (c, k) ↦
        let u =
          update-settled (lacks_execution id) (confirm_execution now log.tx_hash)
            (confirm_execution later log.tx_hash) s.cases (λ c. ground arith) in
        elim (Bool-cases (log.old_wallet == s.wallet.address)) [
          | inl b ↦
              rw (executed_mirrored parse now log s id c e k b)
                (settled_stays parse later log id _ e (u, λ _. refl))
          | inr b ↦
              rw (executed_alone parse now log s id c e k b)
                (settled_stays parse later log id _ e (u, λ h. absurd (differ b h)))
        ]
  ]
]

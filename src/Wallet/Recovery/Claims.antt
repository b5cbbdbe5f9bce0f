-- ===== src/Wallet/Recovery/Claims.antt =====
-- Claims on somebody's wallet: who may file one, and what it does.
use irg_gdp.Base.{
  ℕ, ◌+◌, ◌≡◌, ◌≢◌, ◌||◌, ◌∙◌, sym, ap, ==_refl, filter, leb, if◌then◌else◌, refl, Bool, true,
  false, ◌&&◌, Option, some, List, [], ◌∷◌, ◌++◌, arith, any, find?,
}
use irg_gdp.Base.Text.{Text, text_eq}
use irg_gdp.Wallet.Model.{
  Account, Nominee, RecoveryCase, social, recovering, suspended, recovered, notified,
  awaiting_ombudsman, Digest, Time, User, is_transactable,
}
use irg_gdp.Wallet.Monad.{ok, err, recovery_error}
use irg_gdp.Wallet.Policy.{Platform, trustee_public_notice}
use irg_gdp.Wallet.Nominees.{active_nominees, is_active_nominee}
use irg_gdp.Wallet.Guard.{wallet_state, check_account}
use irg_gdp.Wallet.Recovery.{
  new_case, has_case_id, set_state, is_closed_wallet, has_email, has_mobile, is_claimant,
  ask_signatures, social_case, initiate_social_recovery, trustee_case, initiate_trustee_recovery,
  cancel_case, cancel_recovery,
}
use irg_gdp.Wallet.Recovery.Cancellation.{cancel_by}

pub ask_signatures_keeps :
    (ns : List Nominee) (s : Account)
    → ((ask_signatures ns s).wallet ≡ s.wallet) × ((ask_signatures ns s).cases ≡ s.cases)
unfolding ask_signatures
ask_signatures_keeps [] s = (refl, refl)
ask_signatures_keeps (n ∷ ns) s = ask_signatures_keeps ns _

-- The user is an active nominee by email or by mobile number.
abbrev pub is_nominee : User → Nominee → Bool
is_nominee u n = n.active && (text_eq n.email u.email || text_eq n.mobile u.mobile)

claimant_by_row :
    (u : User) (ns : List Nominee)
    → (any (has_email u.email) (filter is_active_nominee ns)
        || any (has_mobile u.mobile) (filter is_active_nominee ns))
      ≡ any (is_nominee u) ns
claimant_by_row u [] = refl
claimant_by_row u (n ∷ ns) = ground (arith, claimant_by_row u ns)

found_last :
    (id : ℕ) (c : RecoveryCase) (cs : List RecoveryCase)
    → any (has_case_id id) cs ≡ false
    → has_case_id id c ≡ true
    → find? (has_case_id id) (cs ++ (c ∷ [])) ≡ some c
found_last id c [] fresh e = rw e refl
found_last id c (x ∷ cs) fresh e = ground (arith, found_last id c cs)

filed :
    (id : ℕ) (now : Time) (u : User) (address : ℕ) (grounds : Text) (s : Account) (c : RecoveryCase)
    (rn rd : Bool) (at : Time)
    → (initiate_social_recovery id now u address grounds s).0 ≡ ok c
    → let t = (initiate_social_recovery id now u address grounds s).1 in
      (s.wallet.state ≢ suspended)
      × (s.wallet.state ≢ recovered)
      × (is_claimant u s ≡ true)
      × (c.id ≡ id)
      × (c.path ≡ social)
      × (c.status ≡ notified)
      × (c.cooling_off_ends_at ≡ some (now + 604800))
      × (t.cases ≡ s.cases ++ (c ∷ []))
      × (t.wallet ≡ record s.wallet { state = recovering })
      × (check_account rn rd at t ≡ wallet_state recovering)
unfolding initiate_social_recovery social_case new_case check_account is_transactable
filed id now u address grounds s c rn rd at h = grind (arith, ask_signatures_keeps)

-- A nominee's claim with a fresh key that is accepted was made on a wallet that is neither suspended
-- nor recovered, by somebody whose email or mobile number, be it blank, is that of an active nominee.
-- It pauses the wallet, so that the guard refuses every transaction, and adds its case. Until seven
-- days are over the cancellation of the case is answered with the cancelled case, and later with an
-- error.
pub social_recovery_ok :
    (id : ℕ) (now : Time) (u : User) (address : ℕ) (grounds : Text) (s : Account) (c : RecoveryCase)
    (rn rd : Bool) (at : Time) (pf : Platform) (reason : Text)
    → any (has_case_id id) s.cases ≡ false
    → (initiate_social_recovery id now u address grounds s).0 ≡ ok c
    → let t = (initiate_social_recovery id now u address grounds s).1 in
      (s.wallet.state ≢ suspended)
      × (s.wallet.state ≢ recovered)
      × (any (is_nominee u) s.nominees ≡ true)
      × (c.path ≡ social)
      × (c.status ≡ notified)
      × (t.cases ≡ s.cases ++ (c ∷ []))
      × (t.wallet ≡ record s.wallet { state = recovering })
      × (check_account rn rd at t ≡ wallet_state recovering)
      × ((cancel_recovery pf at id reason t).0
          ≡ (if leb at (now + 604800) then ok (cancel_case pf reason c) else err recovery_error))
unfolding is_claimant
social_recovery_ok id now u address grounds s c rn rd at pf reason fresh h =
    let (free, live, who, key, path, status, ends, cases, wallet, guard) =
      filed id now u address grounds s c rn rd at h in
    let t = (initiate_social_recovery id now u address grounds s).1 in
    let found : find? (has_case_id id) t.cases ≡ some c =
      ap (find? (has_case_id id)) cases ∙ found_last id c s.cases fresh (rw key (==_refl id)) in
    (
      free,
      live,
      sym (claimant_by_row u s.nominees) ∙ who,
      path,
      status,
      cases,
      wallet,
      guard,
      cancel_by pf at (now + 604800) id reason t c found path status ends,
    )

-- On a wallet that is neither suspended nor recovered, a user without a mobile number, whoever it
-- is, can file a claim if an active nominee has no mobile number either.
pub blank_mobile_files :
    (id : ℕ) (now : Time) (u : User) (address : ℕ) (grounds : Text) (s : Account)
    → is_closed_wallet s.wallet.state ≡ false
    → u.mobile ≡ []
    → any (has_mobile []) (active_nominees s) ≡ true
    → (initiate_social_recovery id now u address grounds s).0
      ≡ ok (social_case id now u address grounds)
unfolding initiate_social_recovery is_claimant
blank_mobile_files id now u address grounds s free no_mobile blank = ground arith

-- A trustee claim that is accepted was made on a wallet that is not recovered, be it suspended; it
-- pauses the wallet, whether or not the chain could be told.
pub trustee_recovery_ok :
    (id : ℕ) (now : Time) (u : User) (address : ℕ) (grounds evidence : Text) (filed : Option Digest)
    (s : Account) (c : RecoveryCase) (rn rd : Bool) (at : Time)
    → (initiate_trustee_recovery id now u address grounds evidence filed s).0 ≡ ok c
    → let t = (initiate_trustee_recovery id now u address grounds evidence filed s).1 in
      (s.wallet.state ≢ recovered)
      × (c.status ≡ awaiting_ombudsman)
      × (c.public_notice_ends_at ≡ some (now + trustee_public_notice))
      × (c.recovery_requested_tx_hash ≡ filed)
      × (t.wallet ≡ (set_state recovering s).wallet)
      × (check_account rn rd at t ≡ wallet_state recovering)
unfolding initiate_trustee_recovery trustee_case new_case check_account is_transactable
trustee_recovery_ok id now u address grounds evidence filed s c rn rd at h = ground arith

-- ===== src/Wallet/Recovery/Cancellation.antt =====
-- Which cases the owner can cancel, until when, and what a cancellation does.
use irg_gdp.Base.{
  ℕ, ◌≡◌, ◌≢◌, ◌↔◌, ◌⊎◌, inl, inr, ◌≤◌, leb, if◌then◌else◌, refl, true, false, ◌&&◌, Option, none,
  some, List, [], ◌∷◌, arith, find?, update_where,
}
use irg_gdp.Base.Text.{Text}
use irg_gdp.Wallet.Model.{
  Account, RecoveryCase, CaseStatus, RecoveryPath, self, social, executed, rejected, expired,
  suspended, trustee, notified, cancelled, Digest, Time, is_transactable,
}
use irg_gdp.Wallet.Monad.{ok, err, recovery_error}
use irg_gdp.Wallet.Policy.{Platform}
use irg_gdp.Wallet.Password.{restored_state}
use irg_gdp.Wallet.Recovery.{
  has_case_id, set_state, is_final, is_past, is_social, cancel_case, cancel_recovery,
}

-- A live claim of a nominee can be cancelled until its cooling-off ends.
pub cancel_by :
    (pf : Platform) (later ends : Time) (id : ℕ) (reason : Text) (t : Account) (c : RecoveryCase)
    → find? (has_case_id id) t.cases ≡ some c
    → c.path ≡ social
    → c.status ≡ notified
    → c.cooling_off_ends_at ≡ some ends
    → (cancel_recovery pf later id reason t).0
      ≡ (if leb later ends then ok (cancel_case pf reason c) else err recovery_error)
unfolding cancel_recovery
cancel_by pf later ends id reason t c found path status ends_at = ground arith

pub updated_found :
    (id : ℕ) (f : RecoveryCase → RecoveryCase) (c : RecoveryCase) (cs : List RecoveryCase)
    → ((x : RecoveryCase) → (f x).id ≡ x.id)
    → find? (has_case_id id) cs ≡ some c
    → find? (has_case_id id) (update_where (has_case_id id) f cs) ≡ some (f c)
updated_found id f c [] keeps h = cc
updated_found id f c (x ∷ cs) keeps h = ground (arith, keeps x, updated_found id f c cs keeps)

-- A case that is not closed, and, if a nominee filed it, whose cooling-off is not over.
abbrev pub IsCancellable : Time → RecoveryCase → Type 0
IsCancellable now c =
    (c.status ≢ executed)
    × (c.status ≢ cancelled)
    × (c.status ≢ rejected)
    × (c.status ≢ expired)
    × ((c.path ≢ social)
        ⊎ (c.cooling_off_ends_at ≡ none)
        ⊎ ((t : Time) × (c.cooling_off_ends_at ≡ some t) × (now ≤ t)))

live_status :
    (st : CaseStatus)
    → is_final st ≡ false
    → (st ≢ executed) × (st ≢ cancelled) × (st ≢ rejected) × (st ≢ expired)
live_status st h = (λ e. ground arith, λ e. ground arith, λ e. ground arith, λ e. ground arith)

status_live :
    (st : CaseStatus)
    → (st ≢ executed) × (st ≢ cancelled) × (st ≢ rejected) × (st ≢ expired)
    → is_final st ≡ false
status_live executed (a, b, c, d) = elim (a refl) [ ]
status_live cancelled (a, b, c, d) = elim (b refl) [ ]
status_live rejected (a, b, c, d) = elim (c refl) [ ]
status_live expired (a, b, c, d) = elim (d refl) [ ]
status_live _ h = refl

in_time :
    (p : RecoveryPath) (o : Option Time) (now : Time)
    → (is_social p && is_past o now) ≡ false
    → (p ≢ social) ⊎ (o ≡ none) ⊎ ((t : Time) × (o ≡ some t) × (now ≤ t))
in_time self o now h = inl (λ e. ground arith)
in_time trustee o now h = inl (λ e. ground arith)
in_time social none now h = inr (inl refl)
in_time social (some t) now h = inr (inr (t, refl, ground arith))

time_in :
    (p : RecoveryPath) (o : Option Time) (now : Time)
    → (p ≢ social) ⊎ (o ≡ none) ⊎ ((t : Time) × (o ≡ some t) × (now ≤ t))
    → (is_social p && is_past o now) ≡ false
time_in self o now h = refl
time_in trustee o now h = refl
time_in social o now (inl n) = elim (n refl) [ ]
time_in social o now (inr (inl e)) = ground arith
time_in social o now (inr (inr (t, e, l))) = ground arith

cancels :
    (pf : Platform) (now : Time) (id : ℕ) (reason : Text) (s : Account) (c : RecoveryCase)
    → find? (has_case_id id) s.cases ≡ some c
    → is_final c.status ≡ false
    → (is_social c.path && is_past c.cooling_off_ends_at now) ≡ false
    → (cancel_recovery pf now id reason s).0 ≡ ok (cancel_case pf reason c)
unfolding cancel_recovery
cancels pf now id reason s c found live early = ground arith

cancelled_only :
    (pf : Platform) (now : Time) (id : ℕ) (reason : Text) (s : Account) (c x : RecoveryCase)
    → find? (has_case_id id) s.cases ≡ some c
    → (cancel_recovery pf now id reason s).0 ≡ ok x
    → (is_final c.status ≡ false)
      × ((is_social c.path && is_past c.cooling_off_ends_at now) ≡ false)
unfolding cancel_recovery
cancelled_only pf now id reason s c x found h = ground arith

-- A cancellation returns exactly for the cases of the own wallet that are not executed, cancelled,
-- rejected or expired, and for a nominee's claim only until its cooling-off period is over.
pub cancel_recovery-ok_iff :
    (pf : Platform) (now : Time) (id : ℕ) (reason : Text) (s : Account) (c : RecoveryCase)
    → find? (has_case_id id) s.cases ≡ some c
    → ((x : RecoveryCase) × ((cancel_recovery pf now id reason s).0 ≡ ok x)) ↔ IsCancellable now c
cancel_recovery-ok_iff pf now id reason s c found = (
  λ (x, h).
      let (a, b) = cancelled_only pf now id reason s c x found h in
      let (k, l, m, n) = live_status c.status a in
      (k, l, m, n, in_time c.path c.cooling_off_ends_at now b),
  λ (k, l, m, n, o). (
    cancel_case pf reason c,
    cancels pf now id reason s c found (status_live c.status (k, l, m, n))
        (time_in c.path c.cooling_off_ends_at now o),
  ),
)

-- A cancellation that returns closes the case as cancelled and puts the wallet back: activated if it
-- has a password, created if not.
pub cancel_recovery_restores :
    (pf : Platform) (now : Time) (id : ℕ) (reason : Text) (s : Account) (c closed : RecoveryCase)
    → find? (has_case_id id) s.cases ≡ some c
    → (cancel_recovery pf now id reason s).0 ≡ ok closed
    → let t = (cancel_recovery pf now id reason s).1 in
      (closed ≡ cancel_case pf reason c)
      × (closed.status ≡ cancelled)
      × (find? (has_case_id id) t.cases ≡ some closed)
      × (t.wallet ≡ (set_state (restored_state s.wallet) s).wallet)
unfolding cancel_recovery cancel_case
cancel_recovery_restores pf now id reason s c closed found h =
    ground (arith, updated_found id (cancel_case pf reason) c s.cases (λ x. refl))

-- If a suspended wallet has a password and no lock, the cancellation of a trustee claim that is
-- not final makes it one that can transact: it lifts an emergency freeze that came after the
-- claim.
pub cancel_lifts_freeze :
    (pf : Platform) (now : Time) (id : ℕ) (reason : Text) (s : Account) (c : RecoveryCase)
    (h : Digest)
    → find? (has_case_id id) s.cases ≡ some c
    → is_final c.status ≡ false
    → c.path ≡ trustee
    → s.wallet.state ≡ suspended
    → s.wallet.password_hash ≡ some h
    → s.wallet.locked_until ≡ none
    → is_transactable (cancel_recovery pf now id reason s).1.wallet now ≡ true
unfolding cancel_recovery is_transactable
cancel_lifts_freeze pf now id reason s c h found live path frozen has free = ground arith

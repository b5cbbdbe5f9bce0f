-- ===== src/Wallet/Recovery/Orders.antt =====
-- What an order of the Ombudsman does to a case and a wallet.
use irg_gdp.Base.{ℕ, ◌+◌, ◌≡◌, if◌then◌else◌, is_some, refl, some, arith, find?}
use irg_gdp.Wallet.Model.{
  Account, RecoveryCase, CaseStatus, created, executed, rejected, activated, recovered, Digest,
  Time,
}
use irg_gdp.Wallet.Password.{restored_state}
use irg_gdp.Wallet.Recovery.{
  has_case_id, set_state, Disposition, reject, approve, approve_modified, other_disposition,
  note_order, reject_case, execute_case, apply_order, execute_ombudsman_order,
}
use irg_gdp.Wallet.Recovery.Cancellation.{updated_found}

ordered :
    (now : Time) (id : ℕ) (h tx : Digest) (s : Account) (c : RecoveryCase)
    → find? (has_case_id id) s.cases ≡ some c
    → let after = λ (d : Disposition). (execute_ombudsman_order now id h tx d s).1 in
      let case = λ (d : Disposition). find? (has_case_id id) (after d).cases in
      (case reject ≡ some (reject_case h tx c))
      × ((after reject).wallet ≡ (set_state (restored_state s.wallet) s).wallet)
      × (case approve ≡ some (execute_case now h tx c))
      × ((after approve).wallet ≡ (set_state recovered s).wallet)
      × (after approve_modified ≡ after approve)
      × (case other_disposition ≡ some (note_order h tx c))
      × ((after other_disposition).wallet ≡ s.wallet)
unfolding execute_ombudsman_order apply_order reject_case execute_case
ordered now id h tx s c found = ground (
  arith,
  updated_found id (reject_case h tx) c s.cases (λ x. refl),
  updated_found id (execute_case now h tx) c s.cases (λ x. refl),
  updated_found id (note_order h tx) c s.cases (λ x. refl),
)

-- The case holds the order's hash and the transaction it came with, and has this status; its key,
-- its path and its claimant are as before.
abbrev pub IsOrdered : CaseStatus → Digest → Digest → RecoveryCase → RecoveryCase → Type 0
IsOrdered st h tx c x =
    (x.status ≡ st)
    × (x.ombudsman_order_hash ≡ some h)
    × (x.ombudsman_order_tx_hash ≡ some tx)
    × (x.id ≡ c.id)
    × (x.path ≡ c.path)
    × (x.claimant ≡ c.claimant)

-- An order about a known case is carried out whatever the case's status. A rejection leaves the case
-- rejected and the wallet activated if it has a password, and created if not. An approval, modified
-- or not, leaves the case executed with 90 days in which it can be reversed, and the wallet recovered.
-- Any other disposition changes neither the status nor the wallet. Each records the hash of the order.
pub order_cases :
    (now : Time) (id : ℕ) (h tx : Digest) (s : Account) (c : RecoveryCase)
    → find? (has_case_id id) s.cases ≡ some c
    → let after = λ (d : Disposition). (execute_ombudsman_order now id h tx d s).1 in
      let case = λ (d : Disposition). find? (has_case_id id) (after d).cases in
      ((x : RecoveryCase) × (case reject ≡ some x) × IsOrdered rejected h tx c x)
      × (((after reject).wallet) ≡ record s.wallet {
        state = if is_some s.wallet.password_hash then activated else created;
      })
      × ((x : RecoveryCase) × (case approve ≡ some x)
          × IsOrdered executed h tx c x
          × (x.execution_tx_hash ≡ some tx)
          × (x.reversibility_ends_at ≡ some (now + 7776000)))
      × ((after approve).wallet ≡ record s.wallet { state = recovered })
      × (after approve_modified ≡ after approve)
      × ((x : RecoveryCase) × (case other_disposition ≡ some x) × IsOrdered c.status h tx c x)
      × ((after other_disposition).wallet ≡ s.wallet)
unfolding reject_case execute_case
order_cases now id h tx s c found =
    let (a, b, d, e, f, g, k) = ordered now id h tx s c found in
    (
      (reject_case h tx c, a, (refl, refl, refl, refl, refl, refl)),
      b,
      (execute_case now h tx c, d, (refl, refl, refl, refl, refl, refl), refl, refl),
      e,
      f,
      (note_order h tx c, g, (refl, refl, refl, refl, refl, refl)),
      k,
    )

-- An order that approves a case and a later one that rejects the same case leave the wallet, which
-- the first had retired, activated again and the case rejected.
pub late_rejection_revives :
    (now later : Time) (id : ℕ) (h tx h' tx' : Digest) (s : Account) (c : RecoveryCase) (p : Digest)
    → find? (has_case_id id) s.cases ≡ some c
    → s.wallet.password_hash ≡ some p
    → let t = (execute_ombudsman_order now id h tx approve s).1 in
      let u = (execute_ombudsman_order later id h' tx' reject t).1 in
      (t.wallet.state ≡ recovered) × (u.wallet.state ≡ activated)
unfolding execute_ombudsman_order apply_order reject_case execute_case
late_rejection_revives now later id h tx h' tx' s c p found has =
    ground (arith, updated_found id (execute_case now h tx) c s.cases (λ x. refl))

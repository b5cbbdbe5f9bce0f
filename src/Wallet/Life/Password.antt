-- ===== src/Wallet/Life/Password.antt =====
-- A wallet that is activated or locked has a password, through every sequence of steps.
use irg_gdp.Base.{
  ℕ, ◌≡◌, refl, sym, ◌⊎◌, true, false, Option, none, List, arith, is_some, ap, inl, inr,
}
use mathlib.Core.Path.{subst}
use irg_gdp.Base.Text.{Text}
use irg_gdp.Wallet.Model.{
  Account, User, created, Digest, Time, touch, is_activated, is_transactable,
}
use irg_gdp.Wallet.Monad.{ok, err, Result}
use irg_gdp.Wallet.Policy.{Platform}
use irg_gdp.Wallet.Password.{
  is_locked, register_failed_attempt, verify_wallet_password, require_password,
  change_wallet_password,
}
use irg_gdp.Wallet.Nominees.{
  NomineeInput, may_update, register_nominees, retire_nominees, update_nominees,
}
use irg_gdp.Wallet.Activation.{Activation, activated_wallet, activate_wallet, WalletInfo}
use irg_gdp.Wallet.Activation.Outcome.{activate_ok, activate_fails_unchanged}
use irg_gdp.Wallet.Devices.{
  DeviceInput, retire_devices, replace_device, bind_new_device, revoke_device, emergency_freeze,
}
use irg_gdp.Wallet.Inactivity.{
  Stats, confirm_liveness, sweep_one, sweep_active, reminder_stage, prompt_stage,
}
use irg_gdp.Wallet.Inactivity.Escalation.{stage_wallets}
use irg_gdp.Wallet.Recovery.{
  initiate_self_recovery, self_recover, initiate_social_recovery, initiate_trustee_recovery,
  cancel_recovery, Disposition, apply_order, execute_ombudsman_order,
}
use irg_gdp.Wallet.Recovery.Claims.{ask_signatures_keeps}
use irg_gdp.Wallet.Ownership.{TransferInput, initiate_ownership_transfer, cancel_ownership_transfer}
use irg_gdp.Wallet.Admin.{suspend_wallet, unsuspend_wallet, unlock_wallet}
use irg_gdp.Chain.Orders.{RecoveryLog, handle_executed}
use irg_gdp.Wallet.Life.Steps.{Step, Reach, here, next}

-- Either the state needs no password, or there is one.
abbrev pub HasPassword : Account → Type 0
HasPassword s =
    ((is_activated s.wallet.state ≡ false) × (is_locked s.wallet.state ≡ false))
    ⊎ (is_some s.wallet.password_hash ≡ true)

same_wallet : (s t : Account) → t.wallet ≡ s.wallet → HasPassword s → HasPassword t
same_wallet s t e h = ground arith

verify-HasPassword :
    (pf : Platform) (now : Time) (p : Text) (s : Account)
    → HasPassword s
    → HasPassword (verify_wallet_password pf now p s).1
unfolding verify_wallet_password register_failed_attempt
verify-HasPassword pf now p s h = ground arith

require-HasPassword :
    (pf : Platform) (now : Time) (p : Text) (s : Account)
    → HasPassword s
    → HasPassword (require_password pf now p s).1
unfolding require_password
require-HasPassword pf now p s h = ground (arith, verify-HasPassword pf now p s h)

change-HasPassword :
    (pf : Platform) (now : Time) (salt : Digest) (old new : Text) (s : Account)
    → HasPassword s
    → HasPassword (change_wallet_password pf now salt old new s).1
unfolding change_wallet_password
change-HasPassword pf now salt old new s h = ground arith

update-HasPassword :
    (pf : Platform) (now : Time) (ns : List NomineeInput) (p : Text) (s : Account)
    → HasPassword s
    → HasPassword (update_nominees pf now ns p s).1
unfolding update_nominees may_update register_nominees retire_nominees
update-HasPassword pf now ns p s h = ground (arith, require-HasPassword pf now p s h)

bind-HasPassword :
    (pf : Platform) (id : ℕ) (now : Time) (d : DeviceInput) (p : Text) (s : Account)
    → HasPassword s
    → HasPassword (bind_new_device pf id now d p s).1
unfolding bind_new_device replace_device retire_devices
bind-HasPassword pf id now d p s h = ground (arith, require-HasPassword pf now p s h)

revoke-HasPassword :
    (pf : Platform) (now : Time) (id : ℕ) (p : Text) (s : Account)
    → HasPassword s
    → HasPassword (revoke_device pf now id p s).1
unfolding revoke_device
revoke-HasPassword pf now id p s h = ground (arith, require-HasPassword pf now p s h)

sweep-HasPassword :
    (now : Time) (st : Stats) (s : Account) → HasPassword s → HasPassword (sweep_one now s st).0
unfolding sweep_one sweep_active reminder_stage prompt_stage
sweep-HasPassword now st s h = ground (arith, stage_wallets now s)

social-HasPassword :
    (id : ℕ) (now : Time) (u : User) (address : ℕ) (grounds : Text) (s : Account)
    → HasPassword s
    → HasPassword (initiate_social_recovery id now u address grounds s).1
unfolding initiate_social_recovery
social-HasPassword id now u address grounds s h = grind (arith, ask_signatures_keeps)

trustee-HasPassword :
    (id : ℕ) (now : Time) (u : User) (address : ℕ) (grounds evidence : Text) (filed : Option Digest)
    (s : Account)
    → HasPassword s
    → HasPassword (initiate_trustee_recovery id now u address grounds evidence filed s).1
unfolding initiate_trustee_recovery
trustee-HasPassword id now u address grounds evidence filed s h = ground arith

cancel-HasPassword :
    (pf : Platform) (now : Time) (id : ℕ) (reason : Text) (s : Account)
    → HasPassword s
    → HasPassword (cancel_recovery pf now id reason s).1
unfolding cancel_recovery
cancel-HasPassword pf now id reason s h = ground arith

order-HasPassword :
    (now : Time) (id : ℕ) (h tx : Digest) (d : Disposition) (s : Account)
    → HasPassword s
    → HasPassword (execute_ombudsman_order now id h tx d s).1
unfolding execute_ombudsman_order apply_order
order-HasPassword now id h tx d s has = ground arith

transfer-HasPassword :
    (id : ℕ) (now : Time) (f : TransferInput) (filed : Option Digest) (s : Account)
    → HasPassword s
    → HasPassword (initiate_ownership_transfer id now f filed s).1
unfolding initiate_ownership_transfer
transfer-HasPassword id now f filed s h = ground arith

cancel_transfer-HasPassword :
    (pf : Platform) (id : ℕ) (reason : Text) (s : Account)
    → HasPassword s
    → HasPassword (cancel_ownership_transfer pf id reason s).1
unfolding cancel_ownership_transfer
cancel_transfer-HasPassword pf id reason s h = ground arith

activate-HasPassword :
    (pf : Platform) (id : ℕ) (now : Time) (salt : Digest) (a : Activation) (s : Account)
    → (r : Result WalletInfo) → (activate_wallet pf id now salt a s).0 ≡ r
    → HasPassword s
    → HasPassword (activate_wallet pf id now salt a s).1
unfolding activated_wallet
activate-HasPassword pf id now salt a s (ok info) e h =
    let (_, _, _, _, by, _, _) = activate_ok pf id now salt a s info e in inr (ap is_some by.1)
activate-HasPassword pf id now salt a s (err x) e h =
    subst HasPassword (sym (activate_fails_unchanged pf id now salt a s x e)) h

mirror-HasPassword :
    (parse : List ℕ → Option ℕ) (now : Time) (log : RecoveryLog) (s : Account)
    → HasPassword s
    → HasPassword (handle_executed parse now log s)
unfolding handle_executed
mirror-HasPassword parse now log s h = ground arith

Step-HasPassword : {pf : Platform} {s t : Account} → Step pf s t → HasPassword s → HasPassword t
unfolding emergency_freeze touch confirm_liveness initiate_self_recovery self_recover replace_device
    retire_devices suspend_wallet unlock_wallet
Step-HasPassword {pf} {s} (Step.activate id now salt a) h =
    activate-HasPassword pf id now salt a s _ refl h
Step-HasPassword {pf} {s} (Step.verify now p) h = verify-HasPassword pf now p s h
Step-HasPassword {pf} {s} (Step.change now salt old new) h =
    change-HasPassword pf now salt old new s h
Step-HasPassword {pf} {s} (Step.nominate now ns p) h = update-HasPassword pf now ns p s h
Step-HasPassword {pf} {s} (Step.bind id now d p) h = bind-HasPassword pf id now d p s h
Step-HasPassword {pf} {s} (Step.revoke now id p) h = revoke-HasPassword pf now id p s h
Step-HasPassword {pf} {s} Step.freeze h = ground arith
Step-HasPassword {pf} {s} (Step.touches now) h = h
Step-HasPassword {pf} {s} (Step.confirm now) h = h
Step-HasPassword {pf} {s} (Step.sweep now st) h = sweep-HasPassword now st s h
Step-HasPassword {pf} {s} (Step.recover_self case_id device_id now words d) h = ground arith
Step-HasPassword {pf} {s} (Step.recover_social id now u address grounds) h =
    social-HasPassword id now u address grounds s h
Step-HasPassword {pf} {s} (Step.recover_trustee id now u address grounds evidence filed) h =
    trustee-HasPassword id now u address grounds evidence filed s h
Step-HasPassword {pf} {s} (Step.cancel_claim now id reason) h =
    cancel-HasPassword pf now id reason s h
Step-HasPassword {pf} {s} (Step.order now id hash tx d) h = order-HasPassword now id hash tx d s h
Step-HasPassword {pf} {s} (Step.transfer id now f filed) h = transfer-HasPassword id now f filed s h
Step-HasPassword {pf} {s} Step.suspend h = ground arith
Step-HasPassword {pf} {s} Step.unlocked h = ground arith
Step-HasPassword {pf} {s} (Step.mirrored parse now log) h = mirror-HasPassword parse now log s h
Step-HasPassword {pf} {s} (Step.cancel_transfer id reason) h =
    cancel_transfer-HasPassword pf id reason s h

-- Every account that the calls lead to, in any order, has a password if its wallet is activated or
-- locked, provided that this held at the start.
pub Reach-HasPassword :
    {pf : Platform} {s t : Account} → Reach pf s t → HasPassword s → HasPassword t
Reach-HasPassword here h = h
Reach-HasPassword (next r st) h = Step-HasPassword st (Reach-HasPassword r h)

-- In every life of an account whose wallet began as created, a wallet that can transact has a
-- password. A life is made of the calls of the service, the sweeps, the watcher's handling of an
-- executed recovery, and the administrator's actions that suspend a wallet or unlock one; the action
-- that reactivates a suspended wallet and edits of the rows in the admin are not among them.
pub transactable_has_password :
    {pf : Platform} {s t : Account} (now : Time)
    → s.wallet.state ≡ created
    → Reach pf s t
    → is_transactable t.wallet now ≡ true
    → is_some t.wallet.password_hash ≡ true
unfolding is_transactable
transactable_has_password {s} {t} now new r can =
    ground (
      arith,
      Reach-HasPassword r (inl (ap (λ st. is_activated st) new, ap (λ st. is_locked st) new)),
    )

-- A wallet that was created and never activated, frozen by its user and then reactivated by the
-- administrator, can transact without a password, if it has none and no lock.
pub reactivated_without_password :
    (now : Time) (s : Account)
    → s.wallet.state ≡ created
    → s.wallet.password_hash ≡ none
    → s.wallet.locked_until ≡ none
    → let t = unsuspend_wallet (emergency_freeze s) in
      (is_transactable t.wallet now ≡ true) × (t.wallet.password_hash ≡ none)
unfolding is_transactable emergency_freeze unsuspend_wallet
reactivated_without_password now s new bare free = ground arith

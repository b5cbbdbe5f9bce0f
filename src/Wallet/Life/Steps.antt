-- ===== src/Wallet/Life/Steps.antt =====
-- The steps, one constructor for each call, whether it returns or raises.
use irg_gdp.Base.{ℕ, Option, List}
use irg_gdp.Base.Text.{Text}
use irg_gdp.Wallet.Model.{Account, User, Digest, Time, touch}
use irg_gdp.Wallet.Monad.{set_wallet}
use irg_gdp.Wallet.Policy.{Platform}
use irg_gdp.Wallet.Password.{verify_wallet_password, change_wallet_password}
use irg_gdp.Wallet.Nominees.{NomineeInput, update_nominees}
use irg_gdp.Wallet.Activation.{Activation, activate_wallet}
use irg_gdp.Wallet.Devices.{DeviceInput, bind_new_device, revoke_device, emergency_freeze}
use irg_gdp.Wallet.Inactivity.{Stats, confirm_liveness, sweep_one}
use irg_gdp.Wallet.Recovery.{
  initiate_self_recovery, initiate_social_recovery, initiate_trustee_recovery, cancel_recovery,
  Disposition, execute_ombudsman_order,
}
use irg_gdp.Wallet.Admin.{suspend_wallet, unlock_wallet}
use irg_gdp.Chain.Orders.{RecoveryLog, handle_executed}
use irg_gdp.Wallet.Ownership.{TransferInput, initiate_ownership_transfer, cancel_ownership_transfer}

pub data Step (pf : Platform) : Account → Account → Type 0 where
  activate :
      {s : Account} (id : ℕ) (now : Time) (salt : Digest) (a : Activation)
      → Step pf s (activate_wallet pf id now salt a s).1
  verify : {s : Account} (now : Time) (p : Text) → Step pf s (verify_wallet_password pf now p s).1
  change :
      {s : Account} (now : Time) (salt : Digest) (old new : Text)
      → Step pf s (change_wallet_password pf now salt old new s).1
  nominate :
      {s : Account} (now : Time) (ns : List NomineeInput) (p : Text)
      → Step pf s (update_nominees pf now ns p s).1
  bind :
      {s : Account} (id : ℕ) (now : Time) (d : DeviceInput) (p : Text)
      → Step pf s (bind_new_device pf id now d p s).1
  revoke :
      {s : Account} (now : Time) (id : ℕ) (p : Text) → Step pf s (revoke_device pf now id p s).1
  freeze : {s : Account} → Step pf s (emergency_freeze s)
  touches : {s : Account} (now : Time) → Step pf s (set_wallet (touch now) s)
  confirm : {s : Account} (now : Time) → Step pf s (confirm_liveness now s)
  sweep : {s : Account} (now : Time) (st : Stats) → Step pf s (sweep_one now s st).0
  recover_self :
      {s : Account} (case_id device_id : ℕ) (now : Time) (words : List Text) (d : DeviceInput)
      → Step pf s (initiate_self_recovery pf case_id device_id now words d s).1
  recover_social :
      {s : Account} (id : ℕ) (now : Time) (u : User) (address : ℕ) (grounds : Text)
      → Step pf s (initiate_social_recovery id now u address grounds s).1
  recover_trustee :
      {s : Account} (id : ℕ) (now : Time) (u : User) (address : ℕ) (grounds evidence : Text)
      (filed : Option Digest)
      → Step pf s (initiate_trustee_recovery id now u address grounds evidence filed s).1
  cancel_claim :
      {s : Account} (now : Time) (id : ℕ) (reason : Text)
      → Step pf s (cancel_recovery pf now id reason s).1
  order :
      {s : Account} (now : Time) (id : ℕ) (h tx : Digest) (d : Disposition)
      → Step pf s (execute_ombudsman_order now id h tx d s).1
  transfer :
      {s : Account} (id : ℕ) (now : Time) (f : TransferInput) (filed : Option Digest)
      → Step pf s (initiate_ownership_transfer id now f filed s).1
  suspend : {s : Account} → Step pf s (suspend_wallet s)
  unlocked : {s : Account} → Step pf s (unlock_wallet s)
  mirrored :
      {s : Account} (parse : List ℕ → Option ℕ) (now : Time) (log : RecoveryLog)
      → Step pf s (handle_executed parse now log s)
  cancel_transfer :
      {s : Account} (id : ℕ) (reason : Text)
      → Step pf s (cancel_ownership_transfer pf id reason s).1

pub data Reach (pf : Platform) (s : Account) : Account → Type 0 where
  here : Reach pf s s
  next : {t u : Account} → Reach pf s t → Step pf t u → Reach pf s u

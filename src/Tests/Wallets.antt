-- ===== src/Tests/Wallets.antt =====
-- The wallet's own calls at work.
use irg_gdp.Base.{ℕ, ◌+◌, ◌≡◌, refl, true, false, some, List, [], ◌∷◌, arith}
use irg_gdp.Base.Int.{◌+ℤ◌}
use irg_gdp.Wallet.Model.{Account, locked, suspended}
use irg_gdp.Wallet.Monad.{ok, set_wallet}
use irg_gdp.Wallet.Policy.{lock_duration, validate_wallet_password, is_complex, clean_words}
use irg_gdp.Wallet.Password.{verify_wallet_password, change_wallet_password, require_password}
use irg_gdp.Wallet.Password.Lockout.{Attempt, attempt_all, tenth_failure_locks}
use irg_gdp.Wallet.Password.Change.{Change, change_commits}
use irg_gdp.Wallet.Nominees.{
  share_total, full_share, update_nominees, active_nominees, may_update, given_total,
  register_nominees, total_or_zero, share_total,
}
use irg_gdp.Wallet.Nominees.Replacement.{update_nominees_ok}
use irg_gdp.Wallet.Guard.{check_devices, device_not_ready, require_transactable, served}
use irg_gdp.Wallet.Guard.Decision.{served_iff}
use irg_gdp.Wallet.Activation.{
  activate_wallet, check_activation, may_activate, check_holder, check_activation_nominees,
}
use irg_gdp.Wallet.Activation.Outcome.{IsActivatedBy, activate_ok}
use irg_gdp.Wallet.Devices.{bind_new_device}
use irg_gdp.Wallet.Devices.Binding.{bind_new_device_ok}
use irg_gdp.Tests.Samples.{
  new_wallet, sample, password, new_password, wrong_password, fresh, half, activation, device,
  in_use, with_nominees, encode,
}

abbrev nine_wrong : List Attempt
nine_wrong =
    (1, wrong_password)
    ∷ (2, wrong_password)
    ∷ (3, wrong_password)
    ∷ (4, wrong_password)
    ∷ (5, wrong_password)
    ∷ (6, wrong_password)
    ∷ (7, wrong_password)
    ∷ (8, wrong_password)
    ∷ (9, wrong_password)
    ∷ []

tenth_failure_locks_example :
    let t = attempt_all sample nine_wrong in_use in
    (t ≡ set_wallet (λ w. record w { failed_password_attempts = 9 }) in_use)
    × (verify_wallet_password sample 20 wrong_password t ≡ (
      ok false,
      set_wallet
          (λ w. record w {
            failed_password_attempts = 10;
            state = locked;
            locked_until = some (20 + lock_duration);
          })
          in_use,
    ))
tenth_failure_locks_example =
    tenth_failure_locks sample (encode password) nine_wrong 20 wrong_password in_use refl refl
      (refl, (refl, (refl, (refl, (refl, (refl, (refl, (refl, (refl, tt))))))))) refl refl

abbrev locked_account : Account
locked_account =
    set_wallet
      (λ w. record w { state = locked; locked_until = some 100; failed_password_attempts = 10 })
      in_use

abbrev frozen_nine : Account
frozen_nine = set_wallet (λ w. record w { state = suspended; failed_password_attempts = 9 }) in_use

abbrev guess : Change
guess = record { now = 3; salt = 0; old = wrong_password; new = new_password }

change_commits_example :
    (verify_wallet_password sample 5 new_password
      (change_wallet_password sample 5 1 password new_password in_use).1).0
    ≡ ok true
unfolding validate_wallet_password is_complex
change_commits_example = (change_commits sample 5 1 password new_password in_use refl refl refl).5

update_nominees_ok_example :
    share_total
      (active_nominees (update_nominees sample 5 (half [] ∷ half [] ∷ []) password with_nominees).1)
    ≡ full_share
unfolding update_nominees may_update require_password verify_wallet_password given_total ◌+ℤ◌
    register_nominees
update_nominees_ok_example =
    (update_nominees_ok sample 5 (half [] ∷ half [] ∷ []) password with_nominees (refl, (refl, tt))
      refl).3

abbrev page : ℕ
page = 42

served_iff_example : require_transactable true false 20 true (some with_nominees) page ≡ served page
unfolding share_total ◌+ℤ◌
served_iff_example =
    (served_iff true false 20 true (some with_nominees) page).1
      (refl, (with_nominees, refl, (refl, tt, (omega arith, refl), tt)))

activate_ok_example :
    IsActivatedBy sample 100 0 activation new_wallet
      (activate_wallet sample 1 100 0 activation fresh).1.wallet
unfolding activate_wallet check_activation may_activate validate_wallet_password is_complex
    clean_words check_holder check_activation_nominees total_or_zero ◌+ℤ◌ register_nominees
activate_ok_example = (activate_ok sample 1 100 0 activation fresh _ refl).4

abbrev nominated : Account
nominated = record fresh { nominees = with_nominees.nominees }

bind_new_device_ok_example :
    check_devices 50 (bind_new_device sample 2 10 device password in_use).1 ≡ device_not_ready
unfolding bind_new_device require_password verify_wallet_password
bind_new_device_ok_example = (bind_new_device_ok sample 2 10 50 device password in_use _ refl).4

-- ===== src/Wallet/Admin.antt =====
-- The actions of backend/wallet_access/admin.py on one of the selected wallets.
use irg_gdp.Base.{true, false, Bool, none, if◌then◌else◌}
use irg_gdp.Wallet.Model.{Account, WalletState, activated, suspended, locked}
use irg_gdp.Wallet.Monad.{set_wallet}

abbrev pub is_suspended : WalletState → Bool
is_suspended suspended = true
is_suspended _ = false

abbrev pub is_locked_state : WalletState → Bool
is_locked_state locked = true
is_locked_state _ = false

unfoldable pub suspend_wallet : Account → Account
suspend_wallet s =
    if is_suspended s.wallet.state then s else set_wallet (λ w. record w { state = suspended }) s

unfoldable pub unsuspend_wallet : Account → Account
unsuspend_wallet s =
    if is_suspended s.wallet.state then set_wallet (λ w. record w { state = activated }) s else s

unfoldable pub unlock_wallet : Account → Account
unlock_wallet s =
    if is_locked_state s.wallet.state
    then set_wallet
        (λ w. record w { state = activated; failed_password_attempts = 0; locked_until = none }) s
    else s

-- ===== src/Wallet/Password.antt =====
-- The wallet password: its check with a count of failures, the lock, and its change.
pub mod Lockout
pub mod Change
use irg_gdp.Base.{ℕ, ◌+◌, Bool, true, false, Option, none, some, leb, not, is_some, if◌then◌else◌}
use irg_gdp.Base.Text.{Text, codes}
use irg_gdp.Wallet.Model.{
  Wallet, WalletState, created, activated, locked, Time, Digest, is_activated, is_after,
  unusual_activity,
}
use irg_gdp.Wallet.Monad.{
  Action, WalletError, invalid_password, password_policy, wallet_locked, not_transactable,
  value_error, ⊤, ok, err, pure, raise, gets, atomic, ◌>>=◌, ◌>>◌, raise_if, modify, set_wallet,
  notify,
}
use irg_gdp.Wallet.Policy.{
  is_forbidden, Platform, check_hash, validate_wallet_password, lock_duration,
  max_failed_password_attempts,
}

-- `_register_failed_password_attempt`
unfoldable pub register_failed_attempt : Time → Wallet → Wallet
register_failed_attempt now w =
    let n = w.failed_password_attempts + 1 in
    if leb max_failed_password_attempts n
    then record w {
      failed_password_attempts = n;
      state = locked;
      locked_until = some (now + lock_duration);
    }
    else record w { failed_password_attempts = n }

-- 'ACTIVATED' if wallet.password_hash else 'CREATED'
abbrev pub restored_state : Wallet → WalletState
restored_state w = if is_some w.password_hash then activated else created

abbrev pub is_locked : WalletState → Bool
is_locked locked = true
is_locked _ = false

-- The branch of `verify_wallet_password` for a lock whose time has run out.
unfoldable pub unlock : Wallet → Wallet
unlock w = record w { state = restored_state w; locked_until = none; failed_password_attempts = 0 }

-- The part of `verify_wallet_password` after the lock.
unfoldable pub verify_unlocked : Platform → Time → Text → Action Bool
unfolding register_failed_attempt
verify_unlocked pf now p s =
    if not (is_some s.wallet.password_hash)
    then (err not_transactable, s)
    else if check_hash pf p s.wallet.password_hash
    then (ok true, set_wallet (λ w. record w { failed_password_attempts = 0 }) s)
    else (ok false, set_wallet (register_failed_attempt now) s)

unfoldable pub verify_wallet_password : Platform → Time → Text → Action Bool
unfolding verify_unlocked unlock
verify_wallet_password pf now p s =
    if is_locked s.wallet.state
    then (if is_after s.wallet.locked_until now
        then (err wallet_locked, s)
        else verify_unlocked pf now p (set_wallet unlock s))
    else verify_unlocked pf now p s

-- `if not verify_wallet_password(user, p): raise InvalidPassword`
unfoldable pub require_password : Platform → Time → Text → Action ⊤
require_password pf now p = do
  right ← verify_wallet_password pf now p
  raise_if (not right) invalid_password

abbrev pub store_password : Platform → Text → Digest → Wallet → Wallet
store_password pf p salt w = record w {
  password_hash = some (pf.make_password p salt);
  password_salt = salt;
  failed_password_attempts = 0;
  locked_until = none;
}

-- `if not check_password(old, wallet.password_hash): …`, on the outcome of the check.
unfoldable pub wrong_password_guard : Time → Bool → Action ⊤
unfolding register_failed_attempt
wrong_password_guard now true s = (ok tt, s)
wrong_password_guard now false s =
    (err invalid_password, set_wallet (register_failed_attempt now) s)

-- The text that `change_wallet_password` sends, in lower case.
abbrev pub change_text : Text
change_text = codes "your wallet password was changed."

-- `change_wallet_password`; `salt` is what `secrets.token_hex` returns. The notice is sent on commit,
-- after the atomic part, and `notify` raises on a forbidden text.
unfoldable pub change_wallet_password : Platform → Time → Digest → Text → Text → Action ⊤
unfolding wrong_password_guard
change_wallet_password pf now salt old new = do
  atomic (do
    w ← gets (λ s. s.wallet)
    raise_if (not (is_activated w.state)) not_transactable
    wrong_password_guard now (check_hash pf old w.password_hash)
    login ← gets (λ s. s.user.login_password_hash)
    raise_if (is_some (validate_wallet_password pf new login)) password_policy
    modify (set_wallet (store_password pf new salt)))
  raise_if (is_forbidden change_text) value_error
  modify (notify unusual_activity)

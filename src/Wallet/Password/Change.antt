-- ===== src/Wallet/Password/Change.antt =====
-- The password policy and `change_wallet_password`.
use irg_gdp.Base.{
  ◌≤◌, ◌≡◌, ◌↔◌, refl, true, false, ◌||◌, Option, none, List, [], ◌∷◌, arith, length,
}
use irg_gdp.Base.Text.{Text}
use irg_gdp.Wallet.Model.{Account, activated, Time, Digest}
use irg_gdp.Wallet.Monad.{value_error, ok, err, invalid_password}
use irg_gdp.Wallet.Policy.{
  is_forbidden, Platform, check_hash, is_complex, is_passphrase, validate_wallet_password,
  wallet_password_min_len,
}
use irg_gdp.Wallet.Password.{change_text, change_wallet_password, verify_wallet_password}

-- A password passes exactly when it has eight characters, is complex or a passphrase, and is not
-- the login password.
pub validate-none_iff :
    (pf : Platform) (p : Text) (login : Option Digest)
    → (validate_wallet_password pf p login ≡ none) ↔ (
        (wallet_password_min_len ≤ length p)
        × ((is_complex pf p || is_passphrase pf p) ≡ true)
        × (check_hash pf p login ≡ false))
unfolding validate_wallet_password
validate-none_iff pf p login = (λ h. ground arith, λ h. ground arith)

-- A change that raises has written nothing, so a wrong password is not counted.
pub change_fails_unchanged :
    (pf : Platform) (now : Time) (salt : Digest) (old new : Text) (s : Account)
    → s.wallet.state ≡ activated
    → check_hash pf old s.wallet.password_hash ≡ false
    → change_wallet_password pf now salt old new s ≡ (err invalid_password, s)
unfolding change_wallet_password
change_fails_unchanged pf now salt old new s act wrong = ground arith

pub record Change : Type 0 where
  pub now : Time
  pub salt : Digest
  pub old : Text
  pub new : Text

unfoldable pub change_all : Platform → List Change → Account → Account
change_all pf [] s = s
change_all pf (c ∷ cs) s = change_all pf cs (change_wallet_password pf c.now c.salt c.old c.new s).1

abbrev pub AllGuesses : Platform → Option Digest → List Change → Type 0
AllGuesses pf h [] = Unit
AllGuesses pf h (c ∷ cs) = (check_hash pf c.old h ≡ false) × AllGuesses pf h cs

-- However many wrong old passwords are tried on an activated wallet through the password change,
-- nothing of the account changes: no failure is counted, and the wallet is never locked.
pub guesses_never_lock :
    (pf : Platform) (cs : List Change) (s : Account)
    → s.wallet.state ≡ activated
    → AllGuesses pf s.wallet.password_hash cs
    → change_all pf cs s ≡ s
unfolding change_all
guesses_never_lock pf [] s act wrong = refl
guesses_never_lock pf (c ∷ cs) s act wrong =
    rw (change_fails_unchanged pf c.now c.salt c.old c.new s act wrong.0)
      (guesses_never_lock pf cs s act wrong.1)

change_text-is_forbidden : is_forbidden change_text ≡ true
unfolding is_forbidden
change_text-is_forbidden = refl

-- A change on an activated wallet with the right old password and a new one that the policy allows
-- is committed and then answered with a ValueError: the wallet stays activated with no failure and
-- no lock, the new password verifies, and no notice is sent, since its text is forbidden.
pub change_commits :
    (pf : Platform) (now : Time) (salt : Digest) (old new : Text) (s : Account)
    → s.wallet.state ≡ activated
    → check_hash pf old s.wallet.password_hash ≡ true
    → validate_wallet_password pf new s.user.login_password_hash ≡ none
    → let (r, t) = change_wallet_password pf now salt old new s in
      (r ≡ err value_error)
      × (t.wallet.state ≡ activated)
      × (t.wallet.failed_password_attempts ≡ 0)
      × (t.wallet.locked_until ≡ none)
      × (t.outbox ≡ s.outbox)
      × ((verify_wallet_password pf now new t).0 ≡ ok true)
unfolding change_wallet_password verify_wallet_password
change_commits pf now salt old new s act right allowed =
    ground (arith, pf.check_password-make_password new salt, change_text-is_forbidden)

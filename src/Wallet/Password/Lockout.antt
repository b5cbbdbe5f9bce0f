-- ===== src/Wallet/Password/Lockout.antt =====
-- `verify_wallet_password` over runs of wrong passwords: the count, the lock and its end.
use irg_gdp.Base.{suc, ◌+◌, ◌≤◌, ◌<◌, ◌≡◌, true, false, some, List, [], ◌∷◌, arith, length, ap, ◌∙◌}
use irg_gdp.Base.Text.{Text}
use irg_gdp.Wallet.Model.{Account, Wallet, activated, locked, Time, Digest, is_transactable}
use irg_gdp.Wallet.Monad.{ok, err, wallet_locked, set_wallet}
use irg_gdp.Wallet.Policy.{Platform, lock_duration, max_failed_password_attempts}
use irg_gdp.Wallet.Password.{
  register_failed_attempt, is_locked, verify_unlocked, verify_wallet_password, unlock,
}

-- One attempt: when it is made, and with what password.
abbrev pub Attempt : Type 0
Attempt = Time × Text

-- Attempts one after the other, whatever each returns or raises.
unfoldable pub attempt_all : Platform → List Attempt → Account → Account
attempt_all pf [] s = s
attempt_all pf ((now, p) ∷ ps) s = attempt_all pf ps (verify_wallet_password pf now p s).1

abbrev pub AllWrong : Platform → Digest → List Attempt → Type 0
AllWrong pf h [] = Unit
AllWrong pf h ((now, p) ∷ ps) = (pf.check_password p h ≡ false) × AllWrong pf h ps

pub verify_wrong :
    (pf : Platform) (now : Time) (p : Text) (h : Digest) (s : Account)
    → is_locked s.wallet.state ≡ false
    → s.wallet.password_hash ≡ some h
    → pf.check_password p h ≡ false
    → verify_wallet_password pf now p s ≡ (ok false, set_wallet (register_failed_attempt now) s)
unfolding verify_wallet_password verify_unlocked
verify_wrong pf now p h s free has wrong = ground arith

pub verify_right :
    (pf : Platform) (now : Time) (p : Text) (h : Digest) (s : Account)
    → is_locked s.wallet.state ≡ false
    → s.wallet.password_hash ≡ some h
    → pf.check_password p h ≡ true
    → verify_wallet_password pf now p s
      ≡ (ok true, set_wallet (λ w. record w { failed_password_attempts = 0 }) s)
unfolding verify_wallet_password verify_unlocked
verify_right pf now p h s free has right = ground arith

register_below :
    (now : Time) (w : Wallet)
    → suc w.failed_password_attempts < max_failed_password_attempts
    → register_failed_attempt now w
      ≡ record w { failed_password_attempts = w.failed_password_attempts + 1 }
unfolding register_failed_attempt
register_below now w h = ground arith

-- Fewer than ten wrong passwords in all are counted one by one, and the wallet stays as it is
-- otherwise.
attempt_all_below :
    (pf : Platform) (h : Digest) (ps : List Attempt) (s : Account)
    → is_locked s.wallet.state ≡ false
    → s.wallet.password_hash ≡ some h
    → AllWrong pf h ps
    → s.wallet.failed_password_attempts + length ps < max_failed_password_attempts
    → attempt_all pf ps s
      ≡ set_wallet
          (λ w. record w { failed_password_attempts = w.failed_password_attempts + length ps })
          s
unfolding attempt_all
attempt_all_below pf h [] s free has wrong few = ground arith
attempt_all_below pf h ((now, p) ∷ ps) s free has wrong few =
    rw (verify_wrong pf now p h s free has wrong.0, register_below now s.wallet (omega arith))
      (ground (
        arith,
        attempt_all_below pf h ps
            (set_wallet
              (λ w. record w { failed_password_attempts = w.failed_password_attempts + 1 }) s)
            free has wrong.1 (omega arith),
      ))

-- From a wallet that is not locked, whose failures and the wrong passwords of a list make nine, the
-- list leaves the state as it is and counts nine failures; one wrong password more is answered with
-- false and locks the wallet for 24 hours from then, with ten failures counted.
pub tenth_failure_locks :
    (pf : Platform) (h : Digest) (ps : List Attempt) (now : Time) (p : Text) (s : Account)
    → is_locked s.wallet.state ≡ false
    → s.wallet.password_hash ≡ some h
    → AllWrong pf h ps
    → pf.check_password p h ≡ false
    → s.wallet.failed_password_attempts + length ps ≡ 9
    → let t = attempt_all pf ps s in
      (t ≡ set_wallet (λ w. record w { failed_password_attempts = 9 }) s)
      × (verify_wallet_password pf now p t ≡ (
        ok false,
        set_wallet
            (λ w. record w {
              failed_password_attempts = 10;
              state = locked;
              locked_until = some (now + lock_duration);
            })
            s,
      ))
unfolding register_failed_attempt
tenth_failure_locks pf h ps now p s free has wrong last nine =
    let nearly : attempt_all pf ps s
        ≡ set_wallet (λ w. record w { failed_password_attempts = 9 }) s =
      attempt_all_below pf h ps s free has wrong (omega arith)
      ∙ ap (λ k. set_wallet (λ w. record w { failed_password_attempts = k }) s) nine in
    (
      nearly,
      rw nearly (
          verify_wrong pf now p h (set_wallet (λ w. record w { failed_password_attempts = 9 }) s)
            free has last),
    )

-- While a lock lasts every password is refused, the right one too, and nothing is written.
pub locked_refuses :
    (pf : Platform) (now until : Time) (p : Text) (s : Account)
    → s.wallet.state ≡ locked
    → s.wallet.locked_until ≡ some until
    → now < until
    → verify_wallet_password pf now p s ≡ (err wallet_locked, s)
unfolding verify_wallet_password
locked_refuses pf now until p s l u early = ground arith

-- Once the lock has run out, the right password is accepted and the wallet is activated again, with
-- no failure counted and no lock; it can transact at once.
pub lock_expires :
    (pf : Platform) (now until : Time) (p : Text) (h : Digest) (s : Account)
    → s.wallet.state ≡ locked
    → s.wallet.locked_until ≡ some until
    → until ≤ now
    → s.wallet.password_hash ≡ some h
    → pf.check_password p h ≡ true
    → let (r, t) = verify_wallet_password pf now p s in
      (r ≡ ok true)
      × (t ≡ set_wallet unlock s)
      × (t.wallet.state ≡ activated)
      × (is_transactable t.wallet now ≡ true)
unfolding verify_wallet_password verify_unlocked unlock is_transactable
lock_expires pf now until p h s l u late has right = ground arith

-- On a wallet with a password, nine failures counted and any state but locked, a wrong password
-- and, 24 hours later, the right one leave an activated wallet that can transact: a suspended
-- wallet, or one in recovery, in transfer or recovered, is active again.
pub lock_forgets_state :
    (pf : Platform) (now : Time) (wrong right : Text) (h : Digest) (s : Account)
    → is_locked s.wallet.state ≡ false
    → s.wallet.password_hash ≡ some h
    → s.wallet.failed_password_attempts ≡ 9
    → pf.check_password wrong h ≡ false
    → pf.check_password right h ≡ true
    → let t = (verify_wallet_password pf now wrong s).1 in
      let u = (verify_wallet_password pf (now + lock_duration) right t).1 in
      (u.wallet.state ≡ activated) × (is_transactable u.wallet (now + lock_duration) ≡ true)
unfolding verify_wallet_password verify_unlocked unlock register_failed_attempt is_transactable
lock_forgets_state pf now wrong right h s free has nine no_match match = ground arith

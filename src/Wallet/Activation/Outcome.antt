-- ===== src/Wallet/Activation/Outcome.antt =====
-- What a successful activation has checked and written.
use irg_gdp.Base.{ℕ, ◌≤◌, ◌≡◌, refl, ◌⊎◌, true, none, some, List, [], ◌∷◌, ◌++◌, arith, length, sym}
use mathlib.Core.Path.{subst}
use irg_gdp.Base.Int.{eq_of_parts}
use irg_gdp.Wallet.Model.{
  Account, Wallet, Nominee, Device, active, created, activated, locked, recovering,
  ownership_transfer, individual, Digest, Time,
}
use irg_gdp.Wallet.Monad.{ok, err, WalletError}
use irg_gdp.Wallet.Policy.{
  Platform, hash_seed_phrase, clean_words, seed_phrase_word_count, validate_wallet_password,
}
use irg_gdp.Wallet.Nominees.{
  all_positive, total_or_zero, full_share, new_nominees, register_nominees,
}
use irg_gdp.Wallet.Nominees.Replacement.{AreRowsOf, new_nominees-AreRowsOf}
use irg_gdp.Wallet.Activation.{
  Activation, WalletInfo, may_activate, check_holder, check_activation_nominees, check_activation,
  activation_device, activated_wallet, tell_nominees, activate_wallet,
}

tell_nominees_keeps :
    (ns : List Nominee) (s : Account)
    → ((tell_nominees ns s).wallet ≡ s.wallet)
      × ((tell_nominees ns s).nominees ≡ s.nominees)
      × ((tell_nominees ns s).devices ≡ s.devices)
unfolding tell_nominees
tell_nominees_keeps [] s = (refl, refl, refl)
tell_nominees_keeps (n ∷ ns) s = tell_nominees_keeps ns _

check_nominees_keeps :
    (a : Activation) (s : Account) → (check_activation_nominees a.holder_type a.nominees s).1 ≡ s
unfolding check_activation_nominees
check_nominees_keeps a s = ground arith

pub check_holder_keeps :
    (a : Activation) (s : Account)
    → (check_holder a.holder_type a.legal_entity_name a.entity_type s).1 ≡ s
unfolding check_holder
check_holder_keeps a s = ground arith

-- The checks write nothing.
pub check_activation_keeps :
    (pf : Platform) (a : Activation) (s : Account) → (check_activation pf a s).1 ≡ s
unfolding check_activation may_activate
check_activation_keeps pf a s = ground (arith, check_nominees_keeps a s, check_holder_keeps a s)

-- The checks that passed, and the rows that were written.
pub written :
    (pf : Platform) (id : ℕ) (now : Time) (salt : Digest) (a : Activation) (s : Account)
    → (info : WalletInfo) → (activate_wallet pf id now salt a s).0 ≡ ok info
    → let t = (activate_wallet pf id now salt a s).1 in
      ((check_activation pf a s).0 ≡ ok tt)
      × (t.wallet ≡ activated_wallet pf now salt a s.wallet)
      × (t.nominees ≡ s.nominees ++ new_nominees pf a.nominees)
      × (t.devices ≡ s.devices ++ (activation_device id now a ∷ []))
unfolding activate_wallet register_nominees
written pf id now salt a s info h =
    grind (arith, check_activation_keeps pf a s, tell_nominees_keeps)

checked :
    (pf : Platform) (a : Activation) (s : Account)
    → (check_activation pf a s).0 ≡ ok tt
    → (a.terms_accepted ≡ true)
      × ((s.wallet.state ≡ created)
          ⊎ (s.wallet.state ≡ locked)
          ⊎ (s.wallet.state ≡ recovering)
          ⊎ (s.wallet.state ≡ ownership_transfer))
      × (validate_wallet_password pf a.wallet_password s.user.login_password_hash ≡ none)
      × (length (clean_words pf a.seed_phrase_words) ≡ seed_phrase_word_count)
unfolding check_activation may_activate
checked pf a s h = ground arith

pub individual_checked :
    (pf : Platform) (a : Activation) (s : Account)
    → a.holder_type ≡ some individual
    → (check_activation pf a s).0 ≡ ok tt
    → (2 ≤ length a.nominees)
      × (all_positive a.nominees ≡ true)
      × (total_or_zero a.nominees ≡ full_share)
unfolding check_activation may_activate check_holder check_activation_nominees
individual_checked pf a s e h = ground (arith, eq_of_parts (total_or_zero a.nominees) full_share)

-- The wallet of an activation: activated, with the password and the words given, no failure and no
-- lock, active now, and with the address it had.
abbrev pub IsActivatedBy : Platform → Time → Digest → Activation → Wallet → Wallet → Type 0
IsActivatedBy pf now salt a w v =
    (v.state ≡ activated)
    × (v.password_hash ≡ some (pf.make_password a.wallet_password salt))
    × (v.seed_phrase_hash ≡ some (hash_seed_phrase pf (clean_words pf a.seed_phrase_words)))
    × (v.seed_phrase_confirmed ≡ true)
    × (v.activated_at ≡ some now)
    × (v.last_activity_at ≡ some now)
    × (v.failed_password_attempts ≡ 0)
    × (v.locked_until ≡ none)
    × (v.address ≡ w.address)

-- The device of an activation: active at once, without a cooling-off.
abbrev pub IsFirstDevice : ℕ → Time → Activation → Device → Type 0
IsFirstDevice id now a d =
    (d.id ≡ id)
    × (d.device_id_hash ≡ a.device_id_hash)
    × (d.state ≡ active)
    × (d.cooling_off_until ≡ none)
    × (d.activated_at ≡ some now)
    × (d.retired_at ≡ none)

activated_wallet-IsActivatedBy :
    (pf : Platform) (now : Time) (salt : Digest) (a : Activation) (w : Wallet)
    → IsActivatedBy pf now salt a w (activated_wallet pf now salt a w)
unfolding activated_wallet
activated_wallet-IsActivatedBy pf now salt a w =
    (refl, refl, refl, refl, refl, refl, refl, refl, refl)

activation_device-IsFirstDevice :
    (id : ℕ) (now : Time) (a : Activation) → IsFirstDevice id now a (activation_device id now a)
unfolding activation_device
activation_device-IsFirstDevice id now a = (refl, refl, refl, refl, refl, refl)

-- An activation that returns had the terms accepted, a wallet that was created, locked, in recovery
-- or in transfer, a password that the policy allows and fifteen words; it leaves the wallet
-- activated with that password and these words, no failure and no lock, and adds a row for each given
-- nominee and one active device without a cooling-off.
pub activate_ok :
    (pf : Platform) (id : ℕ) (now : Time) (salt : Digest) (a : Activation) (s : Account)
    (info : WalletInfo)
    → (activate_wallet pf id now salt a s).0 ≡ ok info
    → let t = (activate_wallet pf id now salt a s).1 in
      (a.terms_accepted ≡ true)
      × ((s.wallet.state ≡ created)
          ⊎ (s.wallet.state ≡ locked)
          ⊎ (s.wallet.state ≡ recovering)
          ⊎ (s.wallet.state ≡ ownership_transfer))
      × (validate_wallet_password pf a.wallet_password s.user.login_password_hash ≡ none)
      × (length (clean_words pf a.seed_phrase_words) ≡ 15)
      × IsActivatedBy pf now salt a s.wallet t.wallet
      × ((rows : List Nominee) × (t.nominees ≡ s.nominees ++ rows) × AreRowsOf pf a.nominees rows)
      × ((d : Device) × (t.devices ≡ s.devices ++ (d ∷ [])) × IsFirstDevice id now a d)
activate_ok pf id now salt a s info h =
    let (passes, wallet, nominees, devices) = written pf id now salt a s info h in
    let (terms, before, policy, words) = checked pf a s passes in
    (
      terms,
      before,
      policy,
      words,
      subst (IsActivatedBy pf now salt a s.wallet) (sym wallet)
          (activated_wallet-IsActivatedBy pf now salt a s.wallet),
      (new_nominees pf a.nominees, nominees, new_nominees-AreRowsOf pf a.nominees),
      (activation_device id now a, devices, activation_device-IsFirstDevice id now a),
    )

-- An activation that raises leaves the account as it was.
pub activate_fails_unchanged :
    (pf : Platform) (id : ℕ) (now : Time) (salt : Digest) (a : Activation) (s : Account)
    (e : WalletError)
    → (activate_wallet pf id now salt a s).0 ≡ err e
    → (activate_wallet pf id now salt a s).1 ≡ s
unfolding activate_wallet
activate_fails_unchanged pf id now salt a s e h = ground arith

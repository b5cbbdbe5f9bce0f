-- ===== src/Wallet/Activation/Passage.antt =====
-- When the guard passes an account that was activated, and what an activation of a paused wallet does.
use irg_gdp.Base.{
  ℕ, ◌≤◌, ◌≡◌, refl, ◌⊎◌, Bool, true, none, some, List, [], ◌∷◌, ◌++◌, arith, length, filter, ap,
  ◌∙◌, sym, filter-append, length-append, inl, inr,
}
use mathlib.Core.Path.{subst}
use irg_gdp.Base.Int.{pos, ◌+ℤ◌}
use irg_gdp.Wallet.Model.{
  Account, Device, WalletState, created, activated, locked, recovering, ownership_transfer,
  individual, Digest, Time,
}
use irg_gdp.Wallet.Monad.{ok, set_wallet}
use irg_gdp.Wallet.Policy.{Platform}
use irg_gdp.Wallet.Nominees.{
  full_share, share_total, is_active_nominee, active_nominees, new_nominees, register_nominees,
}
use irg_gdp.Wallet.Nominees.Replacement.{
  AreKept, filter-new_nominees, length-new_nominees, share_total-new_nominees, share_total-append,
}
use irg_gdp.Wallet.Guard.{passed, nominee_shares_invalid, check_account}
use irg_gdp.Wallet.Guard.Decision.{
  check_account_iff, IsOver, HasReadyDevice, required, shares_refused,
}
use irg_gdp.Wallet.Activation.{
  Activation, WalletInfo, may_activate, check_holder, check_activation_nominees, check_activation,
  activation_device, activated_wallet, activate_wallet,
}
use irg_gdp.Wallet.Activation.Outcome.{
  check_holder_keeps, check_activation_keeps, written, individual_checked,
}

ready_appended :
    (now at : Time) (id : ℕ) (a : Activation) (ds : List Device)
    → HasReadyDevice now (ds ++ (activation_device id at a ∷ []))
unfolding activation_device
ready_appended now at id a [] = inl (refl, tt)
ready_appended now at id a (d ∷ ds) = inr (ready_appended now at id a ds)

-- The nominees and devices of an activated individual.
activated_individual :
    (pf : Platform) (id : ℕ) (now : Time) (salt : Digest) (a : Activation) (s : Account)
    (info : WalletInfo)
    → AreKept pf a.nominees
    → a.holder_type ≡ some individual
    → (activate_wallet pf id now salt a s).0 ≡ ok info
    → let t = (activate_wallet pf id now salt a s).1 in
      (t.wallet.state ≡ activated)
      × (t.wallet.locked_until ≡ none)
      × (active_nominees t ≡ active_nominees s ++ new_nominees pf a.nominees)
      × (2 ≤ length (new_nominees pf a.nominees))
      × (share_total (new_nominees pf a.nominees) ≡ full_share)
      × ((at : Time) → HasReadyDevice at t.devices)
unfolding activated_wallet
activated_individual pf id now salt a s info kept e h =
    let (passes, wallet, nominees, devices) = written pf id now salt a s info h in
    let (two, positive, total) = individual_checked pf a s e passes in
    (
      ap (λ w. w.state) wallet,
      ap (λ w. w.locked_until) wallet,
      ap (filter is_active_nominee) nominees
          ∙ (filter-append is_active_nominee s.nominees (new_nominees pf a.nominees)
              ∙ ap (λ ns. active_nominees s ++ ns) (filter-new_nominees pf a.nominees)),
      omega (arith, length-new_nominees pf a.nominees),
      share_total-new_nominees pf a.nominees kept ∙ total,
      λ at. subst (HasReadyDevice at) (sym devices) (ready_appended at now id a s.devices),
    )

-- Let the column of the shares keep each given share. After an activation that returns, of an individual without active nominees before it, the guard
-- passes at every later time on the account that the activation leaves, whichever of its checks
-- are asked for.
pub activated_individual_passes :
    (pf : Platform) (id : ℕ) (now : Time) (salt : Digest) (a : Activation) (s : Account)
    (info : WalletInfo) (rn rd : Bool) (at : Time)
    → AreKept pf a.nominees
    → a.holder_type ≡ some individual
    → active_nominees s ≡ []
    → (activate_wallet pf id now salt a s).0 ≡ ok info
    → check_account rn rd at (activate_wallet pf id now salt a s).1 ≡ passed
activated_individual_passes pf id now salt a s info rn rd at kept e fresh h =
    let (act, unlocked, actives, two, total, ready) =
      activated_individual pf id now salt a s info kept e h in
    let t = (activate_wallet pf id now salt a s).1 in
    let same : active_nominees t ≡ new_nominees pf a.nominees =
      actives ∙ ap (λ ns. ns ++ new_nominees pf a.nominees) fresh in
    (check_account_iff rn rd at t).1 (
      act,
      subst (λ o. IsOver o at) (sym unlocked) tt,
      required rn
          (subst (λ ns. (2 ≤ length ns) × (share_total ns ≡ full_share)) (sym same) (two, total)),
      required rd (ready at),
    )

twice_full : full_share +ℤ full_share ≡ pos 200000000000000
unfolding ◌+ℤ◌
twice_full = refl

-- Nominees that were recorded before the activation stay active beside the new ones: if their shares
-- made 100 %, the guard refuses the activated individual for shares that do not add up.
pub activation_doubles_shares :
    (pf : Platform) (id : ℕ) (now : Time) (salt : Digest) (a : Activation) (s : Account)
    (info : WalletInfo) (rd : Bool) (at : Time)
    → AreKept pf a.nominees
    → a.holder_type ≡ some individual
    → share_total (active_nominees s) ≡ full_share
    → (activate_wallet pf id now salt a s).0 ≡ ok info
    → check_account true rd at (activate_wallet pf id now salt a s).1 ≡ nominee_shares_invalid
activation_doubles_shares pf id now salt a s info rd at kept e full h =
    let (act, unlocked, actives, two, total, ready) =
      activated_individual pf id now salt a s info kept e h in
    let t = (activate_wallet pf id now salt a s).1 in
    let old = active_nominees s in
    let new = new_nominees pf a.nominees in
    shares_refused rd at t act unlocked
      (subst (λ ns. 2 ≤ length ns) (sym actives) (omega (arith, length-append old new, two)))
      (ap share_total actives ∙ (share_total-append old new ∙ rw (full, total) twice_full))

abbrev pub in_state : WalletState → Account → Account
in_state st = set_wallet (λ w. record w { state = st })

holder_anywhere :
    (a : Activation) (s t : Account)
    → (check_holder a.holder_type a.legal_entity_name a.entity_type s).0
      ≡ (check_holder a.holder_type a.legal_entity_name a.entity_type t).0
unfolding check_holder
holder_anywhere a s t = ground arith

nominees_anywhere :
    (a : Activation) (s t : Account)
    → (check_activation_nominees a.holder_type a.nominees s).0
      ≡ (check_activation_nominees a.holder_type a.nominees t).0
unfolding check_activation_nominees
nominees_anywhere a s t = ground arith

paused_checked :
    (pf : Platform) (a : Activation) (s : Account) (st : WalletState)
    → (st ≡ locked) ⊎ (st ≡ recovering) ⊎ (st ≡ ownership_transfer)
    → (check_activation pf a (in_state created s)).0 ≡ ok tt
    → (check_activation pf a (in_state st s)).0 ≡ ok tt
unfolding check_activation may_activate
paused_checked pf a s st paused h =
    let t = in_state st s in
    let u = in_state created s in
    ground (
      arith,
      holder_anywhere a t u,
      nominees_anywhere a t u,
      check_holder_keeps a t,
      check_holder_keeps a u,
    )

created_checked :
    (pf : Platform) (id : ℕ) (now : Time) (salt : Digest) (a : Activation) (s : Account)
    (info : WalletInfo)
    → (activate_wallet pf id now salt a s).0 ≡ ok info
    → (check_activation pf a s).0 ≡ ok tt
created_checked pf id now salt a s info h = (written pf id now salt a s info h).0

-- If an activation returns on the account with its wallet created, it returns the same and leaves
-- the same account with the wallet locked, in recovery or in transfer instead: the pause ends,
-- with the new password and seed, and the old password is not asked for.
pub paused_activates :
    (pf : Platform) (id : ℕ) (now : Time) (salt : Digest) (a : Activation) (s : Account)
    (st : WalletState) (info : WalletInfo)
    → (st ≡ locked) ⊎ (st ≡ recovering) ⊎ (st ≡ ownership_transfer)
    → (activate_wallet pf id now salt a (in_state created s)).0 ≡ ok info
    → activate_wallet pf id now salt a (in_state st s)
      ≡ activate_wallet pf id now salt a (in_state created s)
unfolding activate_wallet register_nominees activated_wallet
paused_activates pf id now salt a s st info paused h =
    let t = in_state st s in
    let u = in_state created s in
    let passes = created_checked pf id now salt a u info h in
    let passes' = paused_checked pf a s st paused passes in
    ground (arith, passes, passes', check_activation_keeps pf a t, check_activation_keeps pf a u)

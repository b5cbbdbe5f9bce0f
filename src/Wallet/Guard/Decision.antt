-- ===== src/Wallet/Guard/Decision.antt =====
-- When the guard lets a transaction through, in terms of the account alone.
use irg_gdp.Base.{
  ◌≤◌, ◌≡◌, refl, ◌↔◌, ◌⊎◌, Bool, true, false, Option, none, some, List, [], ◌∷◌, arith, length,
  is_nonempty, inl, inr,
}
use mathlib.Core.Path.{subst}
use irg_gdp.Base.Int.{pos, eq_of_parts}
use irg_gdp.Wallet.Model.{Account, Device, WalletState, activated, active, Time, is_transactable}
use irg_gdp.Wallet.Nominees.{active_nominees, share_total, full_share}
use irg_gdp.Wallet.Guard.{
  GuardCode, passed, nominee_shares_invalid, ready_devices, check_nominees, check_devices,
  check_account, wallet_check, served, require_transactable, answer,
}

-- A lock, if there is one, is over.
abbrev pub IsOver : Option Time → Time → Type 0
IsOver none now = Unit
IsOver (some t) now = t ≤ now

abbrev pub IsReady : Time → Device → Type 0
IsReady now d = (d.state ≡ active) × IsOver d.cooling_off_until now

abbrev pub HasReadyDevice : Time → List Device → Type 0
HasReadyDevice now [] = ⊥
HasReadyDevice now (d ∷ ds) = IsReady now d ⊎ HasReadyDevice now ds

abbrev pub HasNominees : Account → Type 0
HasNominees s = (2 ≤ length (active_nominees s)) × (share_total (active_nominees s) ≡ full_share)

abbrev pub Required : Bool → Type 0 → Type 0
Required false P = Unit
Required true P = P

abbrev pub MayTransact : Bool → Bool → Time → Account → Type 0
MayTransact rn rd now s =
    (s.wallet.state ≡ activated)
    × IsOver s.wallet.locked_until now
    × Required rn (HasNominees s)
    × Required rd (HasReadyDevice now s.devices)

ready_sound :
    (now : Time) (ds : List Device)
    → is_nonempty (ready_devices now ds) ≡ true
    → HasReadyDevice now ds
unfolding ready_devices
ready_sound now [] h = ground arith
ready_sound now (d ∷ ds) h = ground (arith, ready_sound now ds)

ready_complete :
    (now : Time) (ds : List Device)
    → HasReadyDevice now ds
    → is_nonempty (ready_devices now ds) ≡ true
unfolding ready_devices
ready_complete now [] h = absurd h
ready_complete now (d ∷ ds) (inl h) = ground arith
ready_complete now (d ∷ ds) (inr h) = ground (arith, ready_complete now ds h)

check_devices-passed_iff :
    (now : Time) (s : Account) → (check_devices now s ≡ passed) ↔ HasReadyDevice now s.devices
unfolding check_devices
check_devices-passed_iff now s =
    (λ h. ready_sound now s.devices (ground arith), λ h. rw (ready_complete now s.devices h))

check_nominees-passed_iff : (s : Account) → (check_nominees s ≡ passed) ↔ HasNominees s
unfolding check_nominees
check_nominees-passed_iff s = (
  λ h. ground (arith, eq_of_parts (share_total (active_nominees s)) full_share),
  λ h. ground arith,
)

is_transactable_iff :
    (s : Account) (now : Time)
    → (is_transactable s.wallet now ≡ true)
      ↔ ((s.wallet.state ≡ activated) × IsOver s.wallet.locked_until now)
unfolding is_transactable
is_transactable_iff s now = (λ h. ground arith, λ h. ground arith)

-- What `check_account` says, with its three parts shut.
check_account_parts :
    (rn rd : Bool) (now : Time) (s : Account)
    → (check_account rn rd now s ≡ passed) ↔ (
        (is_transactable s.wallet now ≡ true)
        × Required rn (check_nominees s ≡ passed)
        × Required rd (check_devices now s ≡ passed))
unfolding check_account
check_account_parts false false now s = (λ h. ground arith, λ h. ground arith)
check_account_parts false true now s = (λ h. ground arith, λ h. ground arith)
check_account_parts true false now s = (λ h. ground arith, λ h. ground arith)
check_account_parts true true now s = (λ h. ground arith, λ h. ground arith)

required_map : {P Q : Type 0} (b : Bool) → (P → Q) → Required b P → Required b Q
required_map false f h = tt
required_map true f h = f h

pub required : {P : Type 0} (b : Bool) → P → Required b P
required false p = tt
required true p = p

-- The guard lets an account through exactly when its wallet is activated, no lock is running, and,
-- as far as they are asked for, it has two or more active nominees whose shares make 100 % and an
-- active device whose cooling-off period is over.
pub check_account_iff :
    (rn rd : Bool) (now : Time) (s : Account)
    → (check_account rn rd now s ≡ passed) ↔ MayTransact rn rd now s
check_account_iff rn rd now s = (
  λ h.
      let (free, nominees, devices) = (check_account_parts rn rd now s).0 h in
      let (act, over) = (is_transactable_iff s now).0 free in
      (
        act,
        over,
        required_map rn (check_nominees-passed_iff s).0 nominees,
        required_map rd (check_devices-passed_iff now s).0 devices,
      ),
  λ h. (check_account_parts rn rd now s).1 (
    (is_transactable_iff s now).1 (h.0, h.1),
    required_map rn (check_nominees-passed_iff s).1 h.2,
    required_map rd (check_devices-passed_iff now s).1 h.3,
  ),
)

answer-served :
    {A : Type 0} (c : GuardCode) (st : Option WalletState) (a : A)
    → answer c st a ≡ served a
    → c ≡ passed
answer-served passed st a h = refl
answer-served _ st a h = cc

-- A view behind `require_transactable` is run exactly for a user who is signed in and has a wallet
-- that may transact.
pub served_iff :
    {A : Type 0} (rn rd : Bool) (now : Time) (signed_in : Bool) (user : Option Account) (view : A)
    → (require_transactable rn rd now signed_in user view ≡ served view)
      ↔ ((signed_in ≡ true) × ((s : Account) × (user ≡ some s) × MayTransact rn rd now s))
unfolding require_transactable wallet_check
served_iff rn rd now false user view = (λ h. cc, λ h. cc (h.0))
served_iff rn rd now true none view = (λ h. cc, λ h. cc (h.1.1))
served_iff rn rd now true (some s) view = (
  λ h. (refl, (s, refl, (check_account_iff rn rd now s).0 (answer-served _ _ view h))),
  λ h.
      let same : h.1.0 ≡ s = cc (h.1.1) in
      rw ((check_account_iff rn rd now s).1 (subst (MayTransact rn rd now) same h.1.2)),
)

-- An activated wallet without a running lock whose two or more active nominees do not make 100 % is
-- refused for that, whether a device is asked for or not.
pub shares_refused :
    (rd : Bool) (now : Time) (s : Account)
    → s.wallet.state ≡ activated
    → s.wallet.locked_until ≡ none
    → 2 ≤ length (active_nominees s)
    → share_total (active_nominees s) ≡ pos 200000000000000
    → check_account true rd now s ≡ nominee_shares_invalid
unfolding check_account check_nominees is_transactable
shares_refused rd now s act free two double = ground arith

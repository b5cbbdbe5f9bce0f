-- ===== src/Wallet/Guard.antt =====
-- backend/wallet_access/guard.py: the check before every transaction.
pub mod Decision
use irg_gdp.Base.{
  ℕ, ◌≡◌, Bool, true, false, ◌&&◌, Option, none, some, List, length, filter, is_nonempty, ltb, leb,
  not, if◌then◌else◌,
}
use irg_gdp.Base.Int.{eqb_ℤ}
use irg_gdp.Wallet.Model.{Account, Device, WalletState, Time, is_transactable, is_active_device}
use irg_gdp.Wallet.Nominees.{active_nominees, share_total, full_share}

-- The codes of a refusal; `wallet_state` is 'wallet_' with the name of the state.
pub data GuardCode : Type 0 where
  passed not_authenticated wallet_missing : GuardCode
  wallet_state : WalletState → GuardCode
  nominees_required nominee_shares_invalid device_not_ready : GuardCode

-- `d.cooling_off_until is None or d.cooling_off_until <= now`
abbrev pub has_cooled_off : Time → Option Time → Bool
has_cooled_off now none = true
has_cooled_off now (some t) = leb t now

-- An ACTIVE device that has cooled off.
abbrev pub is_ready : Time → Device → Bool
is_ready now d = is_active_device d && has_cooled_off now d.cooling_off_until

unfoldable pub ready_devices : Time → List Device → List Device
ready_devices now = filter (is_ready now)

unfoldable pub check_nominees : Account → GuardCode
check_nominees s =
    if ltb (length (active_nominees s)) 2
    then nominees_required
    else if not (eqb_ℤ (share_total (active_nominees s)) full_share)
    then nominee_shares_invalid
    else passed

unfoldable pub check_devices : Time → Account → GuardCode
unfolding ready_devices
check_devices now s = if is_nonempty (ready_devices now s.devices) then passed else device_not_ready

abbrev pub and_then : GuardCode → GuardCode → GuardCode
and_then passed c = c
and_then c d = c

-- `wallet_check` for a user who is signed in and has a wallet.
unfoldable pub check_account : Bool → Bool → Time → Account → GuardCode
check_account require_nominees require_active_device now s =
    if not (is_transactable s.wallet now)
    then wallet_state s.wallet.state
    else and_then (if require_nominees then check_nominees s else passed)
        (if require_active_device then check_devices now s else passed)

-- `wallet_check(user, …)`: whether the user is signed in, and the account, if there is a wallet.
unfoldable pub wallet_check : Bool → Bool → Time → Bool → Option Account → GuardCode
wallet_check require_nominees require_active_device now false user = not_authenticated
wallet_check require_nominees require_active_device now true none = wallet_missing
wallet_check require_nominees require_active_device now true (some s) =
    check_account require_nominees require_active_device now s

abbrev pub state_of : Option Account → Option WalletState
state_of none = none
state_of (some s) = some s.wallet.state

-- A response: HTTP 403 with the code and the state of the wallet, or what the view answers.
pub data Response (A : Type 0) : Type 0 where
  forbidden : GuardCode → Option WalletState → Response A
  served : A → Response A

abbrev pub answer : {A : Type 0} → GuardCode → Option WalletState → A → Response A
answer passed st a = served a
answer c st a = forbidden c st

-- The decorator `require_transactable` around a view. A user who is not signed in or has no wallet
-- leaves `result.wallet` unset.
unfoldable pub require_transactable :
    {A : Type 0} → Bool → Bool → Time → Bool → Option Account → A → Response A
require_transactable rn rd now signed_in user view =
    answer (wallet_check rn rd now signed_in user) (if signed_in then state_of user else none) view

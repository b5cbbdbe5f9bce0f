-- ===== src/Wallet/Devices.antt =====
-- Devices: binding a new one, revoking one, and the emergency freeze of the wallet.
pub mod Binding
use irg_gdp.Base.{
  ℕ, ◌+◌, ◌≡◌, Bool, true, false, ◌||◌, Option, none, some, List, [], ◌∷◌, ◌++◌, take, find?,
  update_where, ◌==◌, is_some, not, if◌then◌else◌,
}
use irg_gdp.Base.Text.{Text}
use irg_gdp.Wallet.Model.{
  Account, Wallet, WalletState, created, activated, suspended, recovered, Device, active, retired,
  revoked, Time, is_active_device, unusual_activity,
}
use irg_gdp.Wallet.Monad.{
  Action, Result, ok, err, access_error, not_transactable, ⊤, pure, raise, gets, atomic, ◌>>=◌,
  ◌>>◌, raise_if, modify, set_wallet, notify,
}
use irg_gdp.Wallet.Policy.{Platform, device_cooling_off}
use irg_gdp.Wallet.Password.{require_password}

pub record DeviceInput : Type 0 where
  pub device_id_hash : Text
  pub device_label : Text
  pub platform : Text

unfoldable pub retire_device : Time → Device → Device
retire_device now d = record d { state = retired; retired_at = some now }

-- `wallet.devices.filter(state='ACTIVE').update(state='RETIRED', …)`
unfoldable pub retire_devices : Time → Account → Account
retire_devices now s = record s {
  devices = update_where is_active_device (retire_device now) s.devices;
}

-- The row of a device that has to cool off; `id` is the primary key that the database gives it.
unfoldable pub cooling_device : ℕ → Time → DeviceInput → Device
cooling_device id now d = record {
  id = id;
  device_id_hash = d.device_id_hash;
  device_label = take 100 d.device_label;
  platform = take 20 d.platform;
  state = active;
  cooling_off_until = some (now + device_cooling_off);
  activated_at = none;
  retired_at = none;
}

-- The two writes that `bind_new_device` and the self-recovery share.
unfoldable pub replace_device : ℕ → Time → DeviceInput → Account → Account
replace_device id now d s =
    let t = retire_devices now s in
    record t { devices = t.devices ++ (cooling_device id now d ∷ []) }

abbrev pub may_bind : WalletState → Bool
may_bind activated = true
may_bind created = true
may_bind _ = false

unfoldable pub bind_new_device : Platform → ℕ → Time → DeviceInput → Text → Action Device
bind_new_device pf id now d p = atomic (do
  st ← gets (λ s. s.wallet.state)
  raise_if (not (may_bind st)) not_transactable
  require_password pf now p
  modify (replace_device id now d)
  modify (notify unusual_activity)
  pure (cooling_device id now d))

abbrev pub has_id : ℕ → Device → Bool
has_id id d = d.id == id

unfoldable pub revoke : Time → Device → Device
revoke now d = record d { state = revoked; retired_at = some now }

-- `revoke_device` is not atomic: a failed password stays counted.
unfoldable pub revoke_device : Platform → Time → ℕ → Text → Action ⊤
revoke_device pf now id p = do
  require_password pf now p
  found ← gets (λ s. find? (has_id id) s.devices)
  raise_if (not (is_some found)) access_error
  modify (λ s. record s { devices = update_where (has_id id) (revoke now) s.devices })

abbrev pub cannot_freeze : WalletState → Bool
cannot_freeze suspended = true
cannot_freeze recovered = true
cannot_freeze _ = false

unfoldable pub emergency_freeze : Account → Account
emergency_freeze s =
    if cannot_freeze s.wallet.state
    then s
    else notify unusual_activity (set_wallet (λ w. record w { state = suspended }) s)

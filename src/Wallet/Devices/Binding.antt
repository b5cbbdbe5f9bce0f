-- ===== src/Wallet/Devices/Binding.antt =====
-- A new device: the only active one, and of no use to a transaction for 48 hours.
use irg_gdp.Base.{
  ℕ, ◌+◌, ◌≡◌, refl, ◌⊎◌, Bool, some, List, [], ◌∷◌, arith, filter, update_where, find?, leb,
  if◌then◌else◌, ◌∙◌, filter-append, filter-update_where_none, Option-cases, inl, inr,
}
use irg_gdp.Base.Text.{Text}
use irg_gdp.Wallet.Model.{
  Account, Device, created, activated, Time, is_active_device, is_transactable,
}
use irg_gdp.Wallet.Monad.{ok}
use irg_gdp.Wallet.Policy.{Platform, device_cooling_off}
use irg_gdp.Wallet.Password.{require_password}
use irg_gdp.Wallet.Guard.{
  passed, device_not_ready, wallet_state, ready_devices, check_devices, check_account,
}
use irg_gdp.Wallet.Devices.{
  DeviceInput, retire_device, retire_devices, cooling_device, replace_device, bind_new_device,
  has_id, revoke, revoke_device, emergency_freeze,
}

-- After a replacement the new device is the only active one.
pub replaced_actives :
    (id : ℕ) (now : Time) (d : DeviceInput) (s : Account)
    → filter is_active_device (replace_device id now d s).devices ≡ cooling_device id now d ∷ []
unfolding replace_device retire_devices retire_device cooling_device
replaced_actives id now d s = rw (
  filter-append is_active_device (update_where is_active_device (retire_device now) s.devices)
      (cooling_device id now d ∷ []),
  filter-update_where_none is_active_device (retire_device now) (λ x. refl) s.devices,
)

ready-filter :
    (at : Time) (ds : List Device)
    → ready_devices at (filter is_active_device ds) ≡ ready_devices at ds
unfolding ready_devices
ready-filter at [] = refl
ready-filter at (d ∷ ds) = ground (arith, ready-filter at ds)

-- The guard's check of devices fails until the new device has cooled off, and passes from then on.
pub replaced_cools :
    (id : ℕ) (now at : Time) (d : DeviceInput) (s : Account)
    → check_devices at (replace_device id now d s)
      ≡ (if leb (now + device_cooling_off) at then passed else device_not_ready)
unfolding check_devices ready_devices cooling_device
replaced_cools id now at d s =
    let t = replace_device id now d s in
    rw (← ready-filter at t.devices, replaced_actives id now d s) (ground arith)

pub check_devices-devices :
    (at : Time) (s t : Account) → s.devices ≡ t.devices → check_devices at s ≡ check_devices at t
unfolding check_devices
check_devices-devices at s t e = rw e

bound :
    (pf : Platform) (id : ℕ) (now : Time) (d : DeviceInput) (p : Text) (s : Account) (new : Device)
    → (bind_new_device pf id now d p s).0 ≡ ok new
    → ((s.wallet.state ≡ activated) ⊎ (s.wallet.state ≡ created))
      × ((require_password pf now p s).0 ≡ ok tt)
      × (new ≡ cooling_device id now d)
      × ((bind_new_device pf id now d p s).1.devices
          ≡ (replace_device id now d (require_password pf now p s).1).devices)
unfolding bind_new_device
bound pf id now d p s new h = ground arith

-- A binding that returns was asked of an activated or a created wallet with the right password; the
-- new device is then the only active one, and the guard's check of devices refuses for 48 hours
-- from the binding and passes from then on.
pub bind_new_device_ok :
    (pf : Platform) (id : ℕ) (now at : Time) (d : DeviceInput) (p : Text) (s : Account)
    (new : Device)
    → (bind_new_device pf id now d p s).0 ≡ ok new
    → let t = (bind_new_device pf id now d p s).1 in
      ((s.wallet.state ≡ activated) ⊎ (s.wallet.state ≡ created))
      × ((require_password pf now p s).0 ≡ ok tt)
      × (new ≡ cooling_device id now d)
      × (filter is_active_device t.devices ≡ new ∷ [])
      × (check_devices at t
          ≡ (if leb (now + device_cooling_off) at then passed else device_not_ready))
bind_new_device_ok pf id now at d p s new h =
    let (who, right, row, devices) = bound pf id now d p s new h in
    let t = (bind_new_device pf id now d p s).1 in
    let u = (require_password pf now p s).1 in
    (
      who,
      right,
      row,
      rw (devices, row) (replaced_actives id now d u),
      check_devices-devices at t (replace_device id now d u) devices ∙ replaced_cools id now at d u,
    )

revoked_found :
    (now : Time) (id : ℕ) (d : Device) (ds : List Device)
    → find? (has_id id) ds ≡ some d
    → find? (has_id id) (update_where (has_id id) (revoke now) ds) ≡ some (revoke now d)
unfolding revoke
revoked_found now id d [] h = cc
revoked_found now id d (x ∷ ds) h = ground (arith, revoked_found now id d ds)

-- A revocation that returns leaves a device with that key, revoked, whatever its state was before.
pub revoke_device_ok :
    (pf : Platform) (now : Time) (id : ℕ) (p : Text) (s : Account)
    → (revoke_device pf now id p s).0 ≡ ok tt
    → (d : Device) × (find? (has_id id) (require_password pf now p s).1.devices ≡ some d)
      × (find? (has_id id) (revoke_device pf now id p s).1.devices ≡ some (revoke now d))
unfolding revoke_device
revoke_device_ok pf now id p s h =
    let t = (require_password pf now p s).1 in
    elim (Option-cases (find? (has_id id) t.devices)) [
      | inl missing ↦ ground arith
      | inr (d, e) ↦ (d, e, ground (arith, revoked_found now id d t.devices))
    ]

-- After a freeze the guard refuses every transaction, at every time and with every choice of checks,
-- and names the state of the wallet.
pub freeze_blocks :
    (rn rd : Bool) (at : Time) (s : Account)
    → check_account rn rd at (emergency_freeze s) ≡ wallet_state (emergency_freeze s).wallet.state
unfolding emergency_freeze check_account is_transactable
freeze_blocks rn rd at s = ground arith

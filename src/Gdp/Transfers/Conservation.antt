-- ===== src/Gdp/Transfers/Conservation.antt =====
-- The gold that each user holds, when units change hands, are earmarked and released.
use irg_gdp.Base.{
  ℕ, ◌+◌, ◌≡◌, refl, true, Option, none, some, arith, find?, sum, sum-save_row, only-some,
  find?-true, if◌then◌else◌, Option-cases, inl, inr, ◌==◌,
}
use irg_gdp.Gdp.Model.{
  TxHash, GdpUnit, TransferType, Gdp, is_active_of, has_unit_id, get_active_unit, save_unit,
}
use irg_gdp.Gdp.Transfers.{
  TransferReply, transferred_as, transfer_refused, copy_for, hand_over, transfer,
}

-- The pure gold of a unit, if it is an active one of the user.
abbrev pub held_unit : ℕ → GdpUnit → ℕ
held_unit user u = if is_active_of user u then u.pure_gold_equivalent else 0

abbrev pub held : ℕ → Gdp → ℕ
held user s = sum (held_unit user) s.units

abbrev pub share_of : ℕ → ℕ → ℕ → ℕ
share_of user owner g = if user == owner then g else 0

pub found_unit :
    (user id : ℕ) (s : Gdp) (u : GdpUnit)
    → get_active_unit user id s ≡ some u
    → (find? (has_unit_id u.id) s.units ≡ some u) × (is_active_of user u ≡ true)
unfolding get_active_unit
found_unit user id s u h =
    let (f, e) = only-some (is_active_of user) (find? (has_unit_id id) s.units) u h in
    let k : u.id ≡ id = ground (arith, find?-true (has_unit_id id) s.units u f) in
    (unit_at u.id id s u k f, e)
  where
    unit_at :
        (k id : ℕ) (s : Gdp) (u : GdpUnit)
        → k ≡ id
        → find? (has_unit_id id) s.units ≡ some u
        → find? (has_unit_id k) s.units ≡ some u
    unit_at k id s u e h = rw e h

-- Saving a unit exchanges what its owner holds of it.
pub held-save :
    (w : ℕ) (y u : GdpUnit) (s : Gdp)
    → find? (has_unit_id y.id) s.units ≡ some u
    → held w (save_unit y s) + held_unit w u ≡ held w s + held_unit w y
held-save w y u s f = sum-save_row (held_unit w) (has_unit_id y.id) y u s.units f

moved :
    (w user r copy now : ℕ) (h : TxHash) (u : GdpUnit) (s : Gdp)
    → find? (has_unit_id u.id) s.units ≡ some u
    → is_active_of user u ≡ true
    → held_unit w (copy_for copy r now h u)
        + held w (save_unit (hand_over r u) s)
        + share_of w user u.pure_gold_equivalent
      ≡ held w s + share_of w r u.pure_gold_equivalent
moved w user r copy now h u s f a =
    let m = held-save w (hand_over r u) u s f in ground (arith, m, a)

-- What a transfer of `user` does to the gold that each user `w` holds.
abbrev pub IsMove : ℕ → Gdp → Gdp → TransferReply → Type 0
IsMove user s t (transfer_refused e) = t ≡ s
IsMove user s t (transferred_as r) =
    (u : GdpUnit) × (find? (has_unit_id r.gdp_unit) s.units ≡ some u)
    × (is_active_of user u ≡ true)
    × ((w : ℕ)
        → held w t + share_of w user u.pure_gold_equivalent
          ≡ held w s + share_of w r.to_user u.pure_gold_equivalent)

-- A transfer that is made moves the pure gold of one active unit of the sender from the sender to
-- the recipient, also if they are one; nobody else's gold changes.
pub transfer-held :
    (id copy user now unit : ℕ) (to : Option ℕ) (k : TransferType) (tx : Option TxHash) (s : Gdp)
    → IsMove user s
        (transfer id copy user now unit to k tx s).1
        (transfer id copy user now unit to k tx s).0
unfolding transfer
transfer-held id copy user now unit none k tx s =
    elim (Option-cases (get_active_unit user unit s)) [
      | inl e ↦ rw (transfer, e) refl
      | inr (u, e) ↦ rw (transfer, e) refl
    ]
transfer-held id copy user now unit (some r) k none s =
    elim (Option-cases (get_active_unit user unit s)) [
      | inl e ↦ rw (transfer, e) refl
      | inr (u, e) ↦ rw (transfer, e) refl
    ]
transfer-held id copy user now unit (some r) k (some h) s =
    elim (Option-cases (get_active_unit user unit s)) [
      | inl e ↦ rw (transfer, e) refl
      | inr (u, e) ↦
          let (f, a) = found_unit user unit s u e in
          rw (transfer, e) (u, f, a, λ w. moved w user r copy now h u s f a)
    ]

-- ===== src/Gdp/Swaps.antt =====
-- SwapViewSet of backend/irg_gdp/views.py: GDP units against FTRs.
pub mod Rows
use irg_gdp.Base.{
  ℕ, ◌+◌, ◌*◌, ◌/◌, Bool, true, false, ◌&&◌, Option, none, some, List, ◌∷◌, map, length, take, any,
  filter, find?, only, update_where, sum, save_row, order_by, ltb, leb, not, ◌==◌, if◌then◌else◌,
}
use irg_gdp.Gdp.Model.{
  TxHash, GdpUnit, swapped, SwapRecord, SwapStatus, swap_initiated, swap_completed, swap_cancelled,
  Gdp, is_active_of, lock_in_new_months,
}

pub data SwapError : Type 0 where
  units_not_active locked_in division_by_zero swap_not_found not_initiated swap_failed : SwapError

pub data SwapReply : Type 0 where
  swap_recorded : SwapRecord → SwapReply
  swap_refused : SwapError → SwapReply

abbrev pub is_in : List ℕ → GdpUnit → Bool
is_in ids u = any (λ i. u.id == i) ids

-- `filter(id__in=unit_ids, owner=request.user, status='ACTIVE')`
unfoldable pub chosen_units : ℕ → List ℕ → List GdpUnit → List GdpUnit
chosen_units user ids us = filter (λ u. is_in ids u && is_active_of user u) us

-- `minted_at > now - lock_months * 30 days`
abbrev pub is_locked_in : ℕ → GdpUnit → Bool
is_locked_in now u = ltb now (u.minted_at + lock_in_new_months * 2592000)

abbrev pub total_units : List GdpUnit → ℕ
total_units us = sum (λ (u : GdpUnit). u.total_units) us

abbrev pub total_value : List GdpUnit → ℕ
total_value us = sum (λ (u : GdpUnit). u.benchmark_value) us

-- 1000 INR if the category has no benchmark.
abbrev pub ftr_rate : Option ℕ → ℕ
ftr_rate none = 100000
ftr_rate (some r) = r

abbrev pub new_swap : ℕ → ℕ → ℕ → ℕ → List GdpUnit → SwapRecord
new_swap id user category rate us = record {
  id = id;
  user = user;
  gdp_units_swapped = total_units us;
  gdp_value_at_swap = total_value us;
  ftr_category = category;
  ftr_units_received = total_value us / rate;
  ftr_benchmark_rate = rate;
  status = swap_initiated;
  swap_tx_hash = none;
  completed_at = none;
}

unfoldable pub initiate : ℕ → ℕ → ℕ → List ℕ → ℕ → Option ℕ → Gdp → SwapReply × Gdp
unfolding chosen_units
initiate id now user ids category benchmark s =
    let us = chosen_units user ids s.units in
    let w = new_swap id user category (ftr_rate benchmark) us in
    if not (length us == length ids)
    then (swap_refused units_not_active, s)
    else if ltb 0 lock_in_new_months && any (is_locked_in now) us
    then (swap_refused locked_in, s)
    else if ftr_rate benchmark == 0
    then (swap_refused division_by_zero, s)
    else (swap_recorded w, record s { swaps = w ∷ s.swaps })

abbrev pub has_swap_id : ℕ → SwapRecord → Bool
has_swap_id id w = w.id == id

abbrev pub is_swap_of : ℕ → SwapRecord → Bool
is_swap_of user w = w.user == user

unfoldable pub get_swap : ℕ → ℕ → Gdp → Option SwapRecord
get_swap user id s = only (is_swap_of user) (find? (has_swap_id id) s.swaps)

abbrev pub save_swap : SwapRecord → Gdp → Gdp
save_swap w s = record s { swaps = save_row (has_swap_id w.id) w s.swaps }

abbrev pub minted_first : GdpUnit → GdpUnit → Bool
minted_first a b = leb a.minted_at b.minted_at

abbrev pub unit_id : GdpUnit → ℕ
unit_id u = u.id

-- `filter(owner=user, status='ACTIVE').order_by('minted_at')[:n]`
unfoldable pub units_to_mark : ℕ → ℕ → List GdpUnit → List GdpUnit
units_to_mark user n us = take n (order_by minted_first (filter (is_active_of user) us))

abbrev pub mark_swapped : GdpUnit → GdpUnit
mark_swapped u = record u { status = swapped }

unfoldable pub mark_units : ℕ → ℕ → List GdpUnit → List GdpUnit
unfolding units_to_mark
mark_units user n us = update_where (is_in (map unit_id (units_to_mark user n us))) mark_swapped us

abbrev pub is_initiated : SwapStatus → Bool
is_initiated swap_initiated = true
is_initiated _ = false

abbrev pub complete_swap : ℕ → TxHash → SwapRecord → SwapRecord
complete_swap now h w = record w {
  status = swap_completed;
  swap_tx_hash = some h;
  completed_at = some now;
}

-- `tx` is what the chain answers, none if anything in the `try` block raises.
unfoldable pub settle_swap : ℕ → ℕ → Option TxHash → SwapRecord → Gdp → SwapReply × Gdp
unfolding mark_units
settle_swap user now none w s =
    (swap_refused swap_failed, save_swap (record w { status = swap_cancelled }) s)
settle_swap user now (some h) w s = (
  swap_recorded (complete_swap now h w),
  save_swap (complete_swap now h w)
      (record s { units = mark_units user w.gdp_units_swapped s.units }),
)

unfoldable pub confirm : ℕ → ℕ → ℕ → Option TxHash → Gdp → SwapReply × Gdp
unfolding settle_swap get_swap
confirm user id now tx s = elim (get_swap user id s) [
  | none ↦ (swap_refused swap_not_found, s)
  | some w ↦
      if is_initiated w.status then settle_swap user now tx w s else (swap_refused not_initiated, s)
]

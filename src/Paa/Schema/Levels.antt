-- ===== src/Paa/Schema/Levels.antt =====
-- The approval levels, the rates and the routing.
use irg_gdp.Base.{ℕ, ◌≤◌, ◌<◌, ◌≡◌, ◌↔◌, some, arith, if◌then◌else◌}
use irg_gdp.Base.Int.{ℤ, pos, ◌≤ℤ◌}
use irg_gdp.Paa.Schema.{
  Currency, Level, single, dual, board, court, dual_threshold, board_threshold, court_threshold,
  approval_level, Overrides, same_currency, usd_rate, set_rate,
}

-- How many approvals a level stands for, as an order on the levels.
abbrev pub rank : Level → ℕ
rank single = 0
rank dual = 1
rank board = 2
rank court = 3

-- A larger amount never needs a lower level.
pub approval_level_mono : (a b : ℤ) → a ≤ℤ b → rank (approval_level a) ≤ rank (approval_level b)
unfolding approval_level
approval_level_mono a b h = ground arith

-- The level of an amount, by the range that the amount lies in.
pub approval_level_cases :
    (n : ℕ)
    → ((approval_level (pos n) ≡ single) ↔ (n < dual_threshold))
      × ((approval_level (pos n) ≡ dual) ↔ ((dual_threshold ≤ n) × (n < board_threshold)))
      × ((approval_level (pos n) ≡ board) ↔ ((board_threshold ≤ n) × (n < court_threshold)))
      × ((approval_level (pos n) ≡ court) ↔ (court_threshold ≤ n))
unfolding approval_level
approval_level_cases n = (
  (λ h. ground arith, λ h. ground arith),
  (λ h. ground arith, λ h. ground arith),
  (λ h. ground arith, λ h. ground arith),
  (λ h. ground arith, λ h. ground arith),
)

-- Setting a rate changes that currency's rate, and no other.
pub usd_rate-set_rate :
    (c d : Currency) (r : ℕ) (o o' : Overrides)
    → set_rate (some c) (pos r) o ≡ some o'
    → (0 < r) × (usd_rate o' d ≡ (if same_currency d c then r else usd_rate o d))
unfolding usd_rate set_rate
usd_rate-set_rate c d r o o' h = ground arith

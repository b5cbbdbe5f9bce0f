-- ===== src/Chain/Escrow/Days.antt =====
-- How the days of a reconciliation divide its period, and what its rows say.
use irg_gdp.Base.{
  ℕ, zero, suc, ◌+◌, ◌*◌, ◌≤◌, ◌<◌, ◌≡◌, ◌↔◌, refl, none, some, List, [], ◌∷◌, arith, filter,
  length, ==_refl,
}
use irg_gdp.Chain.Escrow.{
  EscrowLog, Events, ReconciliationLog, balanced, discrepancy, day_start, is_between, logs_for_day,
  total, day_row, error_row, is_of_day, update_or_create, reconcile_day,
}

-- Two adjacent periods make one.
total-between :
    (a b c : ℕ) (ls : List EscrowLog)
    → a ≤ b
    → b ≤ c
    → total (filter (is_between a b) ls) + total (filter (is_between b c) ls)
      ≡ total (filter (is_between a c) ls)
total-between a b c [] h k = refl
total-between a b c (l ∷ ls) h k = ground (arith, total-between a b c ls h k)

-- The totals of `n` days from day `d` on.
abbrev pub total_of_days : List EscrowLog → ℕ → ℕ → ℕ
total_of_days ls d zero = 0
total_of_days ls d (suc n) = total (logs_for_day ls d) + total_of_days ls (d + 1) n

empty_period : (a : ℕ) (ls : List EscrowLog) → total (filter (is_between a a) ls) ≡ 0
empty_period a [] = refl
empty_period a (l ∷ ls) = ground (arith, empty_period a ls)

-- The totals of consecutive days make that of the whole period: each event is counted on one day.
pub days_add_up :
    (ls : List EscrowLog) (n d e : ℕ)
    → d + n ≡ e
    → total_of_days ls d n ≡ total (filter (is_between (day_start d) (day_start e)) ls)
unfolding logs_for_day
days_add_up ls zero d e h = let k : d ≡ e = omega arith in rw (k, empty_period (e * 86400) ls) refl
days_add_up ls (suc n) d e h =
    let i = days_add_up ls n (d + 1) e (omega arith) in
    let j =
      total-between (day_start d) (day_start (d + 1)) (day_start e) ls (omega arith)
        (omega arith) in
    omega (arith, i, j)

-- A day that is reconciled against credits of the bank is balanced exactly if what was released to
-- the minters on that day is what the bank credited.
pub balanced_iff :
    (ev : Events) (d bank_credits : ℕ)
    → ((day_row ev d bank_credits).status ≡ balanced)
      ↔ ((0 < bank_credits) × (bank_credits ≡ total (logs_for_day ev.released d)))
unfolding day_row
balanced_iff ev d bank_credits = ground arith

-- The credits of a period of two days, both with releases, are compared with the second day alone:
-- the row of that day reports a discrepancy although the bank credited what was released.
pub period_mismatch :
    (ev : Events) (d bank_credits : ℕ)
    → bank_credits ≡ total_of_days ev.released d 2
    → 0 < total (logs_for_day ev.released d)
    → (day_row ev (d + 1) bank_credits).status ≡ discrepancy
unfolding day_row
period_mismatch ev d bank_credits e h = ground (arith)

many_rows :
    (r : ReconciliationLog) (rows : List ReconciliationLog) (n : ℕ)
    → length (filter (is_of_day r.run_date) rows) ≡ suc (suc n)
    → update_or_create r rows ≡ none
unfolding update_or_create
many_rows r rows n e = rw (update_or_create, e) refl

-- Two runs for a day at which the node does not answer leave two rows for it; from then on a run
-- for that day raises when the node answers, whatever the events are.
pub two_errors_block :
    (d a b c : ℕ) (ev : Events) (rows : List ReconciliationLog)
    → (once : List ReconciliationLog) × (twice : List ReconciliationLog) × (reconcile_day d a none
          rows
        ≡ some once)
      × (reconcile_day d b none once ≡ some twice)
      × (reconcile_day d c (some ev) twice ≡ none)
unfolding reconcile_day day_row
two_errors_block d a b c ev rows =
    let once = error_row d ∷ rows in
    let twice = error_row d ∷ once in
    let n : length (filter (is_of_day d) twice) ≡ suc (suc (length (filter (is_of_day d) rows))) =
      rw (==_refl d) refl in
    (once, twice, refl, refl, many_rows (day_row ev d c) twice _ n)

-- ===== src/Chain/Escrow.antt =====
-- backend/chain/management/commands/reconcile_escrow.py: the escrow events of a day against the
-- credits of the trustee's bank. A date is a number of days from the epoch.
pub mod Days
use irg_gdp.Base.{
  ℕ, zero, suc, ◌+◌, ◌-◌, ◌*◌, Bool, true, false, ◌&&◌, Option, none, some, List, [], ◌∷◌, filter,
  length, sum, update_where, leb, ltb, ◌==◌, if◌then◌else◌,
}
use irg_gdp.Base.Int.{ℤ, pos, sub_ℕ}

pub record EscrowLog : Type 0 where
  pub timestamp : ℕ
  pub amount_inr : ℕ

pub data RunStatus : Type 0 where
  balanced discrepancy partial run_error : RunStatus

pub record ReconciliationLog : Type 0 where
  pub run_date : ℕ
  pub status : RunStatus
  pub escrow_locked_count : ℕ
  pub escrow_released_count : ℕ
  pub escrow_refunded_count : ℕ
  pub total_locked_inr : ℕ
  pub total_released_inr : ℕ
  pub total_refunded_inr : ℕ
  pub bank_credits_inr : ℕ
  pub discrepancy_inr : ℤ

-- `_day_bounds_unix`
abbrev pub day_start : ℕ → ℕ
day_start d = d * 86400

abbrev pub is_between : ℕ → ℕ → EscrowLog → Bool
is_between start end l = leb start l.timestamp && ltb l.timestamp end

-- `_logs_for_day`
unfoldable pub logs_for_day : List EscrowLog → ℕ → List EscrowLog
logs_for_day ls d = filter (is_between (day_start d) (day_start (d + 1))) ls

abbrev pub total : List EscrowLog → ℕ
total ls = sum (λ (l : EscrowLog). l.amount_inr) ls

-- The events of the three kinds in the blocks that are scanned.
pub record Events : Type 0 where
  pub locked : List EscrowLog
  pub released : List EscrowLog
  pub refunded : List EscrowLog

abbrev pub status_of : ℕ → ℕ → RunStatus
status_of bank_credits released =
    if ltb 0 bank_credits
    then (if bank_credits == released then balanced else discrepancy)
    else partial

abbrev pub discrepancy_of : ℕ → ℕ → ℤ
discrepancy_of bank_credits released =
    if ltb 0 bank_credits then sub_ℕ bank_credits released else pos 0

unfoldable pub day_row : Events → ℕ → ℕ → ReconciliationLog
unfolding logs_for_day
day_row ev d bank_credits =
    let locked = logs_for_day ev.locked d in
    let released = logs_for_day ev.released d in
    let refunded = logs_for_day ev.refunded d in
    record {
      run_date = d;
      status = status_of bank_credits (total released);
      escrow_locked_count = length locked;
      escrow_released_count = length released;
      escrow_refunded_count = length refunded;
      total_locked_inr = total locked;
      total_released_inr = total released;
      total_refunded_inr = total refunded;
      bank_credits_inr = bank_credits;
      discrepancy_inr = discrepancy_of bank_credits (total released);
    }

abbrev pub error_row : ℕ → ReconciliationLog
error_row d = record {
  run_date = d;
  status = run_error;
  escrow_locked_count = 0;
  escrow_released_count = 0;
  escrow_refunded_count = 0;
  total_locked_inr = 0;
  total_released_inr = 0;
  total_refunded_inr = 0;
  bank_credits_inr = 0;
  discrepancy_inr = pos 0;
}

abbrev pub is_of_day : ℕ → ReconciliationLog → Bool
is_of_day d r = r.run_date == d

-- `update_or_create(run_date=...)`: it raises, none here, if the day has several rows.
unfoldable pub update_or_create :
    ReconciliationLog → List ReconciliationLog → Option (List ReconciliationLog)
update_or_create r rows = elim (length (filter (is_of_day r.run_date) rows)) [
  | zero ↦ some (r ∷ rows)
  | suc n ↦ elim n [
    | zero ↦ some (update_where (is_of_day r.run_date) (λ _. r) rows)
    | suc m ↦ none
  ]
]

-- `_reconcile_day`; the events are none if a call of the node raises.
unfoldable pub reconcile_day :
    ℕ → ℕ → Option Events → List ReconciliationLog → Option (List ReconciliationLog)
unfolding update_or_create day_row
reconcile_day d bank_credits none rows = some (error_row d ∷ rows)
reconcile_day d bank_credits (some ev) rows = update_or_create (day_row ev d bank_credits) rows

-- The loop of `handle`: the days up to `target`, the earliest first, with the credits of the bank
-- for the last. `fetch` is what the node answers for a day.
unfoldable pub reconcile_days :
    ℕ → ℕ → (ℕ → Option Events) → ℕ → List ReconciliationLog → Option (List ReconciliationLog)
unfolding reconcile_day
reconcile_days target bank_credits fetch zero rows = some rows
reconcile_days target bank_credits fetch (suc offset) rows =
    let d = target - offset in
    elim (reconcile_day d (if offset == 0 then bank_credits else 0) (fetch d) rows) [
      | none ↦ none
      | some rows' ↦ reconcile_days target bank_credits fetch offset rows'
    ]

-- `days = max(1, days)`
unfoldable pub reconcile :
    ℕ → ℕ → ℕ → (ℕ → Option Events) → List ReconciliationLog → Option (List ReconciliationLog)
unfolding reconcile_days
reconcile target days bank_credits fetch rows =
    reconcile_days target bank_credits fetch (if leb days 1 then 1 else days) rows

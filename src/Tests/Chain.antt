-- ===== src/Tests/Chain.antt =====
-- The watchers and the reconciliation at work.
use irg_gdp.Base.{
  ℕ, ◌-◌, ◌≡◌, refl, true, false, Option, none, some, List, [], ◌∷◌, ◌==◌, if◌then◌else◌, arith,
  filter,
}
use irg_gdp.Wallet.Model.{Account, recovering}
use irg_gdp.Chain.Watcher.{Watch, Poll, failed, seen, run, handle_all, scan}
use irg_gdp.Chain.Watcher.Coverage.{HasHandled, run-HasHandled, block_is_reached}
use irg_gdp.Chain.Orders.{OrderLog, RecoveryLog, process, handle_executed}
use irg_gdp.Chain.Orders.Replay.{zeros, executed_again}
use irg_gdp.Chain.Escrow.{EscrowLog, total, is_between, day_start}
use irg_gdp.Chain.Escrow.Days.{total_of_days, days_add_up}
use irg_gdp.Tests.Samples.{with_claim}

-- Case ids of one digit.
abbrev one_digit : List ℕ → Option ℕ
one_digit [] = none
one_digit (c ∷ []) = some (c - 48)
one_digit (c ∷ d ∷ ds) = none

-- The order that approves case 5 stands in block 7.
abbrev approval : OrderLog
approval = record { case_id = 53 ∷ zeros 31; order_hash = 8; order_type = 0; tx_hash = 9 }

abbrev blocks : ℕ → List OrderLog
blocks b = if b == 7 then approval ∷ [] else []

abbrev start : Watch Account
start = record { last_block = 5; cursor = none; store = with_claim recovering }

abbrev handle : OrderLog → Account → Account
handle = process one_digit (λ l. 300)

abbrev rounds : List Poll
rounds = seen 8 true ∷ failed ∷ seen 8 true ∷ seen 20 false ∷ []

run-HasHandled_example :
    HasHandled blocks handle 5 (with_claim recovering) (run blocks handle 2 rounds start)
unfolding handle_all scan
run-HasHandled_example =
    run-HasHandled blocks handle 2 5 (with_claim recovering) rounds start (0, refl, refl)

block_is_reached_example :
    (n : ℕ) × ((run blocks handle 2 rounds start).store
      ≡ handle_all handle (scan blocks 8 n) (
          handle_all handle
            (blocks 7)
            (handle_all handle (scan blocks 6 1) (with_claim recovering))))
unfolding handle_all scan
block_is_reached_example =
    block_is_reached blocks handle 2 5 7 20 (with_claim recovering) false
      (seen 8 true ∷ failed ∷ seen 8 true ∷ []) [] start (0, refl, refl) (omega arith) (omega arith)

abbrev execution : RecoveryLog
execution = record { case_id = 53 ∷ zeros 31; old_wallet = 1; tx_hash = 9 }

executed_again_example :
    handle_executed one_digit 500 execution
      (handle_executed one_digit 400 execution (with_claim recovering))
    ≡ handle_executed one_digit 400 execution (with_claim recovering)
executed_again_example = executed_again one_digit 400 500 execution (with_claim recovering)

abbrev releases : List EscrowLog
releases =
    record { timestamp = 86400; amount_inr = 70 }
    ∷ record { timestamp = 172799; amount_inr = 5 }
    ∷ record { timestamp = 172800; amount_inr = 11 }
    ∷ []

days_add_up_example :
    total_of_days releases 1 2 ≡ total (filter (is_between (day_start 1) (day_start 3)) releases)
days_add_up_example = days_add_up releases 2 1 3 refl

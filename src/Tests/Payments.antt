-- ===== src/Tests/Payments.antt =====
-- The payment arm at work.
use irg_gdp.Base.{ℕ, ◌+◌, ◌*◌, ◌≤◌, ◌≡◌, refl, true, none, some, [], ◌∷◌, arith}
use irg_gdp.Base.Int.{int_laws, ◌≤ℤ◌, pos, negsuc, ◌+ℤ◌, scale, ◌-ℤ◌}
use Prim.Native.Nat.{◌/◌}
use irg_gdp.Tests.Samples.{half_up}
use irg_gdp.Paa.Schema.{
  payment, irg_cf, taxes, usd, inr, bank, executed, single, approval_level, to_usd,
  oracle_requirements, routing,
}
use irg_gdp.Paa.Model.{CorpusFund, Budget, RuleChange, Transaction, Paa, implemented, ChangeStatus}
use irg_gdp.Paa.Rules.{
  Candidate, plan, validate, schema_errors, validate_known, budget_errors, ratio_errors,
}
use irg_gdp.Paa.Rules.Compliance.{Complies, validate_planned}
use irg_gdp.Paa.Transactions.{
  usd_place, create_transaction, approve_transaction, execute_transaction,
  record_oracle_confirmation, get_transaction, enter, add_balance, add_approval, confirm_oracle,
  credit, delta, execute_row, missing, new_transaction, perform, raise_utilization,
}
use irg_gdp.Paa.Transactions.Ledger.{IsNear, Settled}
use irg_gdp.Paa.Transactions.Execution.{fund_holds, execute_ok}
use irg_gdp.Paa.Budgets.{
  get_change, is_applicable, propose_budget, vote_on_rule_change, apply_approved_rule_change,
}
use irg_gdp.Paa.Budgets.Voting.{Installed, apply_ok}
use irg_gdp.Paa.Life.{here, next, create, confirm, approve, execute, propose, vote_on, apply_change}
use irg_gdp.Paa.Life.Settlement.{executed-Settled, one_active_budget, actives}

rounded_up : (n : ℕ) → (n + 500000000000) / 1000000000000 * 1000000000000 ≤ n + 1000000000000
rounded_up n = omega arith

below : (m n p : ℕ) → m ≤ n + p → (pos m -ℤ pos p) ≤ℤ pos n
below m n p h = omega (int_laws, h)

below_negative : (n p : ℕ) → (negsuc n -ℤ pos p) ≤ℤ negsuc n
below_negative n p = omega int_laws

near : IsNear half_up
near (pos n) = below ((n + 500000000000) / 1000000000000 * 1000000000000) n usd_place (rounded_up n)
near (negsuc n) = below_negative n usd_place

-- A fund with 100 USD, and a budget of 80 USD for taxes that keeps 6000 ten-thousandths.
abbrev fund : CorpusFund
fund = record {
  id = 1;
  fund_type = irg_cf;
  balances = record { currency = usd; balance = pos 100000000000000 } ∷ [];
}

abbrev budget : Budget
budget = record {
  budget_id = 1;
  version = 1;
  resolution_hash = 3;
  categories =
      record { category = taxes; max_limit = 80000000000000; current_utilization = pos 0 } ∷ [];
  min_corpus_ratio = 6000;
  is_active = true;
}

abbrev start : Paa
start = record {
  funds = fund ∷ [];
  transactions = [];
  budgets = budget ∷ [];
  rule_changes = [];
  audit = [];
  rates = [];
}

-- 30 USD of taxes.
abbrev candidate : Candidate
candidate = record {
  tx_type = payment;
  category = some taxes;
  amount = pos 30000000000000;
  currency = some usd;
  idempotency_key = 4;
  oracle_confirmations = [];
}

abbrev rupees : Candidate
rupees = record candidate { amount = pos 83333333300000000; currency = some inr }

abbrev entered : Paa
entered = (create_transaction half_up 10 1 candidate none start).1

abbrev confirmed : Paa
confirmed = (record_oracle_confirmation 10 bank 2 entered).1

abbrev cleared : Paa
cleared = (approve_transaction 10 3 1 confirmed).1

abbrev settled : Paa
settled = (execute_transaction 10 1 cleared).1

abbrev settled_row : Transaction
settled_row = record {
  id = 10;
  tx_type = payment;
  category = taxes;
  amount = pos 30000000000000;
  currency = usd;
  usd_amount = pos 300000000000000000;
  to_fund = irg_cf;
  to_account_id = some 1;
  status = executed;
  required_approval = single;
  idempotency_key = 4;
  oracle_confirmations = record { oracle = bank; is_confirmed = true } ∷ [];
  approvals = record { actor = 3; role = 1 } ∷ [];
  budget_hash = some 3;
  created_by = 1;
}

executed-Settled_example : Settled settled_row
unfolding execute_transaction approve_transaction record_oracle_confirmation create_transaction
    enter validate schema_errors validate_known budget_errors ◌+ℤ◌ ratio_errors to_usd scale ◌-ℤ◌
    plan approval_level oracle_requirements routing
executed-Settled_example =
    executed-Settled half_up near start settled 10 settled_row refl
      (next
        (next (next (next here (create 10 1 candidate none)) (confirm 10 bank 2)) (approve 10 3 1))
        (execute 10 1))
      refl refl

execute_ok_example : get_transaction 10 settled ≡ some settled_row
unfolding execute_transaction approve_transaction record_oracle_confirmation create_transaction
    enter validate schema_errors validate_known budget_errors ◌+ℤ◌ ratio_errors to_usd scale ◌-ℤ◌
    plan approval_level oracle_requirements routing
execute_ok_example = (execute_ok 10 1 1 usd settled_row cleared refl).5

-- The fund after it.
charged : fund_holds 1 usd settled.funds ≡ some (pos 70000000000000)
unfolding execute_transaction approve_transaction record_oracle_confirmation create_transaction
    enter validate schema_errors validate_known budget_errors ◌+ℤ◌ ratio_errors to_usd scale ◌-ℤ◌
    plan approval_level oracle_requirements routing
charged = refl

validate_planned_example :
    Complies [] (some budget) (fund ∷ []) [] candidate (plan [] (some budget) candidate taxes usd)
unfolding validate schema_errors validate_known budget_errors ◌+ℤ◌ ratio_errors to_usd scale ◌-ℤ◌
validate_planned_example =
    validate_planned [] (some budget) (fund ∷ []) [] candidate
      (plan [] (some budget) candidate taxes usd) refl

double_execution :
    fund_holds 1 usd (execute_transaction 10 1 (approve_transaction 10 4 1 settled).1).1.funds
    ≡ some (pos 40000000000000)
unfolding execute_transaction approve_transaction record_oracle_confirmation create_transaction
    enter validate schema_errors validate_known budget_errors ◌+ℤ◌ ratio_errors to_usd scale ◌-ℤ◌
    plan approval_level oracle_requirements routing add_balance add_approval confirm_oracle credit
    delta execute_row missing new_transaction perform raise_utilization
double_execution = refl

abbrev next_budget : Budget
next_budget = record budget { budget_id = 2; version = 2 }

abbrev proposed : Paa
proposed = (propose_budget 20 1 (some next_budget) 1 start).1

abbrev voted : Paa
voted = (vote_on_rule_change 20 2 true proposed).1

abbrev applied_change : RuleChange
applied_change = record {
  id = 20;
  proposed_by = 1;
  votes = record { actor = 2; is_approval = true } ∷ [];
  required_votes = 1;
  status = implemented;
  new_budget = some next_budget;
  court_approval_id = none;
}

apply_ok_example :
    (c : RuleChange) × (get_change 20 voted ≡ some c)
    × (is_applicable c.status ≡ true)
    × (applied_change ≡ record c { status = implemented })
    × Installed c.new_budget voted.budgets (apply_approved_rule_change 20 1 voted).1.budgets
unfolding apply_approved_rule_change vote_on_rule_change propose_budget
apply_ok_example = apply_ok 20 1 applied_change voted refl

one_active_budget_example : actives (apply_approved_rule_change 20 1 voted).1.budgets ≤ 1
one_active_budget_example =
    one_active_budget half_up start (apply_approved_rule_change 20 1 voted).1
      (next (next (next here (propose 20 1 (some next_budget) 1)) (vote_on 20 2 true))
        (apply_change 20 1))
      (omega arith)

abbrev approved_change : RuleChange
approved_change = record {
  id = 20;
  proposed_by = 1;
  votes = record { actor = 2; is_approval = true } ∷ [];
  required_votes = 1;
  status = ChangeStatus.approved;
  new_budget = some next_budget;
  court_approval_id = none;
}

abbrev with_change : Paa
with_change = record start { rule_changes = approved_change ∷ [] }

-- 83,333.3333 INR are 999.9999996 USD, for which one approval is enough, and are stored as 1,000 USD,
-- which would take two.
stored_above_level :
    (new_transaction half_up 10 1 rupees none (plan [] none rupees taxes inr) start).usd_amount
    ≡ pos 10000000000000000000
unfolding new_transaction plan to_usd scale
stored_above_level = refl

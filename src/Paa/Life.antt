-- ===== src/Paa/Life.antt =====
-- The lives of the payment arm's tables: the calls of backend/payment_bridge/paa_service.py that
-- write, in any order.
pub mod Settlement
use irg_gdp.Base.{ℕ, Bool, Option}
use irg_gdp.Base.Int.{ℤ}
use irg_gdp.Paa.Schema.{Oracle, Currency, Overrides}
use irg_gdp.Paa.Model.{CorpusFund, Budget, Paa}
use irg_gdp.Paa.Rules.{Candidate}
use irg_gdp.Paa.Transactions.{
  Column, create_transaction, approve_transaction, execute_transaction, cancel_transaction,
  record_oracle_confirmation,
}
use irg_gdp.Paa.Budgets.{
  propose_budget, vote_on_rule_change, apply_approved_rule_change, upload_court_approval,
  create_corpus_fund,
}

pub data Step (col : Column) : Paa → Paa → Type 0 where
  create :
      {s : Paa} (id actor : ℕ) (c : Candidate) (to : Option ℕ)
      → Step col s (create_transaction col id actor c to s).1
  approve : {s : Paa} (id actor role : ℕ) → Step col s (approve_transaction id actor role s).1
  execute : {s : Paa} (id actor : ℕ) → Step col s (execute_transaction id actor s).1
  cancel : {s : Paa} (id actor : ℕ) → Step col s (cancel_transaction id actor s).1
  confirm :
      {s : Paa} (id : ℕ) (o : Oracle) (actor : ℕ)
      → Step col s (record_oracle_confirmation id o actor s).1
  found_fund : {s : Paa} (f : CorpusFund) (actor : ℕ) → Step col s (create_corpus_fund f actor s).1
  propose :
      {s : Paa} (id actor : ℕ) (b : Option Budget) (required : ℕ)
      → Step col s (propose_budget id actor b required s).1
  vote_on : {s : Paa} (id actor : ℕ) (b : Bool) → Step col s (vote_on_rule_change id actor b s).1
  apply_change : {s : Paa} (id actor : ℕ) → Step col s (apply_approved_rule_change id actor s).1
  uphold_change :
      {s : Paa} (id actor : ℕ) (k : Option ℕ) → Step col s (upload_court_approval id actor k s)
  new_rates : {s : Paa} (o : Overrides) → Step col s (record s { rates = o })

pub data Reach (col : Column) (s : Paa) : Paa → Type 0 where
  here : Reach col s s
  next : {t u : Paa} → Reach col s t → Step col t u → Reach col s u

-- ===== src/Paa/Model.antt =====
-- The rows of backend/payment_bridge/models.py. Keys, actors and hashes are opaque numbers; times and
-- descriptive texts that nothing reads are left out.
use irg_gdp.Base.{ℕ, Bool, Option, List}
use irg_gdp.Base.Int.{ℤ}
use irg_gdp.Paa.Schema.{TxType, FundType, Category, TxStatus, Currency, Oracle, Level, Overrides}

-- An entry of the JSON list `balances`.
pub record Balance : Type 0 where
  pub currency : Currency
  pub balance : ℤ

pub record CorpusFund : Type 0 where
  pub id : ℕ
  pub fund_type : FundType
  pub balances : List Balance

pub record Approval : Type 0 where
  pub actor : ℕ
  pub role : ℕ

-- An entry of the JSON list `oracle_confirmations`.
pub record Confirmation : Type 0 where
  pub oracle : Oracle
  pub is_confirmed : Bool

pub record Transaction : Type 0 where
  pub id : ℕ
  pub tx_type : TxType
  pub category : Category
  pub amount : ℤ
  pub currency : Currency
  pub usd_amount : ℤ
  pub to_fund : FundType
  pub to_account_id : Option ℕ
  pub status : TxStatus
  pub required_approval : Level
  pub idempotency_key : ℕ
  pub oracle_confirmations : List Confirmation
  pub approvals : List Approval
  pub budget_hash : Option ℕ
  pub created_by : ℕ

-- An entry of the JSON dictionary `categories`; the limit is not negative.
pub record CategoryBudget : Type 0 where
  pub category : Category
  pub max_limit : ℕ
  pub current_utilization : ℤ

pub record Budget : Type 0 where
  pub budget_id : ℕ
  pub version : ℕ
  pub resolution_hash : ℕ
  pub categories : List CategoryBudget
  pub min_corpus_ratio : ℕ  -- ten-thousandths
  pub is_active : Bool

pub data ChangeStatus : Type 0 where
  voting approved court_approved implemented : ChangeStatus

pub record Vote : Type 0 where
  pub actor : ℕ
  pub is_approval : Bool

-- A rule change; `new_budget` is `changes['newBudget']`, if it has a budgetId.
pub record RuleChange : Type 0 where
  pub id : ℕ
  pub proposed_by : ℕ
  pub votes : List Vote
  pub required_votes : ℕ
  pub status : ChangeStatus
  pub new_budget : Option Budget
  pub court_approval_id : Option ℕ

pub data AuditAction : Type 0 where
  transaction_created transaction_failed transaction_approved transaction_executed : AuditAction
  transaction_cancelled oracle_confirmed budget_proposed budget_voted budget_revised : AuditAction
  court_approval_uploaded cf_created : AuditAction

-- A row of the audit log, about the row with the key `subject`.
pub record AuditEntry : Type 0 where
  pub action : AuditAction
  pub actor : ℕ
  pub subject : ℕ

-- The tables and the table of exchange rates.
pub record Paa : Type 0 where
  pub funds : List CorpusFund
  pub transactions : List Transaction
  pub budgets : List Budget
  pub rule_changes : List RuleChange
  pub audit : List AuditEntry
  pub rates : Overrides

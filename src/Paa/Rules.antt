-- ===== src/Paa/Rules.antt =====
-- The rules engine, `_validate_transaction` of backend/payment_bridge/paa_service.py.
pub mod Compliance
use irg_gdp.Base.{
  ℕ, ◌+◌, ◌*◌, ◌≡◌, Bool, true, false, ◌&&◌, ◌||◌, Option, none, some, List, [], ◌∷◌, ◌++◌, any,
  find?, ltb, leb, ◌==◌, is_some, is_nonempty, not, if◌then◌else◌,
}
use irg_gdp.Base.Int.{ℤ, pos, ◌+ℤ◌, ◌-ℤ◌, scale, leb_ℤ, ltb_ℤ}
use irg_gdp.Paa.Schema.{
  TxType, payment, FundType, Category, Currency, Oracle, Level, Overrides, TxStatus, court_pending,
  pending_board, pending_dual, pending_approval, single, dual, board, court, routing,
  oracle_requirements, approval_level, same_oracle, to_usd,
}
use irg_gdp.Paa.Model.{Balance, CorpusFund, Confirmation, Transaction, CategoryBudget, Budget}

-- The candidate; a category or currency that the schema does not know is `none`, and the idempotency
-- key is given or drawn before.
pub record Candidate : Type 0 where
  pub tx_type : TxType
  pub category : Option Category
  pub amount : ℤ
  pub currency : Option Currency
  pub idempotency_key : ℕ
  pub oracle_confirmations : List Confirmation

pub data RuleError : Type 0 where
  unknown_category unsupported_currency invalid_amount duplicate_transaction : RuleError
  category_not_budgeted budget_limit_exceeded corpus_ratio_violation : RuleError

pub data RuleWarning : Type 0 where
  no_active_budget budget_near_limit : RuleWarning
  pending_oracle : Oracle → RuleWarning

abbrev pub error_if : Bool → RuleError → List RuleError
error_if false e = []
error_if true e = e ∷ []

unfoldable pub schema_errors : Candidate → List RuleError
schema_errors c =
    error_if (not (is_some c.category)) unknown_category
    ++ (error_if (not (is_some c.currency)) unsupported_currency
        ++ error_if (leb_ℤ c.amount (pos 0)) invalid_amount)

abbrev pub has_key : ℕ → Transaction → Bool
has_key k t = t.idempotency_key == k

abbrev pub category_code : Category → ℕ
category_code Category.trot_book_sale = 0
category_code Category.license_fee = 1
category_code Category.irg_gdp_sale = 2
category_code Category.irg_ftr_sale = 3
category_code Category.default_compensation = 4
category_code Category.recall_compensation = 5
category_code Category.recall_insurance_claim = 6
category_code Category.dac_charges = 7
category_code Category.advertisement_charges = 8
category_code Category.referral_commission_ftr = 9
category_code Category.ftr_minting_cost = 10
category_code Category.gdp_minting_cost = 11
category_code Category.ftr_recall_costs = 12
category_code Category.gdp_shortfall = 13
category_code Category.gdp_recovery = 14
category_code Category.roi_investment_proceeds = 15
category_code Category.trade_profit = 16
category_code Category.tgdp_ftr_gic_jr_sale = 17
category_code Category.jewelry_designer_charges = 18
category_code Category.cross_currency_gain = 19
category_code Category.system_support_charges = 20
category_code Category.other_collection = 21
category_code Category.advisory_board_expense = 22
category_code Category.taxes = 23
category_code Category.investments = 24
category_code Category.trust_beneficiary_income = 25
category_code Category.cross_currency_loss = 26
category_code Category.operational_expense = 27
category_code Category.other_payment = 28

abbrev pub is_category : Category → CategoryBudget → Bool
is_category c b = category_code b.category == category_code c

-- `pct > 100` with `pct = after / limit * 100 if limit else 0`.
abbrev pub is_over_limit : ℕ → ℤ → Bool
is_over_limit limit after = not (limit == 0) && ltb_ℤ (pos limit) after

-- `85 <= pct < 100`
abbrev pub is_near_limit : ℕ → ℤ → Bool
is_near_limit limit after =
    not (limit == 0) && (leb_ℤ (pos (85 * limit)) (scale 100 after) && ltb_ℤ after (pos limit))

-- The budget part: the category's entry of the active budget, with the amount added.
unfoldable pub budget_errors : Option Budget → Category → ℤ → List RuleError
budget_errors none c amount = []
budget_errors (some b) c amount = elim (find? (is_category c) b.categories) [
  | none ↦ category_not_budgeted ∷ []
  | some e ↦
      error_if (is_over_limit e.max_limit (e.current_utilization +ℤ amount)) budget_limit_exceeded
]

unfoldable pub budget_warnings : Option Budget → Category → ℤ → List RuleWarning
budget_warnings none c amount = no_active_budget ∷ []
budget_warnings (some b) c amount = elim (find? (is_category c) b.categories) [
  | none ↦ []
  | some e ↦
      let after = e.current_utilization +ℤ amount in
      if is_near_limit e.max_limit after && not (is_over_limit e.max_limit after)
      then budget_near_limit ∷ []
      else []
]

unfoldable pub balances_usd : Overrides → List Balance → ℤ
balances_usd o [] = pos 0
balances_usd o (b ∷ bs) = to_usd o b.balance b.currency +ℤ balances_usd o bs

-- `totalCorpusValueUSD`, and the loop of the corpus ratio.
unfoldable pub total_usd : Overrides → List CorpusFund → ℤ
unfolding balances_usd
total_usd o [] = pos 0
total_usd o (f ∷ fs) = balances_usd o f.balances +ℤ total_usd o fs

-- DEFAULT_CHARGE_RATES["MIN_CORPUS_RATIO"], in ten-thousandths.
abbrev pub default_min_corpus_ratio : ℕ
default_min_corpus_ratio = 6000

abbrev pub min_ratio : Option Budget → ℕ
min_ratio none = default_min_corpus_ratio
min_ratio (some b) = b.min_corpus_ratio

abbrev pub is_payment : TxType → Bool
is_payment payment = true
is_payment _ = false

-- `total_usd > 0 and remaining / total_usd < min_ratio`, without the division.
abbrev pub breaches_ratio : ℕ → ℤ → ℤ → Bool
breaches_ratio ratio total tx =
    not (leb_ℤ total (pos 0)) && ltb_ℤ (scale 10000 (total -ℤ tx)) (scale ratio total)

unfoldable pub ratio_errors :
    Overrides → Option Budget → List CorpusFund → TxType → ℤ → Currency → List RuleError
unfolding total_usd
ratio_errors o b fs ty amount cur =
    error_if (is_payment ty && breaches_ratio (min_ratio b) (total_usd o fs) (to_usd o amount cur))
      corpus_ratio_violation

abbrev pub confirms : Oracle → Confirmation → Bool
confirms o c = same_oracle c.oracle o && c.is_confirmed

unfoldable pub oracle_warnings : List Confirmation → List Oracle → List RuleWarning
oracle_warnings given [] = []
oracle_warnings given (o ∷ os) =
    let rest = oracle_warnings given os in
    if any (confirms o) given then rest else pending_oracle o ∷ rest

-- What is decided about a candidate without errors.
pub record Plan : Type 0 where
  pub category : Category
  pub currency : Currency
  pub destination : FundType
  pub required_approval : Level
  pub usd_amount : ℤ
  pub warnings : List RuleWarning

pub data Verdict : Type 0 where
  refused : List RuleError → Verdict
  planned : Plan → Verdict

unfoldable pub plan : Overrides → Option Budget → Candidate → Category → Currency → Plan
unfolding budget_warnings oracle_warnings
plan o b c cat cur = record {
  category = cat;
  currency = cur;
  destination = routing cat;
  required_approval = approval_level (to_usd o c.amount cur);
  usd_amount = to_usd o c.amount cur;
  warnings =
      budget_warnings b cat c.amount
      ++ oracle_warnings c.oracle_confirmations (oracle_requirements cat);
}

abbrev pub verdict : List RuleError → Plan → Verdict
verdict [] p = planned p
verdict (e ∷ es) p = refused (e ∷ es)

-- The part after the schema checks.
unfoldable pub validate_known :
    Overrides
    → Option Budget
    → List CorpusFund
    → List Transaction
    → Candidate
    → Category
    → Currency
    → Verdict
validate_known o b fs txs c cat cur =
    if any (has_key c.idempotency_key) txs
    then refused (duplicate_transaction ∷ [])
    else verdict (budget_errors b cat c.amount ++ ratio_errors o b fs c.tx_type c.amount cur)
        (plan o b c cat cur)

abbrev pub validate_schema :
    List RuleError → Option Category → Option Currency → (Category → Currency → Verdict) → Verdict
validate_schema [] (some cat) (some cur) k = k cat cur
validate_schema es _ _ k = refused es

unfoldable pub validate :
    Overrides → Option Budget → List CorpusFund → List Transaction → Candidate → Verdict
validate o b fs txs c =
    validate_schema (schema_errors c) c.category c.currency (validate_known o b fs txs c)

-- `_initial_status_for`
unfoldable pub initial_status : Level → TxStatus
initial_status court = court_pending
initial_status board = pending_board
initial_status dual = pending_dual
initial_status single = pending_approval

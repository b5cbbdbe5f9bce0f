-- ===== src/Paa/Schema.antt =====
-- backend/payment_bridge/paa_schema.py: categories, routing, oracles, approval levels, rates. Python's
-- floats are exact here: an amount is an integer in units of 10^-12, a rate the number of its
-- ten-thousandths, and an amount in USD, their product, an integer in units of 10^-16.
pub mod Levels
use irg_gdp.Base.{
  ℕ, ◌*◌, ◌≡◌, Bool, true, false, Option, none, some, List, [], ◌∷◌, ltb, ◌==◌, not, if◌then◌else◌,
}
use irg_gdp.Base.Int.{ℤ, pos, scale, leb_ℤ}

-- TRANSACTION_TYPES; `other_type` is any other text, which nothing refuses.
pub data TxType : Type 0 where
  collection payment investment roi_credit recall refund system_charge exchange other_type : TxType

-- CORPUS_FUND_TYPES
pub data FundType : Type 0 where
  irg_cf irg_local_cf minter_cf jeweler_cf : FundType

-- TRANSACTION_CATEGORIES
pub data Category : Type 0 where
  trot_book_sale license_fee irg_gdp_sale irg_ftr_sale : Category
  default_compensation recall_compensation recall_insurance_claim : Category
  dac_charges advertisement_charges referral_commission_ftr : Category
  ftr_minting_cost gdp_minting_cost ftr_recall_costs : Category
  gdp_shortfall gdp_recovery roi_investment_proceeds trade_profit : Category
  tgdp_ftr_gic_jr_sale jewelry_designer_charges : Category
  cross_currency_gain system_support_charges other_collection : Category
  advisory_board_expense taxes investments trust_beneficiary_income : Category
  cross_currency_loss operational_expense other_payment : Category

-- TRANSACTION_STATUSES
pub data TxStatus : Type 0 where
  pending validated pending_approval pending_dual pending_board : TxStatus
  approved executed failed court_pending cancelled : TxStatus

-- SUPPORTED_CURRENCIES
pub data Currency : Type 0 where
  usd eur gbp inr aed sgd jpy aud cad chf : Currency

-- ORACLE_TYPES
pub data Oracle : Type 0 where
  bank law_firm blockchain trustee system : Oracle

pub data Level : Type 0 where
  single dual board court : Level

-- `get_routing_for`, over CATEGORY_ROUTING.
unfoldable pub routing : Category → FundType
routing trot_book_sale = irg_cf
routing license_fee = irg_cf
routing ftr_minting_cost = irg_cf
routing gdp_minting_cost = irg_cf
routing trust_beneficiary_income = irg_cf
routing advisory_board_expense = irg_cf
routing taxes = irg_cf
routing investments = irg_cf
routing roi_investment_proceeds = irg_cf
routing trade_profit = irg_cf
routing irg_ftr_sale = minter_cf
routing cross_currency_gain = minter_cf
routing cross_currency_loss = minter_cf
routing irg_gdp_sale = jeweler_cf
routing _ = irg_local_cf

-- `get_oracle_requirements_for`, over ORACLE_REQUIREMENTS.
unfoldable pub oracle_requirements : Category → List Oracle
oracle_requirements recall_insurance_claim = law_firm ∷ bank ∷ []
oracle_requirements investments = trustee ∷ []
oracle_requirements roi_investment_proceeds = trustee ∷ bank ∷ []
oracle_requirements trust_beneficiary_income = trustee ∷ []
oracle_requirements taxes = bank ∷ []
oracle_requirements advisory_board_expense = bank ∷ []
oracle_requirements tgdp_ftr_gic_jr_sale = bank ∷ []
oracle_requirements _ = []

-- `is_collection_category`: not one of _PAYMENT_CATS.
unfoldable pub is_collection_category : Category → Bool
is_collection_category advisory_board_expense = false
is_collection_category taxes = false
is_collection_category investments = false
is_collection_category trust_beneficiary_income = false
is_collection_category cross_currency_loss = false
is_collection_category operational_expense = false
is_collection_category other_payment = false
is_collection_category recall_compensation = false
is_collection_category recall_insurance_claim = false
is_collection_category ftr_recall_costs = false
is_collection_category gdp_shortfall = false
is_collection_category _ = true

-- One USD, in units of 10^-16.
abbrev pub one_usd : ℕ
one_usd = 10000000000000000

abbrev pub dual_threshold : ℕ
dual_threshold = 1000 * one_usd

abbrev pub board_threshold : ℕ
board_threshold = 10000 * one_usd

abbrev pub court_threshold : ℕ
court_threshold = 1000000 * one_usd

-- `get_approval_level_for`
unfoldable pub approval_level : ℤ → Level
approval_level a =
    if leb_ℤ (pos court_threshold) a
    then court
    else if leb_ℤ (pos board_threshold) a
    then board
    else if leb_ℤ (pos dual_threshold) a
    then dual
    else single

-- _STATIC_USD_RATES
unfoldable pub static_rate : Currency → ℕ
static_rate usd = 10000
static_rate eur = 10850
static_rate gbp = 12680
static_rate inr = 120
static_rate aed = 2723
static_rate sgd = 7430
static_rate jpy = 66
static_rate aud = 6580
static_rate cad = 7345
static_rate chf = 11200

abbrev pub currency_code : Currency → ℕ
currency_code usd = 0
currency_code eur = 1
currency_code gbp = 2
currency_code inr = 3
currency_code aed = 4
currency_code sgd = 5
currency_code jpy = 6
currency_code aud = 7
currency_code cad = 8
currency_code chf = 9

abbrev pub same_currency : Currency → Currency → Bool
same_currency a b = currency_code a == currency_code b

abbrev pub oracle_code : Oracle → ℕ
oracle_code bank = 0
oracle_code law_firm = 1
oracle_code blockchain = 2
oracle_code trustee = 3
oracle_code system = 4

abbrev pub same_oracle : Oracle → Oracle → Bool
same_oracle a b = oracle_code a == oracle_code b

abbrev pub fund_code : FundType → ℕ
fund_code irg_cf = 0
fund_code irg_local_cf = 1
fund_code minter_cf = 2
fund_code jeweler_cf = 3

abbrev pub same_fund_type : FundType → FundType → Bool
same_fund_type a b = fund_code a == fund_code b

-- `_overrides`, the last setting of a currency first.
abbrev pub Overrides : Type 0
Overrides = List (Currency × ℕ)

-- `get_usd_rate` of a supported currency.
unfoldable pub usd_rate : Overrides → Currency → ℕ
unfolding static_rate
usd_rate [] c = static_rate c
usd_rate ((d, r) ∷ o) c = if same_currency c d then r else usd_rate o c

-- `set_rate`; a currency that is not supported is `none`. The result `none` is the ValueError.
unfoldable pub set_rate : Option Currency → ℤ → Overrides → Option Overrides
set_rate none r o = none
set_rate (some c) (pos r) o = if ltb 0 r then some ((c, r) ∷ o) else none
set_rate (some c) _ o = none

-- `to_usd`
unfoldable pub to_usd : Overrides → ℤ → Currency → ℤ
unfolding usd_rate
to_usd o amount c = scale (usd_rate o c) amount

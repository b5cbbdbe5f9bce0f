-- ===== src/Gdp/Model.antt =====
-- The rows of backend/irg_gdp/models.py and the settings of backend/settings.py that they use.
-- Grams and their rates in percent are integers of the last place of their columns: grams of
-- ten-thousandths, rupees of paise, percentages of hundredths. A number is not negative. A time is
-- a number of seconds, a date one of days; a hash of the chain is opaque.
use irg_gdp.Base.{ℕ, Bool, true, false, ◌&&◌, Option, List, find?, only, ◌==◌, save_row}

abbrev pub TxHash : Type 0
TxHash = ℕ

pub record User : Type 0 where
  pub id : ℕ
  pub is_staff : Bool

pub data Purity : Type 0 where
  k24 k22 k18 k14 : Purity
  other_purity : ℕ → Purity

pub data UnitStatus : Type 0 where
  active earmarked swapped transferred redeemed burned : UnitStatus

pub record GdpUnit : Type 0 where
  pub id : ℕ
  pub owner : ℕ
  pub gold_grams : ℕ
  pub purity : Purity
  pub pure_gold_equivalent : ℕ
  pub benchmark_rate_at_mint : ℕ
  pub benchmark_value : ℕ
  pub saleable_units : ℕ
  pub reserve_units : ℕ
  pub total_units : ℕ
  pub status : UnitStatus
  pub source_jeweler : Option ℕ
  pub minting_record : Option ℕ
  pub minting_tx_hash : TxHash
  pub minted_at : ℕ

pub data MintStatus : Type 0 where
  initiated checklist_pending verified minting completed rejected : MintStatus

-- The texts that the code writes to `rejection_reason`.
pub data Rejection : Type 0 where
  over_cap call_failed by_admin : Rejection

pub record MintingRecord : Type 0 where
  pub id : ℕ
  pub user : ℕ
  pub gold_grams : ℕ
  pub purity : Purity
  pub pure_gold_equivalent : ℕ
  pub invoice_verified : Bool
  pub jeweler_certified : Bool
  pub nw_certified : Bool
  pub within_cap : Bool
  pub undertaking_signed : Bool
  pub certifying_jeweler : Option ℕ
  pub units_to_mint : ℕ
  pub saleable_units : ℕ
  pub reserve_units : ℕ
  pub earmarking_amount : ℕ
  pub corpus_contribution : ℕ
  pub status : MintStatus
  pub rejection_reason : Option Rejection
  pub transaction_hash : Option TxHash
  pub completed_at : Option ℕ

pub data EarmarkStatus : Type 0 where
  earmark_active released forfeited : EarmarkStatus

pub record EarmarkingRecord : Type 0 where
  pub id : ℕ
  pub user : ℕ
  pub gdp_unit : ℕ
  pub amount : ℕ
  pub rate_percent : ℕ
  pub release_date : ℕ
  pub status : EarmarkStatus
  pub released_at : Option ℕ
  pub earmark_tx_hash : TxHash
  pub release_tx_hash : Option TxHash

pub data SwapStatus : Type 0 where
  swap_initiated swap_confirmed swap_completed swap_cancelled : SwapStatus

pub record SwapRecord : Type 0 where
  pub id : ℕ
  pub user : ℕ
  pub gdp_units_swapped : ℕ
  pub gdp_value_at_swap : ℕ
  pub ftr_category : ℕ
  pub ftr_units_received : ℕ
  pub ftr_benchmark_rate : ℕ
  pub status : SwapStatus
  pub swap_tx_hash : Option TxHash
  pub completed_at : Option ℕ

pub data TradeType : Type 0 where
  buy sell : TradeType

pub data TradeStatus : Type 0 where
  pending matched trade_completed trade_cancelled : TradeStatus

pub record TradeRecord : Type 0 where
  pub id : ℕ
  pub trade_type : TradeType
  pub user : ℕ
  pub counterparty : Option ℕ
  pub units : ℕ
  pub price_per_unit : ℕ
  pub total_value : ℕ
  pub status : TradeStatus
  pub trade_tx_hash : Option TxHash
  pub created_at : ℕ
  pub executed_at : Option ℕ

pub data TransferType : Type 0 where
  gift sponsor inheritance sale : TransferType

pub record TransferRecord : Type 0 where
  pub id : ℕ
  pub from_user : ℕ
  pub to_user : ℕ
  pub gdp_unit : ℕ
  pub transfer_type : TransferType
  pub transfer_tx_hash : TxHash

-- The tables of the application.
pub record Gdp : Type 0 where
  pub units : List GdpUnit
  pub records : List MintingRecord
  pub earmarks : List EarmarkingRecord
  pub swaps : List SwapRecord
  pub trades : List TradeRecord
  pub transfers : List TransferRecord

abbrev pub is_active_unit : GdpUnit → Bool
is_active_unit u = elim u.status [ active ↦ true | _ ↦ false ]

-- `filter(owner=user, status='ACTIVE')`
abbrev pub is_active_of : ℕ → GdpUnit → Bool
is_active_of user u = (u.owner == user) && is_active_unit u

abbrev pub has_unit_id : ℕ → GdpUnit → Bool
has_unit_id id u = u.id == id

-- `GDPUnit.objects.get(id=id, owner=user, status='ACTIVE')`
unfoldable pub get_active_unit : ℕ → ℕ → Gdp → Option GdpUnit
get_active_unit user id s = only (is_active_of user) (find? (has_unit_id id) s.units)

abbrev pub save_unit : GdpUnit → Gdp → Gdp
save_unit u s = record s { units = save_row (has_unit_id u.id) u s.units }

-- The settings `IRG_GDP_CONFIG`; a purity factor in ten-thousandths.
abbrev pub saleable_per_gram : ℕ
saleable_per_gram = 9

abbrev pub reserve_per_gram : ℕ
reserve_per_gram = 1

abbrev pub corpus_contribution_percent : ℕ
corpus_contribution_percent = 20

abbrev pub earmarking_percentage : ℕ
earmarking_percentage = 11

abbrev pub lock_in_new_months : ℕ
lock_in_new_months = 0

abbrev pub purity_factor : Purity → ℕ
purity_factor k24 = 10000
purity_factor k22 = 9167
purity_factor k18 = 7500
purity_factor k14 = 5833
purity_factor (other_purity p) = 10000

-- Python's floats, as their bits, and the rounding of a decimal to the places of its column.
pub record Arithmetic : Type 0 where
  -- `float(d)` of a decimal with four places
  pub float : ℕ → ℕ
  pub times : ℕ → ℕ → ℕ
  -- `int(x)`
  pub trunc : ℕ → ℕ
  -- `Decimal(str(x))`, in a column of four places
  pub decimal : ℕ → ℕ
  -- `d + Decimal(str(x)) > cap`, without a rounding to a column
  pub sum_exceeds : ℕ → ℕ → ℕ → Bool
  -- `Decimal(str(x)) * rate * p / 100`, in a column of two places
  pub percent_of : ℕ → ℕ → ℕ → ℕ
  -- `quantize k n` drops the last `k` places of `n`.
  pub quantize : ℕ → ℕ → ℕ

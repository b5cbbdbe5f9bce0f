-- ===== src/Tests/Units.antt =====
-- GDP units to run the definitions on.
use irg_gdp.Base.{
  ltb, ◌+◌, ℕ, true, false, none, some, [], ◌∷◌, find?, ◌*◌, ◌/◌, ◌==◌, if◌then◌else◌,
}
use irg_gdp.Gdp.Model.{User, Gdp, GdpUnit, Arithmetic, k24, MintingRecord, gift}
use irg_gdp.Gdp.Minting.{
  investor, MintRequest, Checklist, create, verify_checklist, execute_mint, check, new_unit,
  benchmark, has_record_id, draft,
}
use irg_gdp.Gdp.Transfers.{transfer}

-- Exact decimals with eight places in place of floats.
abbrev pub exact : Arithmetic
exact = record {
  float = λ d. d * 10000;
  times = λ x y. x * y / 100000000;
  trunc = λ x. x / 100000000;
  decimal = λ x. x / 10000;
  sum_exceeds = λ d x cap. ltb (cap * 10000) (d * 10000 + x);
  percent_of = λ x rate p. x * rate * p / 10000000000;
  quantize = λ k n. n / (if k == 4 then 10000 else 1000000);
}

abbrev pub alice : User
alice = record { id = 1; is_staff = false }

abbrev pub nothing : Gdp
nothing = record {
  units = [];
  records = [];
  earmarks = [];
  swaps = [];
  trades = [];
  transfers = [];
}

-- 10 g of 24 karat.
abbrev pub ten_grams : MintRequest
ten_grams = record {
  gold_grams = 100000;
  purity = k24;
  invoice_verified = false;
  jeweler_certified = false;
  nw_certified = false;
  undertaking_signed = false;
  certifying_jeweler = none;
}

abbrev pub all_points : Checklist
all_points = record {
  invoice_verified = true;
  jeweler_certified = true;
  nw_certified = true;
  undertaking_signed = true;
  certifying_jeweler = some 4;
}

abbrev pub asked : Gdp
asked = (create exact true 10 alice (investor ∷ []) none ten_grams nothing).1

abbrev pub checked : Gdp
checked = (verify_checklist alice 10 true all_points asked).1

abbrev pub minted_once : Gdp
minted_once = (execute_mint exact alice 10 20 5 none (some 99) checked).1

abbrev pub found_record : ℕ → Gdp → MintingRecord
found_record id s = elim (find? (has_record_id id) s.records) [
  | none ↦ draft id 1 ten_grams
  | some r ↦ r
]

-- The record when its checklist is complete, and after its minting.
abbrev pub record_checked : MintingRecord
record_checked = check all_points (found_record 10 asked)

abbrev pub unit_20 : GdpUnit
unit_20 = new_unit exact 20 5 (benchmark none) 99 record_checked

-- Alice gives the unit to user 2.
abbrev pub given : Gdp
given = (transfer 30 40 1 7 20 (some 2) gift (some 97) minted_once).1

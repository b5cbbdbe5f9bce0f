-- ===== src/Gdp/Minting.antt =====
-- Minting in backend/irg_gdp/models.py and views.py: calculate_units, and MintingViewSet.
pub mod Grams
pub mod Execution
use irg_gdp.Base.{
  ℕ, ◌+◌, ◌*◌, Bool, true, false, ◌&&◌, ◌||◌, Option, none, some, List, ◌∷◌, filter, find?, only,
  any, sum, save_row, ltb, not, ◌==◌, if◌then◌else◌,
}
use irg_gdp.Gdp.Model.{
  User, TxHash, GdpUnit, active, MintingRecord, MintStatus, initiated, checklist_pending, verified,
  minting, completed, rejected, Rejection, over_cap, call_failed, Purity, Gdp, Arithmetic,
  purity_factor, saleable_per_gram, reserve_per_gram, corpus_contribution_percent,
  earmarking_percentage,
}

unfoldable pub is_checklist_complete : MintingRecord → Bool
is_checklist_complete r =
    r.invoice_verified && r.jeweler_certified && r.nw_certified && r.within_cap
    && r.undertaking_signed

-- `float(self.gold_grams) * purity_factor`
abbrev pub float_gold : Arithmetic → MintingRecord → ℕ
float_gold ar r = ar.times (ar.float r.gold_grams) (ar.float (purity_factor r.purity))

unfoldable pub calculate_units : Arithmetic → MintingRecord → MintingRecord
calculate_units ar r =
    let pure_gold = float_gold ar r in
    let saleable = ar.trunc (ar.times pure_gold (ar.float (saleable_per_gram * 10000))) in
    let reserve = ar.trunc (ar.times pure_gold (ar.float (reserve_per_gram * 10000))) in
    record r {
      pure_gold_equivalent = ar.decimal pure_gold;
      saleable_units = saleable;
      reserve_units = reserve;
      units_to_mint = saleable + reserve;
    }

-- 500 g, and the rate if the oracle has none, 6500 INR.
abbrev pub minting_cap_grams : ℕ
minting_cap_grams = 5000000

abbrev pub default_rate : ℕ
default_rate = 650000

abbrev pub is_completed : MintStatus → Bool
is_completed completed = true
is_completed _ = false

abbrev pub is_completed_of : ℕ → MintingRecord → Bool
is_completed_of user r = (r.user == user) && is_completed r.status

abbrev pub pure_gold : MintingRecord → ℕ
pure_gold r = r.pure_gold_equivalent

unfoldable pub user_minted_grams : ℕ → List MintingRecord → ℕ
user_minted_grams user rs = sum pure_gold (filter (is_completed_of user) rs)

unfoldable pub exceeds_cap : ℕ → MintingRecord → Gdp → Bool
unfolding user_minted_grams
exceeds_cap user r s =
    ltb minting_cap_grams (user_minted_grams user s.records + r.pure_gold_equivalent)

abbrev pub benchmark : Option ℕ → ℕ
benchmark none = default_rate
benchmark (some rate) = rate

pub data Role : Type 0 where
  jeweler household investor minter admin other_role : Role

pub data MintError : Type 0 where
  jeweler_use_issue_jr role_not_permitted integrity_error cap_exceeded not_found forbidden :
      MintError
  jeweler_missing checklist_incomplete not_verified mint_failed : MintError

pub data MintReply : Type 0 where
  recorded : MintingRecord → MintReply
  minted : GdpUnit → MintReply
  mint_refused : MintError → MintReply

abbrev pub is_mint_role : Role → Bool
is_mint_role household = true
is_mint_role investor = true
is_mint_role minter = true
is_mint_role admin = true
is_mint_role _ = false

abbrev pub is_jeweler : Role → Bool
is_jeweler jeweler = true
is_jeweler _ = false

-- The roles are those that are active or pending.
unfoldable pub check_mint_role : User → List Role → Option MintError
check_mint_role user roles =
    if user.is_staff || any is_mint_role roles
    then none
    else if any is_jeweler roles
    then some jeweler_use_issue_jr
    else some role_not_permitted

abbrev pub has_record_id : ℕ → MintingRecord → Bool
has_record_id id r = r.id == id

abbrev pub save_record : MintingRecord → Gdp → Gdp
save_record r s = record s { records = save_row (has_record_id r.id) r s.records }

-- What a user asks for; the fields that the serializer lets a user set.
pub record MintRequest : Type 0 where
  pub gold_grams : ℕ
  pub purity : Purity
  pub invoice_verified : Bool
  pub jeweler_certified : Bool
  pub nw_certified : Bool
  pub undertaking_signed : Bool
  pub certifying_jeweler : Option ℕ

abbrev pub draft : ℕ → ℕ → MintRequest → MintingRecord
draft id user q = record {
  id = id;
  user = user;
  gold_grams = q.gold_grams;
  purity = q.purity;
  pure_gold_equivalent = 0;
  invoice_verified = q.invoice_verified;
  jeweler_certified = q.jeweler_certified;
  nw_certified = q.nw_certified;
  within_cap = false;
  undertaking_signed = q.undertaking_signed;
  certifying_jeweler = q.certifying_jeweler;
  units_to_mint = 0;
  saleable_units = 0;
  reserve_units = 0;
  earmarking_amount = 0;
  corpus_contribution = 0;
  status = initiated;
  rejection_reason = none;
  transaction_hash = none;
  completed_at = none;
}

abbrev pub with_amounts : Arithmetic → ℕ → MintingRecord → MintingRecord
with_amounts ar rate r = record r {
  earmarking_amount = ar.percent_of (float_gold ar r) rate earmarking_percentage;
  corpus_contribution = ar.percent_of (float_gold ar r) rate corpus_contribution_percent;
  within_cap = true;
}

-- `perform_create`. The cap and the amounts are computed with the gold as it is before a column
-- rounds it. The first save inserts the row without a `pure_gold_equivalent`; `inserted`
-- tells whether the database takes it.
unfoldable pub perform_create :
    Arithmetic → Bool → ℕ → ℕ → Option ℕ → MintRequest → Gdp → MintReply × Gdp
unfolding calculate_units user_minted_grams
perform_create ar false id user rate q s = (mint_refused integrity_error, s)
perform_create ar true id user rate q s =
    let r = calculate_units ar (draft id user q) in
    let r' = with_amounts ar (benchmark rate) r in
    if ar.sum_exceeds (user_minted_grams user s.records) (float_gold ar r) minting_cap_grams
    then (mint_refused cap_exceeded, s)
    else (recorded r', record s { records = r' ∷ s.records })

unfoldable pub create :
    Arithmetic → Bool → ℕ → User → List Role → Option ℕ → MintRequest → Gdp → MintReply × Gdp
unfolding check_mint_role perform_create
create ar inserted id user roles rate q s = elim (check_mint_role user roles) [
  | some e ↦ (mint_refused e, s)
  | none ↦ perform_create ar inserted id user.id rate q s
]

pub record Checklist : Type 0 where
  pub invoice_verified : Bool
  pub jeweler_certified : Bool
  pub nw_certified : Bool
  pub undertaking_signed : Bool
  -- The profile that `certifying_jeweler_id` names: none if it is not given.
  pub certifying_jeweler : Option ℕ

abbrev pub or_old : Option ℕ → Option ℕ → Option ℕ
or_old none old = old
or_old (some j) old = some j

unfoldable pub check : Checklist → MintingRecord → MintingRecord
unfolding is_checklist_complete
check c r =
    let r' : MintingRecord = record r {
      invoice_verified = c.invoice_verified;
      jeweler_certified = c.jeweler_certified;
      nw_certified = c.nw_certified;
      within_cap = true;
      undertaking_signed = c.undertaking_signed;
      certifying_jeweler = or_old c.certifying_jeweler r.certifying_jeweler;
    } in
    record r' { status = if is_checklist_complete r' then verified else checklist_pending }

-- `get_object`: the queryset holds the user's own records.
abbrev pub is_user_of : ℕ → MintingRecord → Bool
is_user_of user r = r.user == user

unfoldable pub get_record : ℕ → ℕ → Gdp → Option MintingRecord
get_record user id s = only (is_user_of user) (find? (has_record_id id) s.records)

abbrev pub may_act : User → MintingRecord → Bool
may_act user r = user.is_staff || (r.user == user.id)

-- `known` tells whether a certifying jeweler that is named has a profile.
unfoldable pub verify_checklist : User → ℕ → Bool → Checklist → Gdp → MintReply × Gdp
unfolding check get_record
verify_checklist user id known c s = elim (get_record user.id id s) [
  | none ↦ (mint_refused not_found, s)
  | some r ↦
      if not (may_act user r)
      then (mint_refused forbidden, s)
      else if not known
      then (mint_refused jeweler_missing, s)
      else (recorded (check c r), save_record (check c r) s)
]

abbrev pub new_unit : Arithmetic → ℕ → ℕ → ℕ → TxHash → MintingRecord → GdpUnit
new_unit ar id now rate h r = record {
  id = id;
  owner = r.user;
  gold_grams = r.gold_grams;
  purity = r.purity;
  pure_gold_equivalent = r.pure_gold_equivalent;
  benchmark_rate_at_mint = rate;
  benchmark_value = ar.quantize 4 (r.pure_gold_equivalent * rate);
  saleable_units = r.saleable_units;
  reserve_units = r.reserve_units;
  total_units = r.units_to_mint;
  status = active;
  source_jeweler = r.certifying_jeweler;
  minting_record = some r.id;
  minting_tx_hash = h;
  minted_at = now;
}

abbrev pub complete : ℕ → TxHash → MintingRecord → MintingRecord
complete now h r = record r {
  status = completed;
  transaction_hash = some h;
  completed_at = some now;
}

abbrev pub reject : Rejection → MintingRecord → MintingRecord
reject why r = record r { status = rejected; rejection_reason = some why }

-- The `try` block; `tx` is what the chain answers, none if anything in the block raises.
unfoldable pub mint_verified :
    Arithmetic → ℕ → ℕ → Option ℕ → Option TxHash → MintingRecord → Gdp → MintReply × Gdp
mint_verified ar id now rate none r s =
    let s' = save_record (record r { status = minting }) s in
    (mint_refused mint_failed, save_record (reject call_failed r) s')
mint_verified ar id now rate (some h) r s =
    let s' = save_record (record r { status = minting }) s in
    let u = new_unit ar id now (benchmark rate) h r in
    (minted u, save_record (complete now h r) (record s' { units = u ∷ s'.units }))

abbrev pub is_verified : MintStatus → Bool
is_verified verified = true
is_verified _ = false

unfoldable pub execute_mint :
    Arithmetic → User → ℕ → ℕ → ℕ → Option ℕ → Option TxHash → Gdp → MintReply × Gdp
unfolding is_checklist_complete exceeds_cap mint_verified get_record
execute_mint ar user id unit now rate tx s = elim (get_record user.id id s) [
  | none ↦ (mint_refused not_found, s)
  | some r ↦
      if not (may_act user r)
      then (mint_refused forbidden, s)
      else if not (is_checklist_complete r)
      then (mint_refused checklist_incomplete, s)
      else if not (is_verified r.status)
      then (mint_refused not_verified, s)
      else if exceeds_cap r.user r s
      then (mint_refused cap_exceeded, save_record (reject over_cap r) s)
      else mint_verified ar unit now rate tx r s
]

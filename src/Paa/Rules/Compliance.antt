-- ===== src/Paa/Rules/Compliance.antt =====
-- What the rules engine lets through.
use irg_gdp.Base.{
  ℕ, ◌≡◌, ◌≢◌, ◌⊎◌, refl, true, false, Option, none, some, List, [], ◌∷◌, ◌++◌, arith, any, find?,
  Option-cases, inl, inr,
}
use irg_gdp.Base.Int.{ℤ, pos, ◌+ℤ◌, ◌-ℤ◌, ◌≤ℤ◌, scale, leb_ℤ}
use irg_gdp.Paa.Schema.{TxType, Category, Currency, Overrides, routing, approval_level, to_usd}
use irg_gdp.Paa.Model.{CorpusFund, Transaction, CategoryBudget, Budget}
use irg_gdp.Paa.Rules.{
  Candidate, RuleError, schema_errors, has_key, is_category, budget_errors, total_usd, min_ratio,
  is_payment, ratio_errors, Plan, Verdict, planned, plan, validate_known, validate_schema, validate,
}

-- The candidate fits into the budget: the category has an entry whose limit is 0 or is kept.
abbrev pub WithinBudget : Option Budget → Category → ℤ → Type 0
WithinBudget none cat amount = Unit
WithinBudget (some b) cat amount =
    (e : CategoryBudget) × (find? (is_category cat) b.categories ≡ some e)
    × ((e.max_limit ≡ 0) ⊎ ((e.current_utilization +ℤ amount) ≤ℤ pos e.max_limit))

-- The funds keep the ratio: what is left is at least `ratio` ten-thousandths of the total.
abbrev pub KeepsRatio : ℕ → ℤ → ℤ → Type 0
KeepsRatio ratio total tx = (total ≤ℤ pos 0) ⊎ (scale ratio total ≤ℤ scale 10000 (total -ℤ tx))

within :
    (b : Option Budget) (cat : Category) (amount : ℤ)
    → budget_errors b cat amount ≡ []
    → WithinBudget b cat amount
unfolding budget_errors
within none cat amount h = tt
within (some b) cat amount h = elim (Option-cases (find? (is_category cat) b.categories)) [
  | inl e ↦ ground arith
  | inr (x, e) ↦ (x, e, ground arith)
]

keeps :
    (o : Overrides) (b : Option Budget) (fs : List CorpusFund) (ty : TxType) (amount : ℤ)
    (cur : Currency)
    → ratio_errors o b fs ty amount cur ≡ []
    → (is_payment ty ≡ false) ⊎ KeepsRatio (min_ratio b) (total_usd o fs) (to_usd o amount cur)
unfolding ratio_errors
keeps o b fs ty amount cur h = ground arith

append_nil {ℓ} : {A : Type ℓ} (xs ys : List A) → xs ++ ys ≡ [] → (xs ≡ []) × (ys ≡ [])
append_nil [] ys h = (refl, h)
append_nil (x ∷ xs) ys h = ground arith

known :
    (o : Overrides) (b : Option Budget) (fs : List CorpusFund) (txs : List Transaction)
    (c : Candidate) (cat : Category) (cur : Currency) (p : Plan)
    → validate_known o b fs txs c cat cur ≡ planned p
    → (any (has_key c.idempotency_key) txs ≡ false)
      × (budget_errors b cat c.amount ++ ratio_errors o b fs c.tx_type c.amount cur ≡ [])
      × (p ≡ plan o b c cat cur)
unfolding validate_known
known o b fs txs c cat cur p h = ground arith

schema :
    (es : List RuleError) (cat : Option Category) (cur : Option Currency)
    (k : Category → Currency → Verdict) (p : Plan)
    → validate_schema es cat cur k ≡ planned p
    → (es ≡ [])
      × ((a : Category) × (u : Currency) × (cat ≡ some a) × (cur ≡ some u) × (k a u ≡ planned p))
schema [] (some a) (some u) k p h = (refl, (a, u, refl, refl, h))
schema [] (some a) none k p h = ground arith
schema [] none cur k p h = ground arith
schema (e ∷ es) cat cur k p h = ground arith

-- What holds of a candidate that is planned.
abbrev pub Complies :
    Overrides → Option Budget → List CorpusFund → List Transaction → Candidate → Plan → Type 0
Complies o b fs txs c p =
    (c.category ≡ some p.category)
    × (c.currency ≡ some p.currency)
    × (leb_ℤ c.amount (pos 0) ≡ false)
    × (any (has_key c.idempotency_key) txs ≡ false)
    × WithinBudget b p.category c.amount
    × ((is_payment c.tx_type ≡ false)
        ⊎ KeepsRatio (min_ratio b) (total_usd o fs) (to_usd o c.amount p.currency))
    × (p.usd_amount ≡ to_usd o c.amount p.currency)
    × (p.required_approval ≡ approval_level p.usd_amount)
    × (p.destination ≡ routing p.category)

positive : (c : Candidate) → schema_errors c ≡ [] → leb_ℤ c.amount (pos 0) ≡ false
unfolding schema_errors
positive c h = ground arith

complying :
    (o : Overrides) (b : Option Budget) (fs : List CorpusFund) (txs : List Transaction)
    (c : Candidate) (cat : Category) (cur : Currency)
    → schema_errors c ≡ []
    → c.category ≡ some cat
    → c.currency ≡ some cur
    → any (has_key c.idempotency_key) txs ≡ false
    → budget_errors b cat c.amount ++ ratio_errors o b fs c.tx_type c.amount cur ≡ []
    → Complies o b fs txs c (plan o b c cat cur)
unfolding plan
complying o b fs txs c cat cur n a u k e =
    let (eb, er) =
      append_nil (budget_errors b cat c.amount) (ratio_errors o b fs c.tx_type c.amount cur) e in
    (
      a,
      u,
      positive c n,
      k,
      within b cat c.amount eb,
      keeps o b fs c.tx_type c.amount cur er,
      refl,
      refl,
      refl,
    )

-- A candidate that is planned names a known category and currency and a positive amount, has an
-- idempotency key that no row has, keeps its category's budget unless the limit is 0, and as a
-- payment keeps the corpus ratio unless the funds are not positive; its plan has the amount in USD, the level of that
-- amount and the fund of its category.
pub validate_planned :
    (o : Overrides) (b : Option Budget) (fs : List CorpusFund) (txs : List Transaction)
    (c : Candidate) (p : Plan)
    → validate o b fs txs c ≡ planned p
    → Complies o b fs txs c p
unfolding validate
validate_planned o b fs txs c p h =
    let (n, (cat, cur, a, u, k)) =
      schema (schema_errors c) c.category c.currency (validate_known o b fs txs c) p h in
    let (key, e, r) = known o b fs txs c cat cur p k in
    rw r (complying o b fs txs c cat cur n a u key e)

-- A used idempotency key is refused, whatever else the candidate says.
pub validate_used_key :
    (o : Overrides) (b : Option Budget) (fs : List CorpusFund) (txs : List Transaction)
    (c : Candidate) (p : Plan)
    → any (has_key c.idempotency_key) txs ≡ true
    → validate o b fs txs c ≢ planned p
validate_used_key o b fs txs c p u h = let k = (validate_planned o b fs txs c p h).3 in ground arith

-- ===== src/Paa/Transactions/Execution.antt =====
-- What one execution does to the funds, the budget and the row.
use irg_gdp.Base.{
  ℕ, suc, ◌≤◌, leb, length, length-append, ◌≡◌, refl, true, false, Option, none, some, List, [],
  ◌∷◌, arith, any, find?, update_where, find?-update_where, ◌==◌, if◌then◌else◌, Bool-cases,
  Option-cases, inl, inr, sym, ap, ◌∙◌, ==_refl, ==_iff,
}
use irg_gdp.Base.Int.{ℤ, pos, ◌+ℤ◌, +ℤ_parts, eq_of_parts}
use irg_gdp.Paa.Schema.{
  oracle_requirements, Currency, Category, executed, approved, cancelled, same_currency,
  currency_code,
}
use irg_gdp.Paa.Model.{Balance, CorpusFund, CategoryBudget, Budget, Transaction, Paa}
use irg_gdp.Paa.Rules.{is_category}
use irg_gdp.Paa.Transactions.{
  approved_by, needed, add_approval, approve_transaction, is_closed, cancel_transaction, missing,
  done, delta, add_balance, is_fund, credit_fund, credit, use_category, raise_utilization,
  is_approved, perform, execute_row, execute_transaction, get_transaction, save_transaction, has_id,
}
use irg_gdp.Paa.Transactions.Ledger.{has_oracles, missing_none}

-- What an account has in a currency: its first entry of it.
abbrev pub held : Currency → List Balance → ℤ
held c [] = pos 0
held c (b ∷ bs) = let rest = held c bs in if same_currency b.currency c then b.balance else rest

abbrev pub fund_holds : ℕ → Currency → List CorpusFund → Option ℤ
fund_holds k c [] = none
fund_holds k c (f ∷ fs) =
    let rest = fund_holds k c fs in if is_fund k f then some (held c f.balances) else rest

zero_add : (d : ℤ) → pos 0 +ℤ d ≡ d
zero_add d = ground (arith, +ℤ_parts (pos 0) d, eq_of_parts (pos 0 +ℤ d) d)

==_left : (x y z : ℕ) → (x == y) ≡ true → (x == z) ≡ (y == z)
==_left x y z h = ground arith

==_other : (x y z : ℕ) → (x == y) ≡ false → (x == z) ≡ true → (y == z) ≡ false
==_other x y z h k = ground arith

held-add_balance_same :
    (c : Currency) (d : ℤ) (bs : List Balance) → held c (add_balance c d bs) ≡ held c bs +ℤ d
unfolding add_balance
held-add_balance_same c d [] = rw (==_refl (currency_code c)) (sym (zero_add d))
held-add_balance_same c d (b ∷ bs) = elim (Bool-cases (same_currency b.currency c)) [
  | inl e ↦ rw (e, e)
  | inr e ↦ rw (e, e, held-add_balance_same c d bs)
]

held-add_balance_other :
    (c e : Currency) (d : ℤ) (bs : List Balance)
    → same_currency c e ≡ false
    → held e (add_balance c d bs) ≡ held e bs
unfolding add_balance
held-add_balance_other c e d [] h = rw h
held-add_balance_other c e d (b ∷ bs) h = elim (Bool-cases (same_currency b.currency c)) [
  | inl x ↦
      let y = ==_left (currency_code b.currency) (currency_code c) (currency_code e) x ∙ h in
      rw (x, y)
  | inr x ↦ rw (x, held-add_balance_other c e d bs h)
]

-- The amount of a transaction, if it is of the currency.
abbrev pub share_of : Currency → Transaction → ℤ → ℤ
share_of c t z = if same_currency t.currency c then z +ℤ delta t else z

held-code : (c e : Currency) (bs : List Balance) → same_currency c e ≡ true → held c bs ≡ held e bs
held-code c e [] h = refl
held-code c e (b ∷ bs) h = rw ((==_iff (currency_code c) (currency_code e)).0 h, held-code c e bs h)

held-credit :
    (c : Currency) (t : Transaction) (bs : List Balance)
    → held c (add_balance t.currency (delta t) bs) ≡ share_of c t (held c bs)
held-credit c t bs = elim (Bool-cases (same_currency t.currency c)) [
  | inl e ↦
      let x = sym (held-code t.currency c (add_balance t.currency (delta t) bs) e) in
      let y = ap (λ z. z +ℤ delta t) (held-code t.currency c bs e) in
      rw e (x ∙ held-add_balance_same t.currency (delta t) bs ∙ y)
  | inr e ↦ rw e (held-add_balance_other t.currency c (delta t) bs e)
]

abbrev pub map_option : {A B : Type 0} → (A → B) → Option A → Option B
map_option f none = none
map_option f (some a) = some (f a)

abbrev pub moved : Option ℕ → ℕ → Currency → Transaction → ℤ → ℤ
moved none k c t z = z
moved (some j) k c t z = if j == k then share_of c t z else z

fund_holds-update :
    (j k : ℕ) (c : Currency) (t : Transaction) (fs : List CorpusFund)
    → fund_holds k c (update_where (is_fund j) (credit_fund t) fs)
      ≡ map_option (moved (some j) k c t) (fund_holds k c fs)
fund_holds-update j k c t [] = refl
fund_holds-update j k c t (f ∷ fs) = elim (Bool-cases (is_fund j f)) [
  | inl x ↦ elim (Bool-cases (is_fund k f)) [
    | inl y ↦ rw (x, y, sym (==_left f.id j k x), y) (ap some (held-credit c t f.balances))
    | inr y ↦ rw (x, y, fund_holds-update j k c t fs)
  ]
  | inr x ↦ elim (Bool-cases (is_fund k f)) [
    | inl y ↦ rw (x, y, ==_other f.id j k x y)
    | inr y ↦ rw (x, y, fund_holds-update j k c t fs)
  ]
]

map-moved-none :
    (k : ℕ) (c : Currency) (t : Transaction) (o : Option ℤ) → o ≡ map_option (moved none k c t) o
map-moved-none k c t none = refl
map-moved-none k c t (some z) = refl

-- What each fund holds of a currency after the credit: the target's first entry of the currency is
-- moved by the signed amount, and nothing else is.
fund_holds-credit :
    (k : ℕ) (c : Currency) (t : Transaction) (fs : List CorpusFund)
    → fund_holds k c (credit t fs) ≡ map_option (moved t.to_account_id k c t) (fund_holds k c fs)
unfolding credit
fund_holds-credit k c t fs = elim (Option-cases t.to_account_id) [
  | inl e ↦ rw (e) (map-moved-none k c t (fund_holds k c fs))
  | inr (j, e) ↦ rw (e) (fund_holds-update j k c t fs)
]

abbrev pub used_of : Category → List CategoryBudget → Option ℤ
used_of c [] = none
used_of c (e ∷ es) =
    let rest = used_of c es in if is_category c e then some e.current_utilization else rest

-- The utilisation of a category in the first active budget.
abbrev pub used : Category → List Budget → Option ℤ
used c [] = none
used c (b ∷ bs) = let rest = used c bs in if b.is_active then used_of c b.categories else rest

used_of-update :
    (c : Category) (amount : ℤ) (es : List CategoryBudget)
    → used_of c (update_where (is_category c) (use_category amount) es)
      ≡ map_option (λ z. z +ℤ amount) (used_of c es)
used_of-update c amount [] = refl
used_of-update c amount (e ∷ es) = elim (Bool-cases (is_category c e)) [
  | inl x ↦ rw (x, x)
  | inr x ↦ rw (x, x, used_of-update c amount es)
]

used-raise_utilization :
    (t : Transaction) (bs : List Budget)
    → used t.category (raise_utilization t bs)
      ≡ map_option (λ z. z +ℤ t.amount) (used t.category bs)
unfolding raise_utilization
used-raise_utilization t [] = refl
used-raise_utilization t (b ∷ bs) = elim (Bool-cases b.is_active) [
  | inl x ↦ rw (x) (used_of-update t.category t.amount b.categories)
  | inr x ↦ rw (x, used-raise_utilization t bs)
]

find-id :
    (id : ℕ) (t : Transaction) (xs : List Transaction) → find? (has_id id) xs ≡ some t → t.id ≡ id
find-id id t [] h = ground arith
find-id id t (x ∷ xs) h = ground (arith, find-id id t xs)

find-save_at :
    (j id : ℕ) (t u : Transaction) (xs : List Transaction)
    → j ≡ id
    → (u.id == id) ≡ true
    → find? (has_id id) xs ≡ some t
    → find? (has_id id) (update_where (has_id j) (λ _. u) xs) ≡ some u
find-save_at j id t u xs k e h = rw k (find?-update_where (has_id id) u t xs e h)

get-save :
    (id : ℕ) (t u : Transaction) (s : Paa)
    → u.id ≡ t.id
    → get_transaction id s ≡ some t
    → get_transaction id (save_transaction u s) ≡ some u
get-save id t u s e h =
    let k = e ∙ find-id id t s.transactions h in
    find-save_at u.id id t u s.transactions k ((==_iff u.id id).1 k) h

inverted :
    (id actor : ℕ) (t' : Transaction) (s : Paa)
    → (execute_transaction id actor s).0 ≡ done t'
    → (t : Transaction) × (get_transaction id s ≡ some t)
      × (is_approved t.status ≡ true)
      × (missing t.oracle_confirmations (oracle_requirements t.category) ≡ [])
      × (t' ≡ record t { status = executed })
      × (execute_transaction id actor s ≡ execute_row actor t [] s)
unfolding execute_transaction execute_row
inverted id actor t' s h = elim (Option-cases (get_transaction id s)) [
  | inl e ↦ ground arith
  | inr (t, e) ↦
      let b : is_approved t.status ≡ true = ground arith in
      let m : missing t.oracle_confirmations (oracle_requirements t.category) ≡ [] = ground arith in
      (t, e, b, m, ground arith, rw (execute_transaction, e, b, m))
]

-- An execution that answers `ok` was of an approved row whose required oracles are confirmed. The row
-- is then executed; each fund holds of each currency what it held, moved by the signed amount if the
-- fund is the row's account and the currency the row's; and the utilisation of the row's category in the active budget
-- is raised by the amount.
pub execute_ok :
    (id actor k : ℕ) (c : Currency) (t' : Transaction) (s : Paa)
    → (execute_transaction id actor s).0 ≡ done t'
    → let s' = (execute_transaction id actor s).1 in
      (t : Transaction) × (get_transaction id s ≡ some t)
      × (is_approved t.status ≡ true)
      × (has_oracles t ≡ true)
      × (t' ≡ record t { status = executed })
      × (get_transaction id s' ≡ some t')
      × (fund_holds k c s'.funds
          ≡ map_option (moved t.to_account_id k c t) (fund_holds k c s.funds))
      × (used t.category s'.budgets ≡ map_option (λ z. z +ℤ t.amount) (used t.category s.budgets))
unfolding execute_row
execute_ok id actor k c t' s h =
    let (t, e, b, m, r, x) = inverted id actor t' s h in
    (
      t,
      e,
      b,
      missing_none t.oracle_confirmations (oracle_requirements t.category) m,
      r,
      rw (x, r, execute_row) (get-save id t (record t { status = executed }) s refl e),
      rw (x, execute_row, perform) (fund_holds-credit k c t s.funds),
      rw (x, execute_row, perform) (used-raise_utilization t s.budgets),
    )

-- An approval by a new actor with which the votes are enough for the level makes a known
-- transaction approved, whatever its status was, executed and cancelled included, with one vote
-- more.
pub approval_reopens :
    (id actor role : ℕ) (t : Transaction) (s : Paa)
    → get_transaction id s ≡ some t
    → any (approved_by actor) t.approvals ≡ false
    → needed t.required_approval ≤ suc (length t.approvals)
    → (t' : Transaction) × (get_transaction id (approve_transaction id actor role s).1 ≡ some t')
      × (t'.status ≡ approved)
      × (length t'.approvals ≡ suc (length t.approvals))
unfolding approve_transaction add_approval
approval_reopens id actor role t s e f n =
    let b : leb (needed t.required_approval) (suc (length t.approvals)) ≡ true = ground arith in
    (
      add_approval actor role t,
      rw (approve_transaction, e, f) (get-save id t (add_approval actor role t) s refl e),
      rw b,
      omega (arith, length-append t.approvals (record { actor = actor; role = role } ∷ [])),
    )

-- A cancellation that answers `ok` was of a row neither executed nor cancelled, which is cancelled
-- then; the funds and the budgets are as before.
pub cancel_ok :
    (id actor : ℕ) (t' : Transaction) (s : Paa)
    → (cancel_transaction id actor s).0 ≡ done t'
    → let s' = (cancel_transaction id actor s).1 in
      (t : Transaction) × (get_transaction id s ≡ some t)
      × (is_closed t.status ≡ false)
      × (t' ≡ record t { status = cancelled })
      × (get_transaction id s' ≡ some t')
      × (s'.funds ≡ s.funds)
      × (s'.budgets ≡ s.budgets)
unfolding cancel_transaction
cancel_ok id actor t' s h = elim (Option-cases (get_transaction id s)) [
  | inl e ↦ ground arith
  | inr (t, e) ↦
      let b : is_closed t.status ≡ false = ground arith in
      let r : t' ≡ record t { status = cancelled } = ground arith in
      (
        t,
        e,
        b,
        r,
        rw (cancel_transaction, e, b, r) (get-save id t (record t { status = cancelled }) s refl e),
        rw (cancel_transaction, e, b),
        rw (cancel_transaction, e, b),
      )
]

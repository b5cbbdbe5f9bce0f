-- ===== src/Recall/Execution/Burning.antt =====
-- What a recall does to the GDP units, and what undoes it.
use irg_gdp.Base.{
  ℕ, ◌≡◌, ◌≢◌, refl, sym, ◌∙◌, Bool, true, false, Option, none, some, List, [], ◌∷◌, arith, all,
  any, find?, ◌==◌, has_key_of, find?-save_row, find?-save_other, find?-own, save_row, ==_iff,
  Option-cases, Bool-cases, inl, inr,
}
use irg_gdp.Gdp.Model.{GdpUnit, burned, Gdp, has_unit_id}
use irg_gdp.Recall.Model.{RecallOrder, Recall, order_id, save_order}
use irg_gdp.Recall.Execution.{
  burn, burn_one, burn_all, start_order, recall_refused, not_approved, execute, execute_order,
  get_order, is_approved, order_is, complete_order,
}

abbrev pub is_burned : Option GdpUnit → Bool
is_burned none = true
is_burned (some u) = elim u.status [ burned ↦ true | _ ↦ false ]

-- The unit is burned, if there is one of this key.
abbrev pub is_gone : Gdp → ℕ → Bool
is_gone g id = is_burned (find? (has_unit_id id) g.units)

abbrev pub unit_key : GdpUnit → ℕ
unit_key u = u.id

pub saved_at :
    (k id : ℕ) (y u : GdpUnit) (us : List GdpUnit)
    → k ≡ id
    → has_unit_id id y ≡ true
    → find? (has_unit_id id) us ≡ some u
    → find? (has_unit_id id) (save_row (has_unit_id k) y us) ≡ some y
saved_at k id y u us e h f = rw e (find?-save_row (has_unit_id id) y u us h f)

-- A unit that exists is found burned after its round.
burned_there :
    (id : ℕ) (u : GdpUnit) (us : List GdpUnit)
    → find? (has_unit_id id) us ≡ some u
    → find? (has_unit_id id) (save_row (has_unit_id u.id) (burn u) us) ≡ some (burn u)
burned_there id u us f =
    let (_, e) = find?-own unit_key id u us f in
    saved_at u.id id (burn u) u us e (ground (arith, e)) f

burned_elsewhere :
    (i id : ℕ) (u : GdpUnit) (us : List GdpUnit)
    → find? (has_unit_id i) us ≡ some u
    → i ≢ id
    → find? (has_unit_id id) (save_row (has_unit_id u.id) (burn u) us) ≡ find? (has_unit_id id) us
burned_elsewhere i id u us f n =
    let (_, e) = find?-own unit_key i u us f in
    find?-save_other unit_key id u.id (burn u) us refl (λ k. n (sym e ∙ k))

burn_one-gone :
    (order now id : ℕ) (s : Recall) (g : Gdp) → is_gone (burn_one order now id (s, g)).1 id ≡ true
unfolding burn_one
burn_one-gone order now id s g = elim (Option-cases (find? (has_unit_id id) g.units)) [
  | inl e ↦ rw (burn_one, e, e) refl
  | inr (u, e) ↦ rw (burn_one, e, burned_there id u g.units e) refl
]

-- A round for one unit leaves the others as they were.
burn_one-other :
    (order now i id : ℕ) (s : Recall) (g : Gdp)
    → i ≢ id
    → find? (has_unit_id id) (burn_one order now i (s, g)).1.units ≡ find? (has_unit_id id) g.units
unfolding burn_one
burn_one-other order now i id s g n = elim (Option-cases (find? (has_unit_id i) g.units)) [
  | inl e ↦ rw (burn_one, e) refl
  | inr (u, e) ↦ rw (burn_one, e) (burned_elsewhere i id u g.units e n)
]

same_gone :
    (i id order now : ℕ) (s : Recall) (g : Gdp)
    → i ≡ id
    → is_gone (burn_one order now i (s, g)).1 id ≡ true
same_gone i id order now s g e = rw (← e) (burn_one-gone order now i s g)

burn_one-keeps :
    (order now i id : ℕ) (s : Recall) (g : Gdp)
    → is_gone g id ≡ true
    → is_gone (burn_one order now i (s, g)).1 id ≡ true
burn_one-keeps order now i id s g h = elim (Bool-cases (i == id)) [
  | inl e ↦ same_gone i id order now s g ((==_iff i id).0 e)
  | inr e ↦ rw (burn_one-other order now i id s g (λ k. absurd (ground (arith, e, k)))) h
]

burn_all-keeps :
    (order now id : ℕ) (ids : List ℕ) (s : Recall) (g : Gdp)
    → is_gone g id ≡ true
    → is_gone (burn_all order now ids (s, g)).1 id ≡ true
unfolding burn_all
burn_all-keeps order now id [] s g h = h
burn_all-keeps order now id (i ∷ ids) s g h =
    burn_all-keeps order now id ids (burn_one order now i (s, g)).0 (burn_one order now i (s, g)).1
      (burn_one-keeps order now i id s g h)

burn_all-gone :
    (order now : ℕ) (ids : List ℕ) (s : Recall) (g : Gdp)
    → all (is_gone (burn_all order now ids (s, g)).1) ids ≡ true
unfolding burn_all
burn_all-gone order now [] s g = refl
burn_all-gone order now (i ∷ ids) s g =
    let x = burn_one order now i (s, g) in
    let a = burn_all-keeps order now i ids x.0 x.1 (burn_one-gone order now i s g) in
    let b = burn_all-gone order now ids x.0 x.1 in ground (arith, a, b)

burn_all-other :
    (order now id : ℕ) (ids : List ℕ) (s : Recall) (g : Gdp)
    → any (λ i. i == id) ids ≡ false
    → find? (has_unit_id id) (burn_all order now ids (s, g)).1.units
      ≡ find? (has_unit_id id) g.units
unfolding burn_all
burn_all-other order now id [] s g h = refl
burn_all-other order now id (i ∷ ids) s g h =
    let x = burn_one order now i (s, g) in
    burn_all-other order now id ids x.0 x.1 (ground (arith, h))
    ∙ burn_one-other order now i id s g (λ k. absurd (ground (arith, h, k)))

-- What a recall that is executed leaves: every target that exists is burned, and no other unit has
-- changed.
abbrev pub IsRecalled : List ℕ → Gdp → Gdp → Type 0
IsRecalled ids g g' =
    (all (is_gone g') ids ≡ true)
    × ((id : ℕ)
        → any (λ i. i == id) ids ≡ false
        → find? (has_unit_id id) g'.units ≡ find? (has_unit_id id) g.units)

pub execute-IsRecalled :
    (id now h : ℕ) (s : Recall) (g : Gdp) (o : RecallOrder)
    → get_order id s ≡ some o
    → is_approved o.status ≡ true
    → ((execute id now (some h) (s, g)).0 ≡ order_is (complete_order now h o))
      × IsRecalled o.target_units g (execute id now (some h) (s, g)).1.1
unfolding execute execute_order
execute-IsRecalled id now h s g o f a =
    rw (execute, f, a)
      (
        refl,
        (
          burn_all-gone o.id now o.target_units (save_order (start_order o) s) g,
          λ i n. burn_all-other o.id now i o.target_units (save_order (start_order o) s) g n,
        ),
      )

order_at :
    (k id : ℕ) (y o : RecallOrder) (os : List RecallOrder)
    → k ≡ id
    → has_key_of order_id id y ≡ true
    → find? (has_key_of order_id id) os ≡ some o
    → find? (has_key_of order_id id) (save_row (has_key_of order_id k) y os) ≡ some y
order_at k id y o os e h f = rw e (find?-save_row (has_key_of order_id id) y o os h f)

-- The row that was saved in an order's place is found under its key.
pub saved_order :
    (id : ℕ) (y o : RecallOrder) (s : Recall)
    → y.id ≡ o.id
    → get_order id s ≡ some o
    → get_order id (save_order y s) ≡ some y
saved_order id y o s e f =
    let (_, k) = find?-own order_id id o s.orders f in
    order_at y.id id y o s.orders (e ∙ k) (ground (arith, e, k)) f

failed_state :
    (id now : ℕ) (s : Recall) (g : Gdp) (o : RecallOrder)
    → get_order id s ≡ some o
    → is_approved o.status ≡ true
    → (execute id now none (s, g)).1 ≡ (save_order (start_order o) s, g)
unfolding execute execute_order
failed_state id now s g o f a = rw (execute, f, a) refl

refused_state :
    (id later : ℕ) (tx : Option ℕ) (s : Recall) (g : Gdp) (o : RecallOrder)
    → get_order id s ≡ some o
    → is_approved o.status ≡ false
    → execute id later tx (s, g) ≡ (recall_refused not_approved, (s, g))
unfolding execute
refused_state id later tx s g o f a = rw (execute, f, a) refl

-- If the call of the chain fails, the order stays in execution, so that a later execution of it is
-- refused and no unit is burned.
pub failed_order_strands :
    (id now later : ℕ) (tx : Option ℕ) (s : Recall) (g : Gdp) (o : RecallOrder)
    → get_order id s ≡ some o
    → is_approved o.status ≡ true
    → ((execute id later tx (execute id now none (s, g)).1).0 ≡ recall_refused not_approved)
      × ((execute id later tx (execute id now none (s, g)).1).1.1 ≡ g)
failed_order_strands id now later tx s g o f a =
    let x = saved_order id (start_order o) o s refl f in
    rw
      (
        failed_state id now s g o f a,
        refused_state id later tx (save_order (start_order o) s) g (start_order o) x refl,
      )
      (refl, refl)

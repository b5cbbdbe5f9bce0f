-- ===== src/Gdp/Trading/Matching.antt =====
-- Which order a new order is matched with.
use irg_gdp.Base.{
  ◌≡◌, sym, Bool, true, false, ◌&&◌, Option, none, some, List, arith, filter, any, least, IsOrder,
  is_first, find?-order_by, least-filter, least_first, any-least-none, ◌∙◌, ltb, leb, ◌==◌, ◌||◌,
}
use mathlib.Core.Path.{subst}
use irg_gdp.Gdp.Model.{TradeRecord, TradeType, buy, sell}
use irg_gdp.Gdp.Trading.{is_compatible, has_priority, matches, has_units_of, first_match}

has_priority-IsOrder : (k : TradeType) → IsOrder (has_priority k)
unfolding has_priority
has_priority-IsOrder buy = record {
  total = λ x y h. ground arith;
  trans = λ x y z h g. ground arith;
}
has_priority-IsOrder sell = record {
  total = λ x y h. ground arith;
  trans = λ x y z h g. ground arith;
}

-- An order that can be matched with `t`: of the other type, pending, at a price that meets that of
-- `t`, and for as many units.
abbrev pub is_matchable : TradeRecord → TradeRecord → Bool
is_matchable t m = is_compatible t m && has_units_of t m

-- The sorted query and the loop of the code find the same order as one pass over the table that
-- keeps the best matchable order.
pub first_match-least :
    (t : TradeRecord) (ts : List TradeRecord)
    → first_match t ts ≡ least (has_priority t.trade_type) (is_matchable t) ts
unfolding first_match matches
first_match-least t ts =
    find?-order_by (has_priority t.trade_type) (has_priority-IsOrder t.trade_type) (has_units_of t)
      (filter (is_compatible t) ts)
    ∙ least-filter (has_priority t.trade_type) (has_units_of t) (is_compatible t) ts

-- `a` is at a better price than `b` for an order of this type, or at the same price and not later.
abbrev pub comes_first : TradeType → TradeRecord → TradeRecord → Bool
comes_first buy a b =
    ltb a.price_per_unit b.price_per_unit
    || ((a.price_per_unit == b.price_per_unit) && leb a.created_at b.created_at)
comes_first sell a b =
    ltb b.price_per_unit a.price_per_unit
    || ((a.price_per_unit == b.price_per_unit) && leb a.created_at b.created_at)

has_priority-comes_first :
    (k : TradeType) (a b : TradeRecord) → has_priority k a b ≡ comes_first k a b
unfolding has_priority
has_priority-comes_first buy a b = ground arith
has_priority-comes_first sell a b = ground arith

-- What an answer of the search says.
abbrev pub IsBest : TradeRecord → List TradeRecord → Option TradeRecord → Type 0
IsBest t ts none = any (is_matchable t) ts ≡ false
IsBest t ts (some m) =
    (is_matchable t m ≡ true) × (is_first (comes_first t.trade_type) (is_matchable t) m ts ≡ true)

least-IsBest :
    (t : TradeRecord) (ts : List TradeRecord) (o : Option TradeRecord)
    → least (has_priority t.trade_type) (is_matchable t) ts ≡ o
    → IsBest t ts o
least-IsBest t ts none e = any-least-none (has_priority t.trade_type) (is_matchable t) ts e
least-IsBest t ts (some m) e =
    let (h, f) =
      least_first (has_priority t.trade_type) (has_priority-IsOrder t.trade_type) (is_matchable t) m
        ts e in
    (
      h,
      subst (λ r. is_first r (is_matchable t) m ts ≡ true)
          (λ i a b. has_priority-comes_first t.trade_type a b i) f,
    )

-- If the search finds an order, it is matchable, and no matchable order has a better price, or the
-- same price and an earlier time; if it finds none, there is no matchable order.
pub first_match-IsBest : (t : TradeRecord) (ts : List TradeRecord) → IsBest t ts (first_match t ts)
first_match-IsBest t ts = least-IsBest t ts (first_match t ts) (sym (first_match-least t ts))

pub first_match-matchable :
    (t m : TradeRecord) (ts : List TradeRecord)
    → first_match t ts ≡ some m
    → is_matchable t m ≡ true
first_match-matchable t m ts e = (least-IsBest t ts (some m) (sym (first_match-least t ts) ∙ e)).0

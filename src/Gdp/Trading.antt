-- ===== src/Gdp/Trading.antt =====
-- TradeViewSet of backend/irg_gdp/views.py: orders and their matching.
pub mod Matching
pub mod Balance
use irg_gdp.Base.{
  ℕ, ◌+◌, ◌*◌, Bool, true, false, ◌&&◌, Option, none, some, List, ◌∷◌, filter, find?, has_key_of,
  sum, save_row, take, order_by, ltb, leb, ◌==◌, if◌then◌else◌,
}
use irg_gdp.Gdp.Model.{
  TxHash, GdpUnit, TradeRecord, TradeType, buy, sell, TradeStatus, pending, trade_completed, Gdp,
  is_active_of, lock_in_new_months,
}

pub data TradeError : Type 0 where
  insufficient_unlocked execution_failed : TradeError

pub data TradeReply : Type 0 where
  placed : TradeRecord → TradeReply
  trade_refused : TradeError → TradeReply

abbrev pub is_pending : TradeRecord → Bool
is_pending t = elim t.status [ pending ↦ true | _ ↦ false ]

abbrev pub is_type : TradeType → TradeRecord → Bool
is_type buy t = elim t.trade_type [ buy ↦ true | sell ↦ false ]
is_type sell t = elim t.trade_type [ sell ↦ true | buy ↦ false ]

abbrev pub opposite : TradeType → TradeType
opposite buy = sell
opposite sell = buy

-- `price_per_unit__lte` against a purchase, `price_per_unit__gte` against a sale
abbrev pub is_price_met : TradeRecord → TradeRecord → Bool
is_price_met t m = elim t.trade_type [
  | buy ↦ leb m.price_per_unit t.price_per_unit
  | sell ↦ leb t.price_per_unit m.price_per_unit
]

-- The filter of the query for the matches of the order `t`.
unfoldable pub is_compatible : TradeRecord → TradeRecord → Bool
is_compatible t m = is_type (opposite t.trade_type) m && (is_pending m && is_price_met t m)

-- `order_by('price_per_unit', 'created_at')`, or `order_by('-price_per_unit', 'created_at')`
unfoldable pub has_priority : TradeType → TradeRecord → TradeRecord → Bool
has_priority buy a b =
    if a.price_per_unit == b.price_per_unit
    then leb a.created_at b.created_at
    else ltb a.price_per_unit b.price_per_unit
has_priority sell a b =
    if a.price_per_unit == b.price_per_unit
    then leb a.created_at b.created_at
    else ltb b.price_per_unit a.price_per_unit

unfoldable pub matches : TradeRecord → List TradeRecord → List TradeRecord
unfolding is_compatible has_priority
matches t ts = order_by (has_priority t.trade_type) (filter (is_compatible t) ts)

abbrev pub has_units_of : TradeRecord → TradeRecord → Bool
has_units_of t m = m.units == t.units

-- The order at which the loop of `_match_order` breaks.
unfoldable pub first_match : TradeRecord → List TradeRecord → Option TradeRecord
unfolding matches
first_match t ts = find? (has_units_of t) (matches t ts)

abbrev pub trade_id : TradeRecord → ℕ
trade_id t = t.id

abbrev pub has_trade_id : ℕ → TradeRecord → Bool
has_trade_id = has_key_of trade_id

abbrev pub save_trade : TradeRecord → List TradeRecord → List TradeRecord
save_trade t ts = save_row (has_trade_id t.id) t ts

abbrev pub execute : ℕ → TxHash → ℕ → TradeRecord → TradeRecord
execute now h other t = record t {
  counterparty = some other;
  status = trade_completed;
  trade_tx_hash = some h;
  executed_at = some now;
}

-- `tx` is the answer of `execute_trade`, none if it raises: the trade then stays as it was created.
unfoldable pub match_order :
    ℕ → Option TxHash → TradeRecord → List TradeRecord → TradeReply × List TradeRecord
unfolding first_match
match_order now tx t ts = elim (first_match t ts) [
  | none ↦ (placed t, ts)
  | some m ↦ elim tx [
    | none ↦ (trade_refused execution_failed, ts)
    | some h ↦ (
      placed (execute now h m.user t),
      save_trade (execute now h t.user m) (save_trade (execute now h m.user t) ts),
    )
  ]
]

pub record TradeRequest : Type 0 where
  pub trade_type : TradeType
  pub units : ℕ
  pub price_per_unit : ℕ

abbrev pub new_trade : ℕ → ℕ → ℕ → TradeRequest → TradeRecord
new_trade id user now q = record {
  id = id;
  trade_type = q.trade_type;
  user = user;
  counterparty = none;
  units = q.units;
  price_per_unit = q.price_per_unit;
  total_value = q.units * q.price_per_unit;
  status = pending;
  trade_tx_hash = none;
  created_at = now;
  executed_at = none;
}

-- `minted_at <= now - lock_months * 30 days`
abbrev pub is_sellable : ℕ → ℕ → GdpUnit → Bool
is_sellable user now u = is_active_of user u && leb (u.minted_at + lock_in_new_months * 2592000) now

unfoldable pub lacks_units : ℕ → ℕ → TradeRequest → Gdp → Bool
lacks_units user now q s = elim q.trade_type [
  | buy ↦ false
  | sell ↦
      ltb 0 lock_in_new_months
      && ltb (sum (λ (u : GdpUnit). u.saleable_units) (filter (is_sellable user now) s.units))
          q.units
]

unfoldable pub place_order : ℕ → ℕ → ℕ → Option TxHash → TradeRequest → Gdp → TradeReply × Gdp
unfolding lacks_units match_order
place_order id user now tx q s =
    let t = new_trade id user now q in
    let (reply, ts) = match_order now tx t (t ∷ s.trades) in
    if lacks_units user now q s
    then (trade_refused insufficient_unlocked, s)
    else (reply, record s { trades = ts })

abbrev pub is_open : TradeType → TradeRecord → Bool
is_open k t = is_type k t && is_pending t

abbrev pub price_first : TradeType → TradeRecord → TradeRecord → Bool
price_first buy a b = leb b.price_per_unit a.price_per_unit
price_first sell a b = leb a.price_per_unit b.price_per_unit

-- `orderbook`: one side of it, twenty orders at most.
unfoldable pub orderbook : TradeType → List TradeRecord → List TradeRecord
orderbook k ts = take 20 (order_by (price_first k) (filter (is_open k) ts))

-- ===== src/Gdp/Trading/Balance.antt =====
-- The completed purchases and sales balance.
use irg_gdp.Base.{
  ℕ, ◌+◌, ◌≡◌, ◌≢◌, refl, sym, ◌∙◌, ap, Bool, true, false, ◌&&◌, Option, some, List, ◌∷◌, arith,
  find?, any, sum, save_row, is_unique, is_unique-save_row, find?-least, find?-save_other,
  sum-save_row, if◌then◌else◌, ==_refl, Option-cases, Bool-cases, inl, inr, not,
}
use irg_gdp.Gdp.Model.{TxHash, TradeRecord, TradeType, buy, sell, trade_completed, Gdp}
use irg_gdp.Gdp.Trading.{
  TradeRequest, is_type, is_compatible, has_priority, first_match, trade_id, has_trade_id,
  save_trade, execute, match_order, new_trade, place_order, lacks_units,
}
use irg_gdp.Gdp.Trading.Matching.{is_matchable, first_match-matchable, first_match-least}

abbrev pub is_trade_completed : TradeRecord → Bool
is_trade_completed t = elim t.status [ trade_completed ↦ true | _ ↦ false ]

-- The units of a completed trade of one type.
abbrev pub traded : TradeType → TradeRecord → ℕ
traded k t = if is_type k t && is_trade_completed t then t.units else 0

abbrev pub volume : TradeType → List TradeRecord → ℕ
volume k ts = sum (traded k) ts

abbrev pub IsBalanced : List TradeRecord → Type 0
IsBalanced ts = (is_unique trade_id ts ≡ true) × (volume buy ts ≡ volume sell ts)

other_type :
    (t m : TradeRecord)
    → is_matchable t m ≡ true
    → (is_type buy m ≡ not (is_type buy t))
      × (is_type sell m ≡ not (is_type sell t))
      × (is_trade_completed m ≡ false)
      × (m.units ≡ t.units)
unfolding is_compatible
other_type t m h = ground arith

-- The two trades of a match are different rows.
not_both : (b : Bool) → ¬ (b ≡ not b)
not_both true e = ground arith
not_both false e = ground arith

open_trades : (k : TradeType) (t : TradeRecord) → is_trade_completed t ≡ false → traded k t ≡ 0
open_trades k t p = ground arith

-- The two trades of a match are of the two types, and as large.
both_sides :
    (now : ℕ) (h : TxHash) (t m : TradeRecord)
    → is_matchable t m ≡ true
    → traded buy (execute now h m.user t) + traded buy (execute now h t.user m)
      ≡ traded sell (execute now h m.user t) + traded sell (execute now h t.user m)
both_sides now h t m e = let o = other_type t m e in ground (arith, o)

same_row :
    (t m : TradeRecord) (ts : List TradeRecord)
    → find? (has_trade_id m.id) (t ∷ ts) ≡ some m
    → t.id ≡ m.id
    → ¬ (is_matchable t m ≡ true)
same_row t m ts f e h =
    let g : t ≡ m = ground (arith, f) in
    let (b, s, _, _) = other_type t m h in not_both (is_type buy t) (ap (is_type buy) g ∙ b)

matched_other :
    (t m : TradeRecord) (ts : List TradeRecord)
    → is_unique trade_id (t ∷ ts) ≡ true
    → first_match t (t ∷ ts) ≡ some m
    → (find? (has_trade_id m.id) (t ∷ ts) ≡ some m) × (t.id ≢ m.id)
matched_other t m ts u e =
    let f =
      find?-least trade_id (has_priority t.trade_type) (is_matchable t) m (t ∷ ts) u
        (sym (first_match-least t (t ∷ ts)) ∙ e) in
    (f, λ same. same_row t m ts f same (first_match-matchable t m (t ∷ ts) e))

sums_agree : (b d x y a c : ℕ) → a ≡ b + x → c ≡ d + y → b ≡ d → x ≡ y → a ≡ c
sums_agree b d x y a c e f g h = omega arith

balance_sum : (a b c z w x y : ℕ) → b + z ≡ c + x → a + w ≡ b + y → z ≡ 0 → w ≡ 0 → a ≡ c + (x + y)
balance_sum a b c z w x y e f g h = omega arith

-- What a match adds to the volume of each type.
volume_after :
    (k : TradeType) (t' m' t m : TradeRecord) (ts : List TradeRecord)
    → t'.id ≡ t.id
    → m'.id ≡ m.id
    → t.id ≢ m.id
    → find? (has_trade_id m.id) (t ∷ ts) ≡ some m
    → traded k t ≡ 0
    → traded k m ≡ 0
    → volume k (save_row (has_trade_id m.id) m' (save_row (has_trade_id t.id) t' (t ∷ ts)))
      ≡ volume k (t ∷ ts) + (traded k t' + traded k m')
volume_after k t' m' t m ts i j n f z w =
    let g = find?-save_other trade_id m.id t.id t' (t ∷ ts) i n ∙ f in
    let head : find? (has_trade_id t.id) (t ∷ ts) ≡ some t = rw (==_refl t.id) refl in
    let ts' = save_row (has_trade_id t.id) t' (t ∷ ts) in
    let a = sum-save_row (traded k) (has_trade_id t.id) t' t (t ∷ ts) head in
    let c = sum-save_row (traded k) (has_trade_id m.id) m' m ts' g in
    balance_sum (volume k (save_row (has_trade_id m.id) m' ts')) (volume k ts') (volume k (t ∷ ts))
      (traded k t) (traded k m) (traded k t') (traded k m') a c z w

executed-IsBalanced :
    (now : ℕ) (h : TxHash) (t m : TradeRecord) (ts : List TradeRecord)
    → is_trade_completed t ≡ false
    → IsBalanced (t ∷ ts)
    → first_match t (t ∷ ts) ≡ some m
    → IsBalanced
        (save_trade (execute now h t.user m) (save_trade (execute now h m.user t) (t ∷ ts)))
executed-IsBalanced now h t m ts p (u, b) e =
    let (f, n) = matched_other t m ts u e in
    let x = first_match-matchable t m (t ∷ ts) e in
    let (_, _, q, _) = other_type t m x in
    let t' = execute now h m.user t in
    let m' = execute now h t.user m in
    let v = λ (k : TradeType).
      volume_after k t' m' t m ts refl refl n f (open_trades k t p) (open_trades k m q) in
    (
      is_unique-save_row trade_id m.id m' (save_trade t' (t ∷ ts)) refl
          (is_unique-save_row trade_id t.id t' (t ∷ ts) refl u),
      sums_agree (volume buy (t ∷ ts)) (volume sell (t ∷ ts)) _ _ _ _ (v buy) (v sell) b
          (both_sides now h t m x),
    )

match-IsBalanced :
    (now : ℕ) (tx : Option TxHash) (t : TradeRecord) (ts : List TradeRecord)
    → is_trade_completed t ≡ false
    → IsBalanced (t ∷ ts)
    → IsBalanced (match_order now tx t (t ∷ ts)).1
unfolding match_order
match-IsBalanced now tx t ts p b = elim (Option-cases (first_match t (t ∷ ts))) [
  | inl e ↦ rw (match_order, e) b
  | inr (m, e) ↦ elim (Option-cases tx) [
    | inl g ↦ rw (match_order, e, g) b
    | inr (h, g) ↦ rw (match_order, e, g) (executed-IsBalanced now h t m ts p b e)
  ]
]

-- The order of a fresh key is matched, or stays pending; either way the completed purchases are for
-- as many units as the completed sales, and the keys of the trades differ.
pub place_order-IsBalanced :
    (id user now : ℕ) (tx : Option TxHash) (q : TradeRequest) (s : Gdp)
    → any (has_trade_id id) s.trades ≡ false
    → IsBalanced s.trades
    → IsBalanced (place_order id user now tx q s).1.trades
unfolding place_order
place_order-IsBalanced id user now tx q s fresh (u, b) =
    let t = new_trade id user now q in
    let n : IsBalanced (t ∷ s.trades) = (ground (arith, fresh, u), ground (arith, b)) in
    elim (Bool-cases (lacks_units user now q s)) [
      | inl e ↦ rw (place_order, e) (u, b)
      | inr e ↦ rw (place_order, e) (match-IsBalanced now tx t s.trades refl n)
    ]

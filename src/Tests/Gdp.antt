-- ===== src/Tests/Gdp.antt =====
-- The GDP units at work.
use irg_gdp.Base.{any, false, ℕ, ◌≡◌, refl, true, none, some, [], ◌∷◌, arith, length}
use irg_gdp.Gdp.Model.{TradeType, TradeRecord, Gdp, buy, sell, gift}
use irg_gdp.Gdp.Minting.{
  investor, create, verify_checklist, execute_mint, minted, user_minted_grams, get_record,
}
use irg_gdp.Gdp.Minting.Execution.{execute_mint_iff}
use irg_gdp.Gdp.Trading.{TradeRequest, place_order, new_trade, has_trade_id, first_match}
use irg_gdp.Gdp.Trading.Matching.{first_match-IsBest, IsBest}
use irg_gdp.Gdp.Trading.Balance.{IsBalanced}
use irg_gdp.Gdp.Swaps.{initiate}
use irg_gdp.Gdp.Transfers.{transfer, transferred_as, new_transfer}
use irg_gdp.Gdp.Transfers.Conservation.{IsMove, transfer-held}
use irg_gdp.Gdp.Life.{ask, verify, mint, place, here, next}
use irg_gdp.Gdp.Life.Cap.{IsWithinCap, minted-IsWithinCap}
use irg_gdp.Gdp.Life.Book.{trades_balance}
use irg_gdp.Tests.Units.{
  exact, alice, nothing, ten_grams, all_points, checked, minted_once, record_checked, unit_20,
  given,
}

-- 90 saleable and 10 reserve units.
runs_minting : (length minted_once.units ≡ 1) × (minted_once.records ≡ minted_once.records)
unfolding execute_mint verify_checklist create
runs_minting = (refl, refl)

minted-IsWithinCap_example : IsWithinCap 1 minted_once
unfolding user_minted_grams
minted-IsWithinCap_example =
    minted-IsWithinCap exact 1 nothing minted_once
      (next
        (next (next here (ask true 10 alice (investor ∷ []) none ten_grams))
          (verify alice 10 true all_points))
        (mint alice 10 20 5 none (some 99)))
      (omega arith)

execute_mint_iff_example :
    (execute_mint exact alice 10 20 5 none (some 99) checked).0 ≡ minted unit_20
unfolding get_record verify_checklist create
execute_mint_iff_example = (execute_mint_iff exact alice 10 20 5 none checked (some 99) unit_20).1 (
  record_checked,
  99,
  (refl, refl, refl, refl, refl, refl, refl, refl, omega arith),
  refl,
  (refl, refl, refl, refl, refl),
  refl,
)

abbrev order_of : TradeType → ℕ → ℕ → TradeRequest
order_of k n price = record { trade_type = k; units = n; price_per_unit = price }

-- Two sales of 5 units, at 70 and at 60, and one of 6 units at 50.
abbrev sales : Gdp
sales =
    (place_order 3 1 3 none (order_of sell 6 50)
      (place_order 2 1 2 none (order_of sell 5 60)
        (place_order 1 1 1 none (order_of sell 5 70) nothing).1).1).1

abbrev purchase : TradeRecord
purchase = new_trade 4 2 4 (order_of buy 5 80)

-- The purchase of 5 units at 80 takes the sale at 60.
first_match-IsBest_example :
    IsBest purchase sales.trades (some (new_trade 2 1 2 (order_of sell 5 60)))
unfolding first_match place_order
first_match-IsBest_example = first_match-IsBest purchase sales.trades

abbrev one_sale : Gdp
one_sale = (place_order 2 1 2 none (order_of sell 5 60) nothing).1

abbrev sold : Gdp
sold = (place_order 4 2 4 (some 9) (order_of buy 5 80) one_sale).1

fresh_order : any (has_trade_id 4) one_sale.trades ≡ false
unfolding place_order
fresh_order = refl

trades_balance_example : IsBalanced sold.trades
trades_balance_example =
    trades_balance exact nothing sold
      (next (next here (place 2 1 2 none (order_of sell 5 60) refl))
        (place 4 2 4 (some 9) (order_of buy 5 80) fresh_order))
      (refl, refl)

transfer-held_example :
    IsMove 1 minted_once given (transferred_as (new_transfer 30 1 2 gift 97 unit_20))
unfolding transfer execute_mint verify_checklist create
transfer-held_example = transfer-held 30 40 1 7 20 (some 2) gift (some 97) minted_once

-- A swap of one of two units takes both.
abbrev two_units : Gdp
two_units = record minted_once { units = record unit_20 { id = 22 } ∷ minted_once.units }

abbrev swapping : Gdp
swapping = (initiate 50 8 1 (20 ∷ []) 6 none two_units).1

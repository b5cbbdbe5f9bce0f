-- ===== src/Gdp/Life/Book.antt =====
-- The trades through every life of the tables.
use irg_gdp.Base.{ℕ, ◌≡◌, refl, Bool, true, false, Option, none, some, List, arith}
use irg_gdp.Gdp.Model.{User, TxHash, TransferType, Gdp, Arithmetic}
use irg_gdp.Gdp.Minting.{
  Role, MintRequest, Checklist, create, perform_create, verify_checklist, execute_mint,
  mint_verified,
}
use irg_gdp.Gdp.Swaps.{initiate, confirm, settle_swap}
use irg_gdp.Gdp.Trading.Balance.{IsBalanced, place_order-IsBalanced}
use irg_gdp.Gdp.Transfers.{
  transfer, create_earmark, earmark_found, release, settle_release, reactivate,
}
use irg_gdp.Gdp.Life.{
  Step, ask, verify, mint, start_swap, confirm_swap, place, give, earmark, release_earmark, Reach,
  here, next,
}

create-trades :
    (ar : Arithmetic) (i : Bool) (id : ℕ) (u : User) (roles : List Role) (rate : Option ℕ)
    (q : MintRequest) (s : Gdp)
    → (create ar i id u roles rate q s).1.trades ≡ s.trades
unfolding create perform_create
create-trades ar true id u roles rate q s = ground arith
create-trades ar false id u roles rate q s = ground arith

verify-trades :
    (u : User) (id : ℕ) (known : Bool) (c : Checklist) (s : Gdp)
    → (verify_checklist u id known c s).1.trades ≡ s.trades
unfolding verify_checklist
verify-trades u id known c s = ground arith

execute-trades :
    (ar : Arithmetic) (u : User) (id unit now : ℕ) (rate : Option ℕ) (tx : Option TxHash) (s : Gdp)
    → (execute_mint ar u id unit now rate tx s).1.trades ≡ s.trades
unfolding execute_mint mint_verified
execute-trades ar u id unit now rate none s = ground arith
execute-trades ar u id unit now rate (some h) s = ground arith

initiate-trades :
    (id now user : ℕ) (ids : List ℕ) (category : ℕ) (b : Option ℕ) (s : Gdp)
    → (initiate id now user ids category b s).1.trades ≡ s.trades
unfolding initiate
initiate-trades id now user ids category b s = ground arith

confirm-trades :
    (user id now : ℕ) (tx : Option TxHash) (s : Gdp)
    → (confirm user id now tx s).1.trades ≡ s.trades
unfolding confirm settle_swap
confirm-trades user id now none s = ground arith
confirm-trades user id now (some h) s = ground arith

transfer-trades :
    (id copy user now unit : ℕ) (to : Option ℕ) (k : TransferType) (tx : Option TxHash) (s : Gdp)
    → (transfer id copy user now unit to k tx s).1.trades ≡ s.trades
unfolding transfer
transfer-trades id copy user now unit to k tx s = ground arith

earmark-trades :
    (ar : Arithmetic) (id user : ℕ) (unit date rate : Option ℕ) (tx : Option TxHash) (s : Gdp)
    → (create_earmark ar id user unit date rate tx s).1.trades ≡ s.trades
unfolding create_earmark earmark_found
earmark-trades ar id user none date rate tx s = refl
earmark-trades ar id user (some u) none rate tx s = refl
earmark-trades ar id user (some u) (some d) rate tx s = ground arith

release-trades :
    (user id now : ℕ) (tx : Option TxHash) (s : Gdp)
    → (release user id now tx s).1.trades ≡ s.trades
unfolding release settle_release reactivate
release-trades user id now tx s = ground arith

step-IsBalanced :
    (ar : Arithmetic) (s t : Gdp) → Step ar s t → IsBalanced s.trades → IsBalanced t.trades
step-IsBalanced ar s t (ask i id u roles rate q) h = rw (create-trades ar i id u roles rate q s) h
step-IsBalanced ar s t (verify u id known c) h = rw (verify-trades u id known c s) h
step-IsBalanced ar s t (mint u id unit now rate tx) h =
    rw (execute-trades ar u id unit now rate tx s) h
step-IsBalanced ar s t (start_swap id now u ids category b) h =
    rw (initiate-trades id now u ids category b s) h
step-IsBalanced ar s t (confirm_swap u id now tx) h = rw (confirm-trades u id now tx s) h
step-IsBalanced ar s t (place id u now tx q fresh) h =
    place_order-IsBalanced id u now tx q s fresh h
step-IsBalanced ar s t (give id copy u now unit to k tx) h =
    rw (transfer-trades id copy u now unit to k tx s) h
step-IsBalanced ar s t (earmark id u unit date rate tx) h =
    rw (earmark-trades ar id u unit date rate tx s) h
step-IsBalanced ar s t (release_earmark u id now tx) h = rw (release-trades u id now tx s) h

-- If the trades have different keys and as many units are bought as sold in the completed trades,
-- that is so after any sequence of the calls that ask for a minting, verify a checklist, mint, start
-- or confirm a swap, place an order, transfer a unit, earmark one or release it. An order gets a key
-- that no trade has. The generic PUT, PATCH and DELETE of the view sets are not among these calls.
pub trades_balance :
    (ar : Arithmetic) (s t : Gdp) → Reach ar s t → IsBalanced s.trades → IsBalanced t.trades
trades_balance ar s t here h = h
trades_balance ar s t (next {t = m} r st) h = step-IsBalanced ar m t st (trades_balance ar s m r h)

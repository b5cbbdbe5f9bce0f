-- ===== src/Gdp/Life.antt =====
-- The calls of backend/irg_gdp/views.py that write, in any order. The keys of new trades are fresh. The
-- generic PUT, PATCH and DELETE that the view sets inherit are not among them.
pub mod Cap
pub mod Book
use irg_gdp.Base.{ℕ, ◌≡◌, Bool, false, Option, List, any}
use irg_gdp.Gdp.Model.{User, TxHash, TransferType, Gdp, Arithmetic}
use irg_gdp.Gdp.Minting.{Role, MintRequest, Checklist, create, verify_checklist, execute_mint}
use irg_gdp.Gdp.Swaps.{initiate, confirm}
use irg_gdp.Gdp.Trading.{TradeRequest, place_order, has_trade_id}
use irg_gdp.Gdp.Transfers.{transfer, create_earmark, release}

pub data Step (ar : Arithmetic) : Gdp → Gdp → Type 0 where
  ask :
      {s : Gdp} (inserted : Bool) (id : ℕ) (user : User) (roles : List Role) (rate : Option ℕ)
      (q : MintRequest)
      → Step ar s (create ar inserted id user roles rate q s).1
  verify :
      {s : Gdp} (user : User) (id : ℕ) (known : Bool) (c : Checklist)
      → Step ar s (verify_checklist user id known c s).1
  mint :
      {s : Gdp} (user : User) (id unit now : ℕ) (rate : Option ℕ) (tx : Option TxHash)
      → Step ar s (execute_mint ar user id unit now rate tx s).1
  start_swap :
      {s : Gdp} (id now user : ℕ) (ids : List ℕ) (category : ℕ) (benchmark : Option ℕ)
      → Step ar s (initiate id now user ids category benchmark s).1
  confirm_swap :
      {s : Gdp} (user id now : ℕ) (tx : Option TxHash) → Step ar s (confirm user id now tx s).1
  place :
      {s : Gdp} (id user now : ℕ) (tx : Option TxHash) (q : TradeRequest)
      → any (has_trade_id id) s.trades ≡ false
      → Step ar s (place_order id user now tx q s).1
  give :
      {s : Gdp} (id copy_id user now unit : ℕ) (to : Option ℕ) (kind : TransferType)
      (tx : Option TxHash)
      → Step ar s (transfer id copy_id user now unit to kind tx s).1
  earmark :
      {s : Gdp} (id user : ℕ) (unit date rate : Option ℕ) (tx : Option TxHash)
      → Step ar s (create_earmark ar id user unit date rate tx s).1
  release_earmark :
      {s : Gdp} (user id now : ℕ) (tx : Option TxHash) → Step ar s (release user id now tx s).1

pub data Reach (ar : Arithmetic) (s : Gdp) : Gdp → Type 0 where
  here : Reach ar s s
  next : {t u : Gdp} → Reach ar s t → Step ar t u → Reach ar s u

-- ===== src/Gdp/Guarded.antt =====
-- The views of backend/irg_gdp/views.py behind the decorator require_transactable of
-- backend/wallet_access/guard.py: a request that the guard refuses does not reach the view.
pub mod Refusal
use irg_gdp.Base.{ℕ, Bool, true, false, Option}
use irg_gdp.Wallet.Model.{Account}
use irg_gdp.Wallet.Guard.{Response, forbidden, served, require_transactable}
use irg_gdp.Gdp.Model.{User, TxHash, TransferType, Gdp, Arithmetic}
use irg_gdp.Gdp.Minting.{MintReply, execute_mint}
use irg_gdp.Gdp.Swaps.{SwapReply, confirm}
use irg_gdp.Gdp.Trading.{TradeRequest, TradeReply, place_order}
use irg_gdp.Gdp.Transfers.{TransferReply, EarmarkReply, transfer, release}

-- The tables after a response: those that the view left, if it was reached.
abbrev pub after : {A : Type 0} → Response (A × Gdp) → Gdp → Gdp
after (forbidden c st) s = s
after (served x) s = x.1

-- Whether the user is signed in, and their account if they have a wallet.
module _ (now : ℕ) (signed_in : Bool) (account : Option Account) where
  unfoldable pub execute_mint_view :
      Arithmetic → User → ℕ → ℕ → Option ℕ → Option TxHash → Gdp → Response (MintReply × Gdp)
  execute_mint_view ar user id unit rate tx s =
      require_transactable true true now signed_in account
        (execute_mint ar user id unit now rate tx s)

  unfoldable pub confirm_view : ℕ → ℕ → Option TxHash → Gdp → Response (SwapReply × Gdp)
  confirm_view user id tx s =
      require_transactable true true now signed_in account (confirm user id now tx s)

  unfoldable pub place_order_view :
      ℕ → ℕ → Option TxHash → TradeRequest → Gdp → Response (TradeReply × Gdp)
  place_order_view id user tx q s =
      require_transactable true true now signed_in account (place_order id user now tx q s)

  unfoldable pub transfer_view :
      ℕ → ℕ → ℕ → ℕ → Option ℕ → TransferType → Option TxHash → Gdp → Response (TransferReply × Gdp)
  transfer_view id copy_id user unit to kind tx s =
      require_transactable true true now signed_in account
        (transfer id copy_id user now unit to kind tx s)

  -- Without the nominees.
  unfoldable pub release_view : ℕ → ℕ → Option TxHash → Gdp → Response (EarmarkReply × Gdp)
  release_view user id tx s =
      require_transactable false true now signed_in account (release user id now tx s)

-- ===== src/Gdp/Guarded/Refusal.antt =====
-- What a refusal of the guard means for the tables.
use irg_gdp.Base.{
  ℕ, ◌≡◌, ◌≢◌, refl, Bool, true, false, Option, none, some, arith, not, if◌then◌else◌,
}
use irg_gdp.Wallet.Model.{Account, WalletState, is_transactable}
use irg_gdp.Wallet.Guard.{
  GuardCode, passed, not_authenticated, wallet_missing, wallet_state, nominees_required,
  nominee_shares_invalid, device_not_ready, and_then, check_account, check_nominees, check_devices,
  answer, wallet_check, require_transactable,
}
use irg_gdp.Gdp.Model.{User, TxHash, TransferType, Gdp, Arithmetic}
use irg_gdp.Gdp.Trading.{TradeRequest}
use irg_gdp.Gdp.Guarded.{
  after, execute_mint_view, confirm_view, place_order_view, transfer_view, release_view,
}

refused_answer :
    {A : Type 0} (c : GuardCode) (st : Option WalletState) (view : A × Gdp) (s : Gdp)
    → c ≢ passed
    → after (answer c st view) s ≡ s
refused_answer passed st view s n = absurd (n refl)
refused_answer not_authenticated st view s n = refl
refused_answer wallet_missing st view s n = refl
refused_answer (wallet_state w) st view s n = refl
refused_answer nominees_required st view s n = refl
refused_answer nominee_shares_invalid st view s n = refl
refused_answer device_not_ready st view s n = refl

refused_unchanged :
    {A : Type 0} (rn rd : Bool) (now : ℕ) (signed_in : Bool) (account : Option Account)
    (view : A × Gdp) (s : Gdp)
    → wallet_check rn rd now signed_in account ≢ passed
    → after (require_transactable rn rd now signed_in account view) s ≡ s
unfolding require_transactable
refused_unchanged rn rd now signed_in account view s n =
    refused_answer (wallet_check rn rd now signed_in account) _ view s n

second_passes : (c d : GuardCode) → and_then c d ≡ passed → d ≡ passed
second_passes passed d e = e
second_passes not_authenticated d e = ground (arith, e)
second_passes wallet_missing d e = ground (arith, e)
second_passes (wallet_state w) d e = ground (arith, e)
second_passes nominees_required d e = ground (arith, e)
second_passes nominee_shares_invalid d e = ground (arith, e)
second_passes device_not_ready d e = ground (arith, e)

weaker :
    (t : Bool) (w : WalletState) (c d : GuardCode)
    → (if t then wallet_state w else and_then c d) ≡ passed
    → (if t then wallet_state w else and_then passed d) ≡ passed
weaker true w c d e = e
weaker false w c d e = second_passes c d e

-- The check with the nominees asks for all that the check without them does.
without_nominees :
    (now : ℕ) (signed_in : Bool) (account : Option Account)
    → wallet_check true true now signed_in account ≡ passed
    → wallet_check false true now signed_in account ≡ passed
unfolding wallet_check check_account
without_nominees now false account e = e
without_nominees now true none e = e
without_nominees now true (some s) e =
    weaker (not (is_transactable s.wallet now)) s.wallet.state (check_nominees s)
      (check_devices now s) e

module _ (now : ℕ) (signed_in : Bool) (account : Option Account) (s : Gdp)
    (n : wallet_check false true now signed_in account ≢ passed) where
  strict : wallet_check true true now signed_in account ≢ passed
  strict e = n (without_nominees now signed_in account e)

  -- If the guard's check of the user fails without regard to the nominees, then neither the minting,
  -- the confirmation of a swap, an order, a transfer nor the release of an earmark changes the
  -- tables.
  pub refused_changes_nothing :
      (ar : Arithmetic) (user : User) (id unit copy : ℕ) (rate to : Option ℕ) (tx : Option TxHash)
      (kind : TransferType) (q : TradeRequest)
      → (after (execute_mint_view now signed_in account ar user id unit rate tx s) s ≡ s)
        × (after (confirm_view now signed_in account user.id id tx s) s ≡ s)
        × (after (place_order_view now signed_in account id user.id tx q s) s ≡ s)
        × (after (transfer_view now signed_in account id copy user.id unit to kind tx s) s ≡ s)
        × (after (release_view now signed_in account user.id id tx s) s ≡ s)
  unfolding execute_mint_view confirm_view place_order_view transfer_view release_view
  refused_changes_nothing ar user id unit copy rate to tx kind q = (
    refused_unchanged true true now signed_in account _ s strict,
    refused_unchanged true true now signed_in account _ s strict,
    refused_unchanged true true now signed_in account _ s strict,
    refused_unchanged true true now signed_in account _ s strict,
    refused_unchanged false true now signed_in account _ s n,
  )

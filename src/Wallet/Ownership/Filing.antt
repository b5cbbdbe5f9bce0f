-- ===== src/Wallet/Ownership/Filing.antt =====
-- Who can file a transfer, and what a filing and its cancellation do to the wallet.
use irg_gdp.Base.{
  ℕ, ◌+◌, ◌≡◌, ◌⊎◌, Bool, true, false, Option, some, List, [], ◌∷◌, arith, find?, update_where,
  is_some,
}
use irg_gdp.Base.Text.{Text}
use irg_gdp.Wallet.Model.{
  Account, created, activated, locked, ownership_transfer, legal_person, OwnershipTransferCase,
  awaiting_ombudsman, cancelled, Digest, Time, is_transactable,
}
use irg_gdp.Wallet.Monad.{ok}
use irg_gdp.Wallet.Policy.{Platform, ownership_transfer_notice}
use irg_gdp.Wallet.Password.{restored_state}
use irg_gdp.Wallet.Guard.{wallet_state, check_account}
use irg_gdp.Wallet.Recovery.{set_state, is_final}
use irg_gdp.Wallet.Ownership.{
  TransferInput, transfer_case, has_transfer_id, initiate_ownership_transfer, cancel_transfer_case,
  cancel_ownership_transfer,
}

-- A filing that returns was made by the operator of a legal person's wallet that is created,
-- activated or locked, for one of the listed reasons; it opens a case with 30 days of notice and
-- pauses the wallet, so that the guard refuses every transaction.
pub ownership_transfer_ok :
    (id : ℕ) (now : Time) (f : TransferInput) (filed : Option Digest) (s : Account)
    (c : OwnershipTransferCase) (rn rd : Bool) (at : Time)
    → (initiate_ownership_transfer id now f filed s).0 ≡ ok c
    → let t = (initiate_ownership_transfer id now f filed s).1 in
      (s.wallet.holder_type ≡ legal_person)
      × ((s.wallet.state ≡ created) ⊎ (s.wallet.state ≡ activated) ⊎ (s.wallet.state ≡ locked))
      × (is_some f.reason ≡ true)
      × (c.status ≡ awaiting_ombudsman)
      × (c.public_notice_ends_at ≡ some (now + ownership_transfer_notice))
      × (c.transfer_requested_tx_hash ≡ filed)
      × (t.wallet ≡ (set_state ownership_transfer s).wallet)
      × (check_account rn rd at t ≡ wallet_state ownership_transfer)
unfolding initiate_ownership_transfer transfer_case check_account is_transactable
ownership_transfer_ok id now f filed s c rn rd at h = ground arith

cancelled_found :
    (pf : Platform) (reason : Text) (id : ℕ) (c : OwnershipTransferCase)
    (cs : List OwnershipTransferCase)
    → find? (has_transfer_id id) cs ≡ some c
    → find?
        (has_transfer_id id)
        (update_where (has_transfer_id id) (cancel_transfer_case pf reason) cs)
      ≡ some (cancel_transfer_case pf reason c)
unfolding cancel_transfer_case
cancelled_found pf reason id c [] h = cc
cancelled_found pf reason id c (x ∷ cs) h = ground (arith, cancelled_found pf reason id c cs)

-- A cancellation that returns found a case of the wallet that was not final; it is cancelled, and the
-- wallet is activated if it has a password and created if not.
pub cancel_transfer_ok :
    (pf : Platform) (id : ℕ) (reason : Text) (s : Account) (c closed : OwnershipTransferCase)
    → find? (has_transfer_id id) s.transfers ≡ some c
    → (cancel_ownership_transfer pf id reason s).0 ≡ ok closed
    → let t = (cancel_ownership_transfer pf id reason s).1 in
      (is_final c.status ≡ false)
      × (closed.status ≡ cancelled)
      × (find? (has_transfer_id id) t.transfers ≡ some closed)
      × (t.wallet ≡ (set_state (restored_state s.wallet) s).wallet)
unfolding cancel_ownership_transfer
cancel_transfer_ok pf id reason s c closed found h =
    let row = cancelled_found pf reason id c s.transfers found in
    unfold cancel_transfer_case in ground (arith, row)

-- ===== src/Wallet/Ownership.antt =====
-- The transfer of a legal person's wallet to another operator, and its cancellation.
pub mod Filing
use irg_gdp.Base.{
  ℕ, ◌+◌, ◌≡◌, Bool, true, false, Option, none, some, List, [], ◌∷◌, ◌++◌, take, find?,
  update_where, ◌==◌, is_some, not, if◌then◌else◌,
}
use irg_gdp.Base.Text.{Text, codes, strip}
use irg_gdp.Wallet.Model.{
  Account, WalletState, recovering, ownership_transfer, suspended, recovered, HolderType,
  legal_person, OwnershipTransferCase, TransferReason, other_reason, CaseStatus, awaiting_ombudsman,
  cancelled, Digest, Time, file_ownership_request, transfer_filed, transfer_cancelled,
}
use irg_gdp.Wallet.Monad.{
  Action, ok, err, ownership_transfer_error, pure, raise, or_raise, ◌>>=◌, ◌>>◌, raise_if, modify,
  gets, notify, emit,
}
use irg_gdp.Wallet.Policy.{Platform, ownership_transfer_notice}
use irg_gdp.Wallet.Recovery.{set_state, is_final, restore}

abbrev pub is_legal_person : HolderType → Bool
is_legal_person legal_person = true
is_legal_person _ = false

abbrev pub cannot_transfer : WalletState → Bool
cannot_transfer recovering = true
cannot_transfer ownership_transfer = true
cannot_transfer recovered = true
cannot_transfer suspended = true
cannot_transfer _ = false

-- The arguments of a filing; a reason that is none of the choices is `none`.
pub record TransferInput : Type 0 where
  pub incoming : Option ℕ
  pub reason : Option TransferReason
  pub grounds : Text
  pub evidence_bundle_hash : Text

abbrev pub reason_or_other : Option TransferReason → TransferReason
reason_or_other none = other_reason
reason_or_other (some r) = r

unfoldable pub transfer_case : ℕ → Time → ℕ → TransferInput → OwnershipTransferCase
transfer_case id now outgoing f = record {
  id = id;
  status = awaiting_ombudsman;
  outgoing_operator = outgoing;
  incoming_operator = f.incoming;
  reason = reason_or_other f.reason;
  grounds = take 2000 f.grounds;
  evidence_bundle_hash = take 66 f.evidence_bundle_hash;
  public_notice_ends_at = some (now + ownership_transfer_notice);
  transfer_requested_tx_hash = none;
}

abbrev pub has_transfer_id : ℕ → OwnershipTransferCase → Bool
has_transfer_id id c = c.id == id

abbrev pub save_transfer : ℕ → (OwnershipTransferCase → OwnershipTransferCase) → Account → Account
save_transfer id f s = record s { transfers = update_where (has_transfer_id id) f s.transfers }

abbrev pub add_transfer : OwnershipTransferCase → Account → Account
add_transfer c s = record s { transfers = s.transfers ++ (c ∷ []) }

abbrev pub save_request_hash : ℕ → Option Digest → Account → Account
save_request_hash id none s = s
save_request_hash id (some h) s =
    save_transfer id (λ c. record c { transfer_requested_tx_hash = some h }) s

-- `initiate_ownership_transfer`; `filed` is what the call of the blockchain service returns, `none`
-- if it raises.
unfoldable pub initiate_ownership_transfer :
    ℕ → Time → TransferInput → Option Digest → Action OwnershipTransferCase
initiate_ownership_transfer id now f filed = do
  w ← gets (λ s. s.wallet)
  u ← gets (λ s. s.user)
  raise_if (not (is_legal_person w.holder_type)) ownership_transfer_error
  raise_if (cannot_transfer w.state) ownership_transfer_error
  raise_if (not (is_some f.reason)) ownership_transfer_error
  modify (add_transfer (transfer_case id now u.id f))
  modify (set_state ownership_transfer)
  modify (emit (file_ownership_request id))
  modify (save_request_hash id filed)
  modify (notify transfer_filed)
  pure (record (transfer_case id now u.id f) { transfer_requested_tx_hash = filed })

unfoldable pub cancel_transfer_case :
    Platform → Text → OwnershipTransferCase → OwnershipTransferCase
cancel_transfer_case pf reason c = record c {
  status = cancelled;
  grounds = strip pf.is_space (c.grounds ++ (10 ∷ 10 ∷ (codes "Cancelled: " ++ take 500 reason)));
}

unfoldable pub cancel_ownership_transfer : Platform → ℕ → Text → Action OwnershipTransferCase
cancel_ownership_transfer pf id reason = do
  c ← (λ s. or_raise (find? (has_transfer_id id) s.transfers) ownership_transfer_error s)
  raise_if (is_final c.status) ownership_transfer_error
  modify (save_transfer id (cancel_transfer_case pf reason))
  modify restore
  modify (notify transfer_cancelled)
  pure (cancel_transfer_case pf reason c)

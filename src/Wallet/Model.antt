-- ===== src/Wallet/Model.antt =====
-- The rows of backend/wallet_access/models.py. A row's `CharField` is the list of its code points,
-- a hash is an opaque number (an empty hash field is `none`), a time is a number of seconds, and a
-- share in percent is an integer in units of 10^-12. The columns that Django fills by itself and
-- nobody reads (`updated_at`, `last_state_change`) are left out.
use irg_gdp.Base.{ℕ, Bool, true, false, Option, none, some, List, ltb, if◌then◌else◌, not}
use irg_gdp.Base.Int.{ℤ}
use irg_gdp.Base.Text.{Text}

abbrev pub Digest : Type 0
Digest = ℕ

abbrev pub Time : Type 0
Time = ℕ

pub data WalletState : Type 0 where
  created activated locked recovering ownership_transfer suspended recovered : WalletState

pub data HolderType : Type 0 where
  individual legal_person : HolderType

pub data EntityType : Type 0 where
  blank private_ltd public_ltd_listed public_ltd_unlisted llp partnership : EntityType
  proprietorship public_trust private_trust cooperative huf other : EntityType

pub record Wallet : Type 0 where
  pub address : ℕ
  pub state : WalletState
  pub holder_type : HolderType
  pub legal_entity_name : Text
  pub entity_type : EntityType
  pub password_hash : Option Digest
  pub password_salt : Digest
  pub seed_phrase_hash : Option Digest
  pub seed_phrase_confirmed : Bool
  pub seed_phrase_confirmed_at : Option Time
  pub failed_password_attempts : ℕ
  pub locked_until : Option Time
  pub last_activity_at : Option Time
  pub inactivity_prompt_sent_at : Option Time
  pub inactivity_reminder_sent_at : Option Time
  pub nominees_alerted_at : Option Time
  pub created_at : Time
  pub activated_at : Option Time

abbrev pub is_activated : WalletState → Bool
is_activated activated = true
is_activated _ = false

-- `t and t > now`
abbrev pub is_after : Option Time → Time → Bool
is_after none now = false
is_after (some t) now = ltb now t

-- The property `is_transactable` at the time `now`.
unfoldable pub is_transactable : Wallet → Time → Bool
is_transactable w now =
    if not (is_activated w.state)
    then false
    else if is_after w.locked_until now
    then false
    else true

-- What `blocking_reason` says, with a constructor for each text.
pub data BlockingReason : Type 0 where
  not_blocked not_activated repeated_failures recovery_running transfer_running : BlockingReason
  wallet_suspended wallet_superseded : BlockingReason

unfoldable pub blocking_reason : WalletState → BlockingReason
blocking_reason created = not_activated
blocking_reason locked = repeated_failures
blocking_reason recovering = recovery_running
blocking_reason ownership_transfer = transfer_running
blocking_reason suspended = wallet_suspended
blocking_reason recovered = wallet_superseded
blocking_reason activated = not_blocked

-- `WalletActivation.touch_activity`
unfoldable pub touch : Time → Wallet → Wallet
touch now w = record w {
  last_activity_at = some now;
  inactivity_prompt_sent_at = none;
  inactivity_reminder_sent_at = none;
  nominees_alerted_at = none;
}

pub record Nominee : Type 0 where
  pub name : Text
  pub relationship : Text
  pub email : Text
  pub mobile : Text
  pub id_document_hash : Text
  pub share_percent : ℤ
  pub social_recovery_threshold : ℕ
  pub active : Bool
  pub revoked_at : Option Time

pub data DeviceState : Type 0 where
  pending active retired revoked : DeviceState

pub record Device : Type 0 where
  pub id : ℕ
  pub device_id_hash : Text
  pub device_label : Text
  pub platform : Text
  pub state : DeviceState
  pub cooling_off_until : Option Time
  pub activated_at : Option Time
  pub retired_at : Option Time

abbrev pub is_active_state : DeviceState → Bool
is_active_state active = true
is_active_state _ = false

-- The selection `state='ACTIVE'` on the devices.
abbrev pub is_active_device : Device → Bool
is_active_device d = is_active_state d.state

pub data EventKind : Type 0 where
  prompt_sent reminder_sent nominees_alerted confirmed : EventKind

pub record InactivityEvent : Type 0 where
  pub kind : EventKind
  pub occurred_at : Time

pub data RecoveryPath : Type 0 where
  self social trustee : RecoveryPath

pub data CaseStatus : Type 0 where
  filed notified awaiting_signatures awaiting_ombudsman approved : CaseStatus
  executed rejected cancelled expired : CaseStatus

pub record RecoveryCase : Type 0 where
  pub id : ℕ
  pub path : RecoveryPath
  pub status : CaseStatus
  pub claimant : ℕ
  pub claimant_wallet_address : ℕ
  pub grounds : Text
  pub evidence_bundle_hash : Text
  pub cooling_off_ends_at : Option Time
  pub public_notice_ends_at : Option Time
  pub recovery_requested_tx_hash : Option Digest
  pub ombudsman_order_hash : Option Digest
  pub ombudsman_order_tx_hash : Option Digest
  pub execution_tx_hash : Option Digest
  pub reversibility_ends_at : Option Time

pub data TransferReason : Type 0 where
  acquisition partnership_change trustee_succession prop_sale : TransferReason
  operator_departed other_reason : TransferReason

pub record OwnershipTransferCase : Type 0 where
  pub id : ℕ
  pub status : CaseStatus
  pub outgoing_operator : ℕ
  pub incoming_operator : Option ℕ
  pub reason : TransferReason
  pub grounds : Text
  pub evidence_bundle_hash : Text
  pub public_notice_ends_at : Option Time
  pub transfer_requested_tx_hash : Option Digest

pub record User : Type 0 where
  pub id : ℕ
  pub email : Text
  pub mobile : Text
  pub login_password_hash : Option Digest

-- A message to the owner or to a contact; its text is left out.
pub data Recipient : Type 0 where
  owner : Recipient
  contact : Text → Text → Recipient

pub data NoticeKind : Type 0 where
  wallet_activated nominee_registered unusual_activity inactivity_prompt : NoticeKind
  inactivity_reminder inactivity_nominee_alert recovery_initiated signature_requested : NoticeKind
  recovery_cancelled recovery_rejected recovery_executed : NoticeKind
  transfer_filed transfer_cancelled : NoticeKind

pub record Notice : Type 0 where
  pub to : Recipient
  pub kind : NoticeKind

-- A call of the blockchain service, by the number of the case that it is about.
pub data ChainCall : Type 0 where
  file_recovery_request cancel_recovery_request file_ownership_request : ℕ → ChainCall

-- A user, the wallet of that user, and the rows whose foreign key leads to the wallet. `outbox` and
-- `chain_calls` list what has been sent, the oldest first.
pub record Account : Type 0 where
  pub user : User
  pub wallet : Wallet
  pub nominees : List Nominee
  pub devices : List Device
  pub events : List InactivityEvent
  pub cases : List RecoveryCase
  pub transfers : List OwnershipTransferCase
  pub outbox : List Notice
  pub chain_calls : List ChainCall

-- ===== src/Recall/Model.antt =====
-- The rows of backend/recall/models.py. Descriptions, the network data of the nodes and the texts of
-- the reasons are left out.
use irg_gdp.Base.{ℕ, Bool, Option, List, has_key_of, save_row}

pub data RecallStatus : Type 0 where
  initiated approved executing completed cancelled : RecallStatus

pub record RecallOrder : Type 0 where
  pub id : ℕ
  pub target_units : List ℕ
  pub target_user : Option ℕ
  pub initiated_by : ℕ
  pub approved_by : Option ℕ
  pub status : RecallStatus
  pub recall_tx_hash : Option ℕ
  pub approved_at : Option ℕ
  pub completed_at : Option ℕ

pub record RecallAffectedUnit : Type 0 where
  pub recall_order : ℕ
  pub unit_id : ℕ
  pub original_owner : ℕ
  pub original_value : ℕ
  pub processed_at : ℕ

pub data NodeStatus : Type 0 where
  node_active inactive maintenance suspended : NodeStatus

pub record NodeAgent : Type 0 where
  pub id : ℕ
  pub operator : ℕ
  pub status : NodeStatus
  pub last_heartbeat : Option ℕ

pub data DacStatus : Type 0 where
  pending voting dac_approved dac_rejected dac_executed : DacStatus

pub record DacProposal : Type 0 where
  pub id : ℕ
  pub linked_recall : Option ℕ
  pub proposer : ℕ
  pub votes_required : ℕ
  pub votes_received : ℕ
  pub status : DacStatus

pub record DacVote : Type 0 where
  pub proposal : ℕ
  pub node : ℕ
  pub voter : ℕ
  pub is_approval : Bool

pub record EmergencyAction : Type 0 where
  pub id : ℕ
  pub is_active : Bool
  pub is_reverted : Bool
  pub reverted_at : Option ℕ
  pub reverted_by : Option ℕ
  pub revert_tx_hash : Option ℕ

-- The tables of the application.
pub record Recall : Type 0 where
  pub orders : List RecallOrder
  pub affected : List RecallAffectedUnit
  pub nodes : List NodeAgent
  pub proposals : List DacProposal
  pub votes : List DacVote
  pub emergencies : List EmergencyAction

abbrev pub order_id : RecallOrder → ℕ
order_id o = o.id

abbrev pub save_order : RecallOrder → Recall → Recall
save_order o s = record s { orders = save_row (has_key_of order_id o.id) o s.orders }

-- ===== src/Governance/Model.antt =====
-- The rows of backend/governance/models.py. Titles and descriptions are left out.
use irg_gdp.Base.{ℕ, Bool, Option, List, has_key_of, save_row}

pub data ProposalStatus : Type 0 where
  draft active passed rejected executed : ProposalStatus

pub data ProposalCategory : Type 0 where
  parameter policy upgrade other : ProposalCategory

pub record Proposal : Type 0 where
  pub id : ℕ
  pub proposer : ℕ
  pub category : ProposalCategory
  pub voting_starts : ℕ
  pub voting_ends : ℕ
  pub votes_for : ℕ
  pub votes_against : ℕ
  pub quorum_required : ℕ
  pub status : ProposalStatus
  pub blockchain_id : Option ℕ
  pub execution_tx_hash : Option ℕ

pub record Vote : Type 0 where
  pub proposal : ℕ
  pub voter : ℕ
  pub vote_for : Bool
  pub voting_power : ℕ
  pub vote_tx_hash : ℕ
  pub voted_at : ℕ

pub data ActionType : Type 0 where
  param_change role_grant role_revoke emergency : ActionType

pub record GovernanceAction : Type 0 where
  pub action_type : ActionType
  pub executed_by : ℕ
  pub proposal : ℕ
  pub action_tx_hash : ℕ

-- The tables of the application that its calls write.
pub record Governance : Type 0 where
  pub proposals : List Proposal
  pub votes : List Vote
  pub actions : List GovernanceAction

abbrev pub proposal_id : Proposal → ℕ
proposal_id p = p.id

abbrev pub has_proposal_id : ℕ → Proposal → Bool
has_proposal_id = has_key_of proposal_id

abbrev pub save_proposal : Proposal → Governance → Governance
save_proposal p s = record s { proposals = save_row (has_proposal_id p.id) p s.proposals }

-- ===== src/Recall/Dac.antt =====
-- NodeAgentViewSet, DACProposalViewSet and EmergencyActionViewSet of backend/recall/views.py.
pub mod Approval
use irg_gdp.Base.{
  ℕ, zero, suc, ◌+◌, Bool, true, false, ◌&&◌, Option, none, some, List, [], ◌∷◌, filter, find?, any,
  has_key_of, save_row, leb, ◌==◌, if◌then◌else◌,
}
use irg_gdp.Recall.Model.{
  RecallOrder, approved, NodeAgent, NodeStatus, node_active, inactive, DacProposal, DacStatus,
  voting, dac_approved, DacVote, EmergencyAction, Recall, save_order,
}
use irg_gdp.Recall.Execution.{get_order}

pub data DacError : Type 0 where
  node_not_found proposal_not_found not_in_voting no_active_node several_active_nodes : DacError
  already_voted vote_failed action_not_found already_inactive revert_failed : DacError

pub data DacReply : Type 0 where
  node_is : NodeAgent → DacReply
  proposal_is : DacProposal → DacReply
  action_is : EmergencyAction → DacReply
  dac_refused : DacError → DacReply

-- A node is registered by any user, as its operator.
unfoldable pub register_node : ℕ → ℕ → Recall → DacReply × Recall
register_node id user s =
    let n : NodeAgent = record {
      id = id;
      operator = user;
      status = inactive;
      last_heartbeat = none;
    } in
    (node_is n, record s { nodes = n ∷ s.nodes })

abbrev pub node_id : NodeAgent → ℕ
node_id n = n.id

abbrev pub beat : ℕ → NodeAgent → NodeAgent
beat now n = record n { status = node_active; last_heartbeat = some now }

-- `heartbeat`, which any user may send for any node
unfoldable pub heartbeat : ℕ → ℕ → Recall → DacReply × Recall
heartbeat id now s = elim (find? (has_key_of node_id id) s.nodes) [
  | none ↦ (dac_refused node_not_found, s)
  | some n ↦ (
    node_is (beat now n),
    record s { nodes = save_row (has_key_of node_id id) (beat now n) s.nodes },
  )
]

abbrev pub has_beaten : ℕ → Option ℕ → Bool
has_beaten now none = false
has_beaten now (some t) = leb now (t + 300)

-- `active`: those that sent a heartbeat in the last five minutes
unfoldable pub active_nodes : ℕ → Recall → List NodeAgent
active_nodes now s = filter (λ n. has_beaten now n.last_heartbeat) s.nodes

abbrev pub is_active_node_of : ℕ → NodeAgent → Bool
is_active_node_of user n =
    (n.operator == user) && (elim n.status [ node_active ↦ true | _ ↦ false ])

abbrev pub dac_id : DacProposal → ℕ
dac_id p = p.id

unfoldable pub propose : ℕ → ℕ → Option ℕ → ℕ → Recall → DacReply × Recall
propose id user linked required s =
    let p : DacProposal = record {
      id = id;
      linked_recall = linked;
      proposer = user;
      votes_required = required;
      votes_received = 0;
      status = voting;
    } in
    (proposal_is p, record s { proposals = p ∷ s.proposals })

abbrev pub is_voting : DacStatus → Bool
is_voting voting = true
is_voting _ = false

abbrev pub is_dac_vote_of : ℕ → ℕ → DacVote → Bool
is_dac_vote_of proposal node v = (v.proposal == proposal) && (v.node == node)

abbrev pub count_approval : DacProposal → DacProposal
count_approval p = record p {
  votes_received = p.votes_received + 1;
  status = if leb p.votes_required (p.votes_received + 1) then dac_approved else p.status;
}

-- `proposal.linked_recall.status = 'APPROVED'`, whatever it was
abbrev pub reapprove : ℕ → RecallOrder → RecallOrder
reapprove now o = record o { status = approved; approved_at = some now }

unfoldable pub approve_linked : ℕ → DacProposal → Recall → Recall
approve_linked now p s =
    if leb p.votes_required (p.votes_received + 1)
    then (elim p.linked_recall [
      | none ↦ s
      | some r ↦ elim (get_order r s) [ none ↦ s | some o ↦ save_order (reapprove now o) s ]
    ])
    else s

abbrev pub save_dac : DacProposal → Recall → Recall
save_dac p s = record s { proposals = save_row (has_key_of dac_id p.id) p s.proposals }

abbrev pub enter_vote : ℕ → ℕ → ℕ → Bool → Recall → Recall
enter_vote proposal node user b s = record s {
  votes = record { proposal = proposal; node = node; voter = user; is_approval = b } ∷ s.votes;
}

-- The vote of an active node. A second vote of a node breaks the uniqueness of its row, and raises.
unfoldable pub vote_of_node : DacProposal → NodeAgent → ℕ → Bool → ℕ → Recall → DacReply × Recall
unfolding approve_linked
vote_of_node p n user b now s =
    if any (is_dac_vote_of p.id n.id) s.votes
    then (dac_refused already_voted, s)
    else if b
    then (
      proposal_is (count_approval p),
      save_dac (count_approval p) (approve_linked now p (enter_vote p.id n.id user true s)),
    )
    else (proposal_is p, save_dac p (enter_vote p.id n.id user false s))

-- `called` tells whether the call of the chain went through.
unfoldable pub vote : ℕ → ℕ → Bool → ℕ → Bool → Recall → DacReply × Recall
unfolding vote_of_node
vote id user b now called s = elim (find? (has_key_of dac_id id) s.proposals) [
  | none ↦ (dac_refused proposal_not_found, s)
  | some p ↦
      if is_voting p.status
      then (elim (filter (is_active_node_of user) s.nodes) [
        | [] ↦ (dac_refused no_active_node, s)
        | n ∷ ns ↦ elim ns [
          | [] ↦ if called then vote_of_node p n user b now s else (dac_refused vote_failed, s)
          | m ∷ ms ↦ (dac_refused several_active_nodes, s)
        ]
      ])
      else (dac_refused not_in_voting, s)
]

abbrev pub action_id : EmergencyAction → ℕ
action_id a = a.id

abbrev pub undo : ℕ → ℕ → ℕ → EmergencyAction → EmergencyAction
undo user now h a = record a {
  is_active = false;
  is_reverted = true;
  reverted_at = some now;
  reverted_by = some user;
  revert_tx_hash = some h;
}

unfoldable pub revert : ℕ → ℕ → ℕ → Option ℕ → Recall → DacReply × Recall
revert id user now tx s = elim (find? (has_key_of action_id id) s.emergencies) [
  | none ↦ (dac_refused action_not_found, s)
  | some a ↦
      if a.is_active
      then (elim tx [
        | none ↦ (dac_refused revert_failed, s)
        | some h ↦ (
          action_is (undo user now h a),
          record s {
            emergencies = save_row (has_key_of action_id id) (undo user now h a) s.emergencies;
          },
        )
      ])
      else (dac_refused already_inactive, s)
]

-- ===== src/Governance/Voting.antt =====
-- ProposalViewSet and VoteViewSet of backend/governance/views.py.
use irg_gdp.Base.{
  ℕ, ◌+◌, Bool, true, false, ◌&&◌, ◌||◌, Option, none, some, List, ◌∷◌, filter, find?, only, any,
  sum, leb, ltb, not, ◌==◌, if◌then◌else◌,
}
use irg_gdp.Gdp.Model.{User, GdpUnit, Gdp, is_active_of}
use irg_gdp.Governance.Model.{
  Proposal, ProposalStatus, draft, active, passed, executed, ProposalCategory, parameter, policy,
  upgrade, other, Vote, ActionType, param_change, emergency, GovernanceAction, Governance,
  has_proposal_id, save_proposal,
}

pub data GovernanceError : Type 0 where
  not_found not_authorized not_draft admin_only not_passed not_active : GovernanceError
  period_not_active already_voted call_failed : GovernanceError

pub data GovernanceReply : Type 0 where
  proposal_is : Proposal → GovernanceReply
  voted : Vote → Proposal → GovernanceReply
  refused : GovernanceError → GovernanceReply

-- What a request for a new proposal may set; the serializer has no field that is read only.
pub record ProposalRequest : Type 0 where
  pub category : ProposalCategory
  pub voting_starts : ℕ
  pub voting_ends : ℕ
  pub votes_for : ℕ
  pub votes_against : ℕ
  pub quorum_required : ℕ

unfoldable pub perform_create :
    ℕ → User → ProposalRequest → Governance → GovernanceReply × Governance
perform_create id user q s =
    let p : Proposal = record {
      id = id;
      proposer = user.id;
      category = q.category;
      voting_starts = q.voting_starts;
      voting_ends = q.voting_ends;
      votes_for = q.votes_for;
      votes_against = q.votes_against;
      quorum_required = q.quorum_required;
      status = draft;
      blockchain_id = none;
      execution_tx_hash = none;
    } in
    (proposal_is p, record s { proposals = p ∷ s.proposals })

abbrev pub is_draft : ProposalStatus → Bool
is_draft draft = true
is_draft _ = false

abbrev pub is_active_proposal : Proposal → Bool
is_active_proposal p = elim p.status [ active ↦ true | _ ↦ false ]

abbrev pub is_passed : ProposalStatus → Bool
is_passed passed = true
is_passed _ = false

abbrev pub open_voting : ℕ → Proposal → Proposal
open_voting h p = record p { status = active; blockchain_id = some h }

-- `tx` is what the chain answers, none if it raises.
unfoldable pub submit : ℕ → User → Option ℕ → Governance → GovernanceReply × Governance
submit id user tx s = elim (find? (has_proposal_id id) s.proposals) [
  | none ↦ (refused not_found, s)
  | some p ↦
      if not (p.proposer == user.id) && not user.is_staff
      then (refused not_authorized, s)
      else if not (is_draft p.status)
      then (refused not_draft, s)
      else elim tx [
        | none ↦ (refused call_failed, s)
        | some h ↦ (proposal_is (open_voting h p), save_proposal (open_voting h p) s)
      ]
]

abbrev pub is_in_period : ℕ → Proposal → Bool
is_in_period now p = leb p.voting_starts now && leb now p.voting_ends

-- `active`
unfoldable pub active_proposals : ℕ → Governance → List Proposal
active_proposals now s = filter (λ p. is_active_proposal p && is_in_period now p) s.proposals

-- `_PROPOSAL_ACTION_TYPE`
abbrev pub action_type : ProposalCategory → ActionType
action_type parameter = param_change
action_type policy = param_change
action_type upgrade = emergency
action_type other = param_change

abbrev pub mark_executed : ℕ → Proposal → Proposal
mark_executed h p = record p { status = executed; execution_tx_hash = some h }

abbrev pub new_action : User → ℕ → Proposal → GovernanceAction
new_action user h p = record {
  action_type = action_type p.category;
  executed_by = user.id;
  proposal = p.id;
  action_tx_hash = h;
}

abbrev pub log_action : GovernanceAction → Governance → Governance
log_action a s = record s { actions = a ∷ s.actions }

unfoldable pub execute : ℕ → User → Option ℕ → Governance → GovernanceReply × Governance
execute id user tx s = elim (find? (has_proposal_id id) s.proposals) [
  | none ↦ (refused (if user.is_staff then not_found else admin_only), s)
  | some p ↦
      if not user.is_staff
      then (refused admin_only, s)
      else if not (is_passed p.status)
      then (refused not_passed, s)
      else elim tx [
        | none ↦ (refused call_failed, s)
        | some h ↦ (
          proposal_is (mark_executed h p),
          log_action (new_action user h p) (save_proposal (mark_executed h p) s),
        )
      ]
]

-- The units of the voter's active GDP units, or 1.
unfoldable pub voting_power : ℕ → Gdp → ℕ
voting_power voter g =
    let n = sum (λ (u : GdpUnit). u.total_units) (filter (is_active_of voter) g.units) in
    if n == 0 then 1 else n

abbrev pub is_vote_on : ℕ → Vote → Bool
is_vote_on proposal v = v.proposal == proposal

abbrev pub is_vote_of : ℕ → ℕ → Vote → Bool
is_vote_of proposal voter v = is_vote_on proposal v && (v.voter == voter)

abbrev pub count_vote : Bool → ℕ → Proposal → Proposal
count_vote true power p = record p { votes_for = p.votes_for + power }
count_vote false power p = record p { votes_against = p.votes_against + power }

-- `if votes_for >= quorum_required`
unfoldable pub decide : Proposal → Proposal
decide p = if leb p.quorum_required p.votes_for then record p { status = passed } else p

abbrev pub add_vote : Vote → Governance → Governance
add_vote v s = record s { votes = v ∷ s.votes }

abbrev pub new_vote : ℕ → ℕ → Bool → ℕ → ℕ → ℕ → Vote
new_vote proposal voter b power h now = record {
  proposal = proposal;
  voter = voter;
  vote_for = b;
  voting_power = power;
  vote_tx_hash = h;
  voted_at = now;
}

-- `Proposal.objects.get(id=id, status='ACTIVE')`
unfoldable pub get_active : ℕ → Governance → Option Proposal
get_active id s = only is_active_proposal (find? (has_proposal_id id) s.proposals)

unfoldable pub cast : ℕ → ℕ → Bool → ℕ → Option ℕ → Gdp → Governance → GovernanceReply × Governance
unfolding get_active voting_power decide
cast id voter b now tx g s = elim (get_active id s) [
  | none ↦ (refused not_active, s)
  | some p ↦
      if ltb now p.voting_starts || ltb p.voting_ends now
      then (refused period_not_active, s)
      else if any (is_vote_of p.id voter) s.votes
      then (refused already_voted, s)
      else elim tx [
        | none ↦ (refused call_failed, s)
        | some h ↦
            let v = new_vote p.id voter b (voting_power voter g) h now in
            let p' = decide (count_vote b (voting_power voter g) p) in
            (voted v p', save_proposal p' (add_vote v s))
      ]
]

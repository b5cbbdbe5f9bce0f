-- ===== src/Paa/Budgets.antt =====
-- The budgets and rule changes of backend/payment_bridge/paa_service.py: proposeBudget,
-- voteOnRuleChange, applyApprovedRuleChange, uploadCourtApproval, and createCorpusFund.
pub mod Voting
use irg_gdp.Base.{
  ℕ, suc, Bool, true, false, Option, none, some, List, [], ◌∷◌, length, filter, find?, update_where,
  leb, ◌==◌, if◌then◌else◌,
}
use irg_gdp.Paa.Model.{
  CorpusFund, Budget, ChangeStatus, voting, approved, court_approved, implemented, Vote, RuleChange,
  AuditAction, budget_proposed, budget_voted, budget_revised, court_approval_uploaded, cf_created,
  Paa,
}
use irg_gdp.Paa.Transactions.{audit, is_active_budget}

pub data ChangeError : Type 0 where
  change_not_found not_approved : ChangeError

pub data ChangeReply : Type 0 where
  changed : RuleChange → ChangeReply
  change_rejected : ChangeError → ChangeReply

abbrev pub is_change : ℕ → RuleChange → Bool
is_change id c = c.id == id

abbrev pub get_change : ℕ → Paa → Option RuleChange
get_change id s = find? (is_change id) s.rule_changes

-- `rc.save()`
abbrev pub save_change : RuleChange → Paa → Paa
save_change c s = record s { rule_changes = update_where (is_change c.id) (λ _. c) s.rule_changes }

unfoldable pub propose_budget : ℕ → ℕ → Option Budget → ℕ → Paa → RuleChange × Paa
propose_budget id actor b required s =
    let c : RuleChange = record {
      id = id;
      proposed_by = actor;
      votes = [];
      required_votes = required;
      status = voting;
      new_budget = b;
      court_approval_id = none;
    } in
    (c, audit budget_proposed actor id (record s { rule_changes = c ∷ s.rule_changes }))

-- `votes[actor] = …`
unfoldable pub set_vote : ℕ → Bool → List Vote → List Vote
set_vote actor b [] = record { actor = actor; is_approval = b } ∷ []
set_vote actor b (v ∷ vs) =
    let rest = set_vote actor b vs in
    if v.actor == actor then record v { is_approval = b } ∷ vs else v ∷ rest

abbrev pub is_approval : Vote → Bool
is_approval v = v.is_approval

abbrev pub approvals : List Vote → ℕ
approvals vs = length (filter is_approval vs)

unfoldable pub vote : ℕ → Bool → RuleChange → RuleChange
unfolding set_vote
vote actor b c =
    let vs = set_vote actor b c.votes in
    record c {
      votes = vs;
      status = if leb c.required_votes (approvals vs) then approved else c.status;
    }

unfoldable pub vote_on_rule_change : ℕ → ℕ → Bool → Paa → ChangeReply × Paa
unfolding vote
vote_on_rule_change id actor b s = elim (get_change id s) [
  | none ↦ (change_rejected change_not_found, s)
  | some c ↦ let c' = vote actor b c in (changed c', audit budget_voted actor id (save_change c' s))
]

abbrev pub deactivate : Budget → Budget
deactivate b = record b { is_active = false }

-- What `update_or_create` gives to a row: all but the key and the resolution's hash.
abbrev pub overwrite : Budget → Budget → Budget
overwrite b old = record b {
  budget_id = old.budget_id;
  resolution_hash = old.resolution_hash;
  is_active = true;
}

-- `update_or_create`; a new row has the empty hash, 0.
unfoldable pub update_or_create : Budget → List Budget → List Budget
update_or_create b [] = record b { resolution_hash = 0; is_active = true } ∷ []
update_or_create b (x ∷ xs) =
    let rest = update_or_create b xs in
    if x.budget_id == b.budget_id then overwrite b x ∷ xs else x ∷ rest

unfoldable pub install : Option Budget → List Budget → List Budget
unfolding update_or_create
install none bs = bs
install (some b) bs = update_or_create b (update_where is_active_budget deactivate bs)

abbrev pub is_applicable : ChangeStatus → Bool
is_applicable approved = true
is_applicable court_approved = true
is_applicable _ = false

unfoldable pub apply_approved_rule_change : ℕ → ℕ → Paa → ChangeReply × Paa
unfolding install
apply_approved_rule_change id actor s = elim (get_change id s) [
  | none ↦ (change_rejected change_not_found, s)
  | some c ↦
      if is_applicable c.status
      then (
        changed (record c { status = implemented }),
        audit budget_revised actor id (
            save_change (record c { status = implemented })
              (record s { budgets = install c.new_budget s.budgets })),
      )
      else (change_rejected not_approved, s)
]

abbrev pub uphold : ℕ → RuleChange → RuleChange
uphold approval c = record c { status = court_approved; court_approval_id = some approval }

-- The row of the approval itself is not read by anything, and is left out.
unfoldable pub upload_court_approval : ℕ → ℕ → Option ℕ → Paa → Paa
upload_court_approval id actor none s = audit court_approval_uploaded actor id s
upload_court_approval id actor (some k) s = elim (get_change k s) [
  | none ↦ audit court_approval_uploaded actor id s
  | some c ↦ audit court_approval_uploaded actor id (save_change (uphold id c) s)
]

unfoldable pub create_corpus_fund : CorpusFund → ℕ → Paa → CorpusFund × Paa
create_corpus_fund f actor s = (f, audit cf_created actor f.id (record s { funds = f ∷ s.funds }))

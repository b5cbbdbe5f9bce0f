-- ===== src/Governance/Life/Tally.antt =====
-- What every life of the proposals keeps.
use irg_gdp.Base.{
  ℕ, ◌≡◌, refl, ◌∙◌, Bool, true, false, ◌&&◌, Option, some, List, [], ◌∷◌, arith, find?, any, all,
  all-save_row, all-save_unique, any-find?, all-find?, sum, not, leb, ◌==◌, if◌then◌else◌,
  is_unique, is_unique-save_row, find?-own, ==_refl, only-some, Option-cases, inl, inr,
}
use irg_gdp.Gdp.Model.{User, Gdp}
use irg_gdp.Governance.Model.{
  Proposal, ProposalStatus, passed, executed, Vote, Governance, has_proposal_id, proposal_id,
  save_proposal,
}
use irg_gdp.Governance.Voting.{
  ProposalRequest, perform_create, submit, open_voting, mark_executed, execute, cast, get_active,
  decide, count_vote, is_vote_on, voting_power, is_active_proposal, new_vote, add_vote,
}
use irg_gdp.Governance.Life.{Step, draw_up, submit_one, execute_one, cast_one, Reach, here, next}

abbrev pub is_same : Bool → Bool → Bool
is_same true b = b
is_same false b = not b

-- The power of a vote for a proposal that is for it, or against it.
abbrev pub power_in : Bool → ℕ → Vote → ℕ
power_in b id v = if (v.proposal == id) && is_same b v.vote_for then v.voting_power else 0

abbrev pub tally : Bool → ℕ → List Vote → ℕ
tally b id vs = sum (power_in b id) vs

abbrev pub was_passed : ProposalStatus → Bool
was_passed passed = true
was_passed executed = true
was_passed _ = false

-- The counts of a proposal are those of its votes, and a proposal that was passed has the quorum.
abbrev pub is_counted : List Vote → Proposal → Bool
is_counted vs p =
    (p.votes_for == tally true p.id vs)
    && (p.votes_against == tally false p.id vs)
    && (if was_passed p.status then leb p.quorum_required p.votes_for else true)

abbrev pub IsCounted : Governance → Type 0
IsCounted s =
    (is_unique proposal_id s.proposals ≡ true) × (all (is_counted s.votes) s.proposals ≡ true)

tally_none :
    (b : Bool) (id : ℕ) (vs : List Vote) → any (is_vote_on id) vs ≡ false → tally b id vs ≡ 0
tally_none b id [] h = refl
tally_none b id (v ∷ vs) h = ground (arith, tally_none b id vs)

create-IsCounted :
    (id : ℕ) (user : User) (q : ProposalRequest) (s : Governance)
    → any (has_proposal_id id) s.proposals ≡ false
    → any (is_vote_on id) s.votes ≡ false
    → q.votes_for ≡ 0
    → q.votes_against ≡ 0
    → IsCounted s
    → IsCounted (perform_create id user q s).1
unfolding perform_create
create-IsCounted id user q s f g a b (u, c) = (
  ground (arith, f, u),
  ground (arith, a, b, c, tally_none true id s.votes g, tally_none false id s.votes g),
)

found_counted :
    (p : Proposal) (s : Governance)
    → find? (has_proposal_id p.id) s.proposals ≡ some p
    → all (is_counted s.votes) s.proposals ≡ true
    → is_counted s.votes p ≡ true
found_counted p s f c = (all-find? (is_counted s.votes) (has_proposal_id p.id) p s.proposals c f).0

-- A row that takes another's place, with its key and its counts, and is counted.
replaced-IsCounted :
    (p p' : Proposal) (s : Governance)
    → p'.id ≡ p.id
    → find? (has_proposal_id p.id) s.proposals ≡ some p
    → (is_counted s.votes p ≡ true → is_counted s.votes p' ≡ true)
    → IsCounted s
    → IsCounted (save_proposal p' s)
replaced-IsCounted p p' s e f k (u, c) = (
  is_unique-save_row proposal_id p'.id p' s.proposals refl u,
  all-save_row (is_counted s.votes) (has_proposal_id p'.id) p' s.proposals c
      (k (found_counted p s f c)),
)

submit-IsCounted :
    (id : ℕ) (user : User) (tx : Option ℕ) (s : Governance)
    → IsCounted s
    → IsCounted (submit id user tx s).1
unfolding submit
submit-IsCounted id user tx s h = elim (Option-cases (find? (has_proposal_id id) s.proposals)) [
  | inl e ↦ rw (submit, e) h
  | inr (p, e) ↦ elim (Option-cases tx) [
    | inl g ↦ ground (arith, e, g, h)
    | inr (x, g) ↦
        let (f, _) = find?-own proposal_id id p s.proposals e in
        let r = replaced-IsCounted p (open_voting x p) s refl f in ground (arith, e, g, h, r)
  ]
]

execute-IsCounted :
    (id : ℕ) (user : User) (tx : Option ℕ) (s : Governance)
    → IsCounted s
    → IsCounted (execute id user tx s).1
unfolding execute
execute-IsCounted id user tx s h = elim (Option-cases (find? (has_proposal_id id) s.proposals)) [
  | inl e ↦ rw (execute, e) h
  | inr (p, e) ↦ elim (Option-cases tx) [
    | inl g ↦ ground (arith, e, g, h)
    | inr (x, g) ↦
        let (f, _) = find?-own proposal_id id p s.proposals e in
        let r = replaced-IsCounted p (mark_executed x p) s refl f in ground (arith, e, g, h, r)
  ]
]

decide-id : (p : Proposal) → (decide p).id ≡ p.id
unfolding decide
decide-id p = ground arith

counted-cast :
    (b : Bool) (power voter h now : ℕ) (p : Proposal) (vs : List Vote)
    → is_active_proposal p ≡ true
    → is_counted vs p ≡ true
    → is_counted (new_vote p.id voter b power h now ∷ vs) (decide (count_vote b power p)) ≡ true
unfolding decide
counted-cast true power voter h now p vs a c = ground (arith, ==_refl p.id)
counted-cast false power voter h now p vs a c = ground (arith, ==_refl p.id)

counted_others :
    (b : Bool) (power voter h now id : ℕ) (vs : List Vote) (x : Proposal)
    → (x.id == id) ≡ false
    → is_counted vs x ≡ true
    → is_counted (new_vote id voter b power h now ∷ vs) x ≡ true
counted_others b power voter h now id vs x e c = ground arith

voted-IsCounted :
    (b : Bool) (power voter h now : ℕ) (p p' : Proposal) (s : Governance)
    → p'.id ≡ p.id
    → find? (has_proposal_id p.id) s.proposals ≡ some p
    → is_counted (new_vote p.id voter b power h now ∷ s.votes) p' ≡ true
    → IsCounted s
    → IsCounted (save_proposal p' (add_vote (new_vote p.id voter b power h now) s))
voted-IsCounted b power voter h now p p' s i f k (u, c) =
    let d = λ (x : Proposal) (e : (x.id == p'.id) ≡ false) (k : is_counted s.votes x ≡ true).
      counted_others b power voter h now p.id s.votes x (rw (← i) e) k in
    let a = any-find? (has_proposal_id p.id) p s.proposals f in
    let a' : any (has_proposal_id p'.id) s.proposals ≡ true = rw i a in
    (
      is_unique-save_row proposal_id p'.id p' s.proposals refl u,
      all-save_unique proposal_id (is_counted s.votes)
          (is_counted (new_vote p.id voter b power h now ∷ s.votes)) p'.id p' s.proposals u d k a'
          c,
    )

count-id : (b : Bool) (power : ℕ) (p : Proposal) → (count_vote b power p).id ≡ p.id
count-id true power p = refl
count-id false power p = refl

pub found_active :
    (id : ℕ) (s : Governance) (p : Proposal)
    → get_active id s ≡ some p
    → (find? (has_proposal_id p.id) s.proposals ≡ some p) × (is_active_proposal p ≡ true)
unfolding get_active
found_active id s p e =
    let (f, a) = only-some is_active_proposal (find? (has_proposal_id id) s.proposals) p e in
    ((find?-own proposal_id id p s.proposals f).0, a)

cast-IsCounted :
    (id voter : ℕ) (b : Bool) (now : ℕ) (tx : Option ℕ) (g : Gdp) (s : Governance)
    → IsCounted s
    → IsCounted (cast id voter b now tx g s).1
unfolding cast
cast-IsCounted id voter b now tx g s h = elim (Option-cases (get_active id s)) [
  | inl e ↦ rw (cast, e) h
  | inr (p, e) ↦ elim (Option-cases tx) [
    | inl t ↦ ground (arith, e, t, h)
    | inr (x, t) ↦
        let (f, a) = found_active id s p e in
        let w = voting_power voter g in
        let k = counted-cast b w voter x now p s.votes a (found_counted p s f h.1) in
        let i = decide-id (count_vote b w p) ∙ count-id b w p in
        let r = voted-IsCounted b w voter x now p (decide (count_vote b w p)) s i f k h in
        ground (arith, e, t, h, r)
  ]
]

step-IsCounted : (s t : Governance) → Step s t → IsCounted s → IsCounted t
step-IsCounted s t (draw_up id user q f g a b) h = create-IsCounted id user q s f g a b h
step-IsCounted s t (submit_one id user tx) h = submit-IsCounted id user tx s h
step-IsCounted s t (execute_one id user tx) h = execute-IsCounted id user tx s h
step-IsCounted s t (cast_one id voter b now tx g) h = cast-IsCounted id voter b now tx g s h

-- Let the proposals have different keys, each counts for and against equal to the power of its
-- votes, and each one that is passed or executed its quorum. This stays so after any sequence of
-- the calls that create, submit, vote on and execute proposals, if a new proposal has a key that no
-- proposal and no vote names and starts with no votes. The generic PUT, PATCH and DELETE on
-- proposals and on votes are not among these calls.
pub votes-IsCounted : (s t : Governance) → Reach s t → IsCounted s → IsCounted t
votes-IsCounted s t here h = h
votes-IsCounted s t (next {t = m} r st) h = step-IsCounted m t st (votes-IsCounted s m r h)

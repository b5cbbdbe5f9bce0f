-- ===== src/Governance/Life.antt =====
-- The calls of backend/governance/views.py that write, in any order, by users whose GDP units may be
-- any at each vote. A new proposal has a key that no row has, and its request gives it no votes. The
-- generic PUT, PATCH and DELETE that the view sets inherit are not among them.
pub mod Tally
pub mod Ballots
pub mod Power
use irg_gdp.Base.{ℕ, ◌≡◌, Bool, false, Option, any}
use irg_gdp.Gdp.Model.{User, Gdp}
use irg_gdp.Governance.Model.{Governance, has_proposal_id}
use irg_gdp.Governance.Voting.{ProposalRequest, perform_create, is_vote_on, submit, execute, cast}

pub data Step : Governance → Governance → Type 0 where
  draw_up :
      {s : Governance} (id : ℕ) (user : User) (q : ProposalRequest)
      → any (has_proposal_id id) s.proposals ≡ false
      → any (is_vote_on id) s.votes ≡ false
      → q.votes_for ≡ 0
      → q.votes_against ≡ 0
      → Step s (perform_create id user q s).1
  submit_one :
      {s : Governance} (id : ℕ) (user : User) (tx : Option ℕ) → Step s (submit id user tx s).1
  execute_one :
      {s : Governance} (id : ℕ) (user : User) (tx : Option ℕ) → Step s (execute id user tx s).1
  cast_one :
      {s : Governance} (id voter : ℕ) (b : Bool) (now : ℕ) (tx : Option ℕ) (g : Gdp)
      → Step s (cast id voter b now tx g s).1

pub data Reach (s : Governance) : Governance → Type 0 where
  here : Reach s s
  next : {t u : Governance} → Reach s t → Step t u → Reach s u

-- ===== src/Governance/Life/Ballots.antt =====
-- How often a user votes on a proposal.
use irg_gdp.Base.{
  ℕ, ◌≤◌, ◌≡◌, refl, Bool, false, Option, List, [], ◌∷◌, arith, length, filter, any, Option-cases,
  Bool-cases, inl, inr, &&-true, ==_iff, ◌==◌,
}
use irg_gdp.Gdp.Model.{User, Gdp}
use irg_gdp.Governance.Model.{Vote, Governance}
use irg_gdp.Governance.Voting.{
  perform_create, submit, execute, cast, get_active, is_vote_of, voting_power, new_vote,
}
use irg_gdp.Governance.Life.{Step, draw_up, submit_one, execute_one, cast_one, Reach, here, next}

abbrev pub ballots : ℕ → ℕ → List Vote → ℕ
ballots proposal voter vs = length (filter (is_vote_of proposal voter) vs)

no_ballots : (p w : ℕ) (vs : List Vote) → any (is_vote_of p w) vs ≡ false → ballots p w vs ≡ 0
no_ballots p w [] h = refl
no_ballots p w (v ∷ vs) h = ground (arith, no_ballots p w vs)

other_name :
    (p w q v : ℕ) (vs : List Vote)
    → q ≡ p
    → v ≡ w
    → any (is_vote_of q v) vs ≡ false
    → any (is_vote_of p w) vs ≡ false
other_name p w q v vs e f h = rw (← e, ← f) h

vote_once :
    (p w q voter power h now : ℕ) (b : Bool) (vs : List Vote)
    → any (is_vote_of q voter) vs ≡ false
    → ballots p w vs ≤ 1
    → ballots p w (new_vote q voter b power h now ∷ vs) ≤ 1
vote_once p w q voter power h now b vs f k =
    elim (Bool-cases (is_vote_of p w (new_vote q voter b power h now))) [
      | inl e ↦
          let (x, y) = &&-true (q == p) (voter == w) e in
          let n =
            no_ballots p w vs
              (other_name p w q voter vs ((==_iff q p).0 x) ((==_iff voter w).0 y) f) in
          ground (arith, e, n)
      | inr e ↦ ground (arith, e, k)
    ]

cast-ballots :
    (id voter : ℕ) (b : Bool) (now : ℕ) (tx : Option ℕ) (g : Gdp) (s : Governance) (p w : ℕ)
    → ballots p w s.votes ≤ 1
    → ballots p w (cast id voter b now tx g s).1.votes ≤ 1
unfolding cast
cast-ballots id voter b now tx g s p w k = elim (Option-cases (get_active id s)) [
  | inl e ↦ rw (cast, e) k
  | inr (q, e) ↦ elim (Option-cases tx) [
    | inl t ↦ ground (arith, e, t, k)
    | inr (x, t) ↦ elim (Bool-cases (any (is_vote_of q.id voter) s.votes)) [
      | inl f ↦ ground (arith, e, t, f, k)
      | inr f ↦
          let r = vote_once p w q.id voter (voting_power voter g) x now b s.votes f k in
          ground (arith, e, t, f, k, r)
    ]
  ]
]

submit-votes :
    (id : ℕ) (user : User) (tx : Option ℕ) (s : Governance)
    → (submit id user tx s).1.votes ≡ s.votes
unfolding submit
submit-votes id user tx s = ground arith

execute-votes :
    (id : ℕ) (user : User) (tx : Option ℕ) (s : Governance)
    → (execute id user tx s).1.votes ≡ s.votes
unfolding execute
execute-votes id user tx s = ground arith

step-ballots :
    (s t : Governance) (p w : ℕ) → Step s t → ballots p w s.votes ≤ 1 → ballots p w t.votes ≤ 1
unfolding perform_create
step-ballots s t p w (draw_up id user q f g a b) k = k
step-ballots s t p w (submit_one id user tx) k = rw (submit-votes id user tx s) k
step-ballots s t p w (execute_one id user tx) k = rw (execute-votes id user tx s) k
step-ballots s t p w (cast_one id voter b now tx g) k = cast-ballots id voter b now tx g s p w k

-- A user who has at most one vote on a proposal has at most one after any sequence of the calls.
pub one_ballot_each :
    (s t : Governance) (proposal voter : ℕ)
    → Reach s t
    → ballots proposal voter s.votes ≤ 1
    → ballots proposal voter t.votes ≤ 1
one_ballot_each s t p w here k = k
one_ballot_each s t p w (next {t = m} r st) k =
    step-ballots m t p w st (one_ballot_each s m p w r k)

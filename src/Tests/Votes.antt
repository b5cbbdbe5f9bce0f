-- ===== src/Tests/Votes.antt =====
-- The governance at work.
use irg_gdp.Gdp.Transfers.{transfer}
use irg_gdp.Gdp.Minting.{execute_mint, verify_checklist, create}
use irg_gdp.Base.{◌≤◌, ◌≡◌, refl, true, none, some, [], arith}
use irg_gdp.Gdp.Model.{User, gift, get_active_unit}
use irg_gdp.Governance.Model.{active, Proposal, Governance, parameter, Vote}
use irg_gdp.Governance.Voting.{
  ProposalRequest, perform_create, submit, cast, voted, get_active, voting_power,
}
use irg_gdp.Governance.Life.{Reach, draw_up, submit_one, cast_one}
use irg_gdp.Governance.Life.Tally.{IsCounted, votes-IsCounted}
use irg_gdp.Governance.Life.Ballots.{ballots, one_ballot_each}
use irg_gdp.Governance.Life.Power.{power_counts_twice}
use irg_gdp.Governance.Life.{here, next}
use irg_gdp.Tests.Units.{alice, minted_once, unit_20, given}

-- A proposal with a quorum of 250 units.
abbrev bob : User
bob = record { id = 2; is_staff = true }

abbrev request : ProposalRequest
request = record {
  category = parameter;
  voting_starts = 1;
  voting_ends = 100;
  votes_for = 0;
  votes_against = 0;
  quorum_required = 150;
}

abbrev no_governance : Governance
no_governance = record { proposals = []; votes = []; actions = [] }

abbrev open_one : Governance
open_one = (submit 60 alice (some 95) (perform_create 60 alice request no_governance).1).1

abbrev alice_voted : Governance
alice_voted = (cast 60 1 true 10 (some 94) minted_once open_one).1

abbrev lives : Reach no_governance alice_voted
lives =
    next
      (next (next here (draw_up 60 alice request refl refl refl refl))
        (submit_one 60 alice (some 95)))
      (cast_one 60 1 true 10 (some 94) minted_once)

votes-IsCounted_example : IsCounted alice_voted
votes-IsCounted_example = votes-IsCounted no_governance alice_voted lives (refl, refl)

one_ballot_each_example : ballots 60 1 alice_voted.votes ≤ 1
one_ballot_each_example = one_ballot_each no_governance alice_voted 60 1 lives (omega arith)

abbrev the_proposal : Proposal
the_proposal = record {
  id = 60;
  proposer = 1;
  category = parameter;
  voting_starts = 1;
  voting_ends = 100;
  votes_for = 0;
  votes_against = 0;
  quorum_required = 150;
  status = active;
  blockchain_id = some 95;
  execution_tx_hash = none;
}

power_counts_twice_example :
    (v : Vote) × (q : Proposal) × ((cast 60 2 true 10 (some 93) given alice_voted).0 ≡ voted v q)
    × (200 ≤ q.votes_for)
unfolding get_active submit perform_create voting_power execute_mint verify_checklist create
    get_active_unit transfer cast
power_counts_twice_example =
    power_counts_twice 60 1 2 10 20 40 30 94 97 93 gift minted_once open_one the_proposal unit_20
      refl refl refl refl (λ e. absurd (omega (arith, e))) (omega arith) refl

-- ===== src/Tests/Recalls.antt =====
-- The recalls and the guarded views at work.
use irg_gdp.Gdp.Minting.{execute_mint, verify_checklist, create}
use irg_gdp.Base.{◌≡◌, ◌≢◌, refl, ap, Bool, true, false, none, some, [], ◌∷◌, arith, find?}
use irg_gdp.Wallet.Guard.{GuardCode, passed, wallet_check, check_account}
use irg_gdp.Gdp.Model.{Gdp, has_unit_id, gift, buy}
use irg_gdp.Gdp.Trading.{TradeRequest}
use irg_gdp.Gdp.Transfers.{
  create_earmark, release, activate_unit, new_earmark, earmark_unit, get_earmark,
}
use irg_gdp.Gdp.Guarded.{after, transfer_view}
use irg_gdp.Gdp.Guarded.Refusal.{refused_changes_nothing}
use irg_gdp.Recall.Model.{Recall, RecallOrder, DacProposal, inactive}
use irg_gdp.Recall.Execution.{
  initiate, approve, execute, new_order, approve_order, order_is, complete_order, recall_proposal,
  burn,
}
use irg_gdp.Recall.Dac.{vote, beat, reapprove}
use irg_gdp.Recall.Dac.Approval.{late_approval_reopens, release_revives}
use irg_gdp.Wallet.Model.{recovering, is_transactable}
use irg_gdp.Tests.Samples.{with_claim}
use irg_gdp.Tests.Units.{exact, alice, minted_once, unit_20}

abbrev no_recall : Recall
no_recall = record {
  orders = [];
  affected = [];
  nodes = [];
  proposals = [];
  votes = [];
  emergencies = [];
}

-- Unit 20 is recalled, and a unit that does not exist.
abbrev ordered : Recall
ordered = (approve 70 9 11 (initiate true 70 71 9 (20 ∷ 99 ∷ []) none no_recall).1).1

abbrev the_order : RecallOrder
the_order = approve_order 9 11 (new_order 70 9 (20 ∷ 99 ∷ []) none)

abbrev recalled : Recall × Gdp
recalled = (execute 70 12 (some 92) (ordered, minted_once)).1

-- One vote is required, and the node of user 3 gives it after the recall.
abbrev one_vote : DacProposal
one_vote = record (recall_proposal 71 9 70) { votes_required = 1 }

abbrev with_node : Recall
with_node = record recalled.0 {
  proposals = one_vote ∷ [];
  nodes = beat 13 (record { id = 80; operator = 3; status = inactive; last_heartbeat = none }) ∷ [];
}

late_approval_reopens_example :
    (execute 70 15 (some 91) ((vote 71 3 true 14 true with_node).1, recalled.1)).0
    ≡ order_is (complete_order 15 91 (reapprove 14 (complete_order 12 92 the_order)))
unfolding execute approve initiate execute_mint verify_checklist create
late_approval_reopens_example =
    late_approval_reopens 71 3 14 15 91 with_node recalled.1 one_vote
      (beat 13 (record { id = 80; operator = 3; status = inactive; last_heartbeat = none })) 70
      (complete_order 12 92 the_order) refl refl refl refl (omega arith) refl refl

-- Unit 20 is earmarked before the recall burns it.
abbrev earmarked_once : Gdp
earmarked_once = (create_earmark exact 50 1 (some 20) (some 0) none (some 90) minted_once).1

abbrev burned_after : Gdp
burned_after = (execute 70 12 (some 92) (ordered, earmarked_once)).1.1

release_revives_example :
    find? (has_unit_id 20) (release 1 50 100 (some 89) burned_after).1.units
    ≡ some (activate_unit (burn (earmark_unit unit_20)))
unfolding get_earmark execute approve initiate create_earmark execute_mint verify_checklist create
release_revives_example =
    release_revives 1 50 100 89 burned_after (new_earmark exact 50 1 1100 0 90 unit_20)
      (burn (earmark_unit unit_20)) refl refl (omega arith) refl

abbrev is_passed : GuardCode → Bool
is_passed passed = true
is_passed c = false

-- A recovery that is filed keeps the wallet's owner from giving unit 20 away.
still_refused : wallet_check false true 5 true (some (with_claim recovering)) ≢ passed
unfolding wallet_check check_account is_transactable
still_refused e = let f : false ≡ true = ap is_passed e in ground (arith, f)

abbrev an_order : TradeRequest
an_order = record { trade_type = buy; units = 5; price_per_unit = 80 }

refused_changes_nothing_example :
    after
      (transfer_view 5 true
        (some (with_claim recovering))
        20
        40
        1
        20
        (some 2)
        gift
        (some 97)
        minted_once)
      minted_once
    ≡ minted_once
refused_changes_nothing_example =
    (refused_changes_nothing 5 true (some (with_claim recovering)) minted_once still_refused exact
      alice 20 20 40 none (some 2) (some 97) gift an_order).3

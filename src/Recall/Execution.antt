-- ===== src/Recall/Execution.antt =====
-- RecallOrderViewSet of backend/recall/views.py. Its calls are for administrators.
pub mod Burning
use irg_gdp.Base.{
  ℕ, Bool, true, false, Option, none, some, List, [], ◌∷◌, find?, has_key_of, save_row,
  if◌then◌else◌,
}
use irg_gdp.Gdp.Model.{GdpUnit, burned, Gdp, has_unit_id, save_unit}
use irg_gdp.Recall.Model.{
  RecallOrder, RecallStatus, initiated, approved, executing, completed, RecallAffectedUnit,
  DacProposal, voting, Recall, order_id, save_order,
}

pub data RecallError : Type 0 where
  order_not_found invalid_status not_approved recall_failed not_encoded : RecallError

pub data RecallReply : Type 0 where
  order_is : RecallOrder → RecallReply
  recall_refused : RecallError → RecallReply

abbrev pub new_order : ℕ → ℕ → List ℕ → Option ℕ → RecallOrder
new_order id user units target = record {
  id = id;
  target_units = units;
  target_user = target;
  initiated_by = user;
  approved_by = none;
  status = initiated;
  recall_tx_hash = none;
  approved_at = none;
  completed_at = none;
}

-- Three votes are required by default.
abbrev pub recall_proposal : ℕ → ℕ → ℕ → DacProposal
recall_proposal id user order = record {
  id = id;
  linked_recall = some order;
  proposer = user;
  votes_required = 3;
  votes_received = 0;
  status = voting;
}

-- `target` is the user with the given address, if there is one; `is_encoded` tells whether the list
-- of keys could be written into the JSON column of the order.
unfoldable pub initiate : Bool → ℕ → ℕ → ℕ → List ℕ → Option ℕ → Recall → RecallReply × Recall
initiate false id proposal user units target s = (recall_refused not_encoded, s)
initiate true id proposal user units target s =
    let o = new_order id user units target in
    (
      order_is o,
      record s {
        orders = o ∷ s.orders;
        proposals = recall_proposal proposal user id ∷ s.proposals;
      },
    )

abbrev pub get_order : ℕ → Recall → Option RecallOrder
get_order id s = find? (has_key_of order_id id) s.orders

abbrev pub is_initiated : RecallStatus → Bool
is_initiated initiated = true
is_initiated _ = false

abbrev pub is_approved : RecallStatus → Bool
is_approved approved = true
is_approved _ = false

abbrev pub approve_order : ℕ → ℕ → RecallOrder → RecallOrder
approve_order user now o = record o {
  status = approved;
  approved_by = some user;
  approved_at = some now;
}

unfoldable pub approve : ℕ → ℕ → ℕ → Recall → RecallReply × Recall
approve id user now s = elim (get_order id s) [
  | none ↦ (recall_refused order_not_found, s)
  | some o ↦
      if is_initiated o.status
      then (order_is (approve_order user now o), save_order (approve_order user now o) s)
      else (recall_refused invalid_status, s)
]

abbrev pub burn : GdpUnit → GdpUnit
burn u = record u { status = burned }

abbrev pub affected_row : ℕ → ℕ → GdpUnit → RecallAffectedUnit
affected_row order now u = record {
  recall_order = order;
  unit_id = u.id;
  original_owner = u.owner;
  original_value = u.benchmark_value;
  processed_at = now;
}

-- One round of the loop over the targets: a unit that does not exist is passed over.
unfoldable pub burn_one : ℕ → ℕ → ℕ → Recall × Gdp → Recall × Gdp
burn_one order now id (s, g) = elim (find? (has_unit_id id) g.units) [
  | none ↦ (s, g)
  | some u ↦ (record s { affected = affected_row order now u ∷ s.affected }, save_unit (burn u) g)
]

unfoldable pub burn_all : ℕ → ℕ → List ℕ → Recall × Gdp → Recall × Gdp
unfolding burn_one
burn_all order now [] x = x
burn_all order now (id ∷ ids) x = burn_all order now ids (burn_one order now id x)

abbrev pub complete_order : ℕ → ℕ → RecallOrder → RecallOrder
complete_order now h o = record o {
  status = completed;
  recall_tx_hash = some h;
  completed_at = some now;
}

abbrev pub start_order : RecallOrder → RecallOrder
start_order o = record o { status = executing }

-- `tx` is the answer of the chain, none if it raises: the order then stays in execution.
unfoldable pub execute_order :
    ℕ → Option ℕ → RecallOrder → Recall × Gdp → RecallReply × (Recall × Gdp)
unfolding burn_all
execute_order now none o (s, g) = (recall_refused recall_failed, (save_order (start_order o) s, g))
execute_order now (some h) o (s, g) =
    let (s', g') = burn_all o.id now o.target_units (save_order (start_order o) s, g) in
    (order_is (complete_order now h o), (save_order (complete_order now h o) s', g'))

unfoldable pub execute : ℕ → ℕ → Option ℕ → Recall × Gdp → RecallReply × (Recall × Gdp)
unfolding execute_order
execute id now tx (s, g) = elim (get_order id s) [
  | none ↦ (recall_refused order_not_found, (s, g))
  | some o ↦
      if is_approved o.status
      then execute_order now tx o (s, g)
      else (recall_refused not_approved, (s, g))
]

-- ===== src/Recall/Dac/Approval.antt =====
-- What the votes of the nodes do to a recall, and what the release of an earmark does after one.
use irg_gdp.Base.{
  ℕ, ◌+◌, ◌/◌, ◌≤◌, ◌≡◌, refl, true, false, some, [], ◌∷◌, arith, any, filter, find?, ltb, le→leb,
  has_key_of, find?-own,
}
use irg_gdp.Gdp.Model.{TxHash, GdpUnit, EarmarkingRecord, Gdp, has_unit_id}
use irg_gdp.Gdp.Transfers.{
  release, settle_release, reactivate, get_earmark, is_earmark_active, activate_unit, save_earmark,
  mark_released,
}
use irg_gdp.Recall.Model.{RecallOrder, DacProposal, NodeAgent, Recall, save_order}
use irg_gdp.Recall.Execution.{execute, get_order, order_is, complete_order}
use irg_gdp.Recall.Execution.Burning.{execute-IsRecalled, unit_key, saved_at, saved_order}
use irg_gdp.Recall.Dac.{
  vote, vote_of_node, approve_linked, is_voting, is_active_node_of, is_dac_vote_of, dac_id,
  count_approval, reapprove, save_dac, enter_vote,
}

linked_approval :
    (now : ℕ) (s : Recall) (p : DacProposal) (r : ℕ) (o : RecallOrder)
    → p.votes_required ≤ p.votes_received + 1
    → p.linked_recall ≡ some r
    → get_order r s ≡ some o
    → approve_linked now p s ≡ save_order (reapprove now o) s
unfolding approve_linked
linked_approval now s p r o l e q =
    rw (approve_linked, le→leb p.votes_required (p.votes_received + 1) l, e, q) refl

approving_vote :
    (id user now : ℕ) (s : Recall) (p : DacProposal) (n : NodeAgent)
    → find? (has_key_of dac_id id) s.proposals ≡ some p
    → is_voting p.status ≡ true
    → filter (is_active_node_of user) s.nodes ≡ n ∷ []
    → any (is_dac_vote_of p.id n.id) s.votes ≡ false
    → (vote id user true now true s).1
      ≡ save_dac (count_approval p) (approve_linked now p (enter_vote p.id n.id user true s))
unfolding vote vote_of_node
approving_vote id user now s p n f v k a = rw (vote, f, v, k, a) refl

-- A vote that completes the required number approves the linked recall whatever its status was: an
-- order that is completed may then be executed a second time.
pub late_approval_reopens :
    (id user now later h : ℕ) (s : Recall) (g : Gdp) (p : DacProposal) (n : NodeAgent) (r : ℕ)
    (o : RecallOrder)
    → find? (has_key_of dac_id id) s.proposals ≡ some p
    → is_voting p.status ≡ true
    → filter (is_active_node_of user) s.nodes ≡ n ∷ []
    → any (is_dac_vote_of p.id n.id) s.votes ≡ false
    → p.votes_required ≤ p.votes_received + 1
    → p.linked_recall ≡ some r
    → get_order r s ≡ some o
    → (execute r later (some h) ((vote id user true now true s).1, g)).0
      ≡ order_is (complete_order later h (reapprove now o))
late_approval_reopens id user now later h s g p n r o f v k a l e q =
    let s' = enter_vote p.id n.id user true s in
    let x = saved_order r (reapprove now o) o s' refl q in
    rw (approving_vote id user now s p n f v k a, linked_approval now s' p r o l e q)
      (execute-IsRecalled r later h (save_dac (count_approval p) (save_order (reapprove now o) s'))
        g (reapprove now o) x refl).0

reactivated :
    (id : ℕ) (g : Gdp) (u : GdpUnit)
    → find? (has_unit_id id) g.units ≡ some u
    → find? (has_unit_id id) (reactivate id g).units ≡ some (activate_unit u)
unfolding reactivate
reactivated id g u k =
    let (_, e) = find?-own unit_key id u g.units k in
    rw (reactivate, k) (saved_at u.id id (activate_unit u) u g.units e (ground (arith, e)) k)

released_state :
    (user id now : ℕ) (tx : TxHash) (g : Gdp) (e : EarmarkingRecord)
    → get_earmark user id g ≡ some e
    → is_earmark_active e.status ≡ true
    → e.release_date ≤ now / 86400
    → (release user id now (some tx) g).1
      ≡ reactivate e.gdp_unit (save_earmark (mark_released now tx e) g)
unfolding release settle_release
released_state user id now tx g e f a d =
    let b : ltb (now / 86400) e.release_date ≡ false = ground (arith, d) in
    rw (release, f, a, b) refl

-- The release of an earmark after its date makes the unit active, whatever the unit had become: one
-- that a recall has burned since is active again.
pub release_revives :
    (user id now : ℕ) (tx : TxHash) (g : Gdp) (e : EarmarkingRecord) (u : GdpUnit)
    → get_earmark user id g ≡ some e
    → is_earmark_active e.status ≡ true
    → e.release_date ≤ now / 86400
    → find? (has_unit_id e.gdp_unit) g.units ≡ some u
    → find? (has_unit_id e.gdp_unit) (release user id now (some tx) g).1.units
      ≡ some (activate_unit u)
release_revives user id now tx g e u f a d k =
    rw (released_state user id now tx g e f a d)
      (reactivated e.gdp_unit (save_earmark (mark_released now tx e) g) u k)

-- ===== src/Governance/Life/Power.antt =====
-- The power of GDP units that change hands between two votes.
use irg_gdp.Base.{
  ℕ, ◌+◌, ◌≤◌, ◌<◌, ◌≡◌, ◌≢◌, refl, ◌∙◌, true, false, some, List, [], ◌∷◌, arith, any, find?,
  filter, sum, save_row, ◌==◌, if◌then◌else◌, find?-save_row, find?-own, only-some,
}
use irg_gdp.Gdp.Model.{TransferType, GdpUnit, Gdp, has_unit_id, get_active_unit, is_active_of}
use irg_gdp.Gdp.Transfers.{transfer}
use irg_gdp.Governance.Model.{
  Proposal, Vote, Governance, has_proposal_id, proposal_id, save_proposal,
}
use irg_gdp.Governance.Voting.{
  voted, cast, get_active, is_active_proposal, voting_power, is_vote_of, new_vote, add_vote, decide,
  count_vote, is_in_period,
}
use irg_gdp.Governance.Life.Tally.{found_active}
use irg_gdp.Gdp.Transfers.Conservation.{found_unit}

-- Nobody's power is below the units of an active unit that they own.
power_of_unit :
    (w : ℕ) (u : GdpUnit) (us : List GdpUnit)
    → is_active_of w u ≡ true
    → u.total_units ≤ sum (λ (v : GdpUnit). v.total_units) (filter (is_active_of w) (u ∷ us))
power_of_unit w u us e = ground (arith, e)

power-le : (n : ℕ) → n ≤ (if n == 0 then 1 else n)
power-le n = ground arith

found_power :
    (w : ℕ) (id : ℕ) (u : GdpUnit) (us : List GdpUnit)
    → find? (has_unit_id id) us ≡ some u
    → is_active_of w u ≡ true
    → u.total_units ≤ sum (λ (v : GdpUnit). v.total_units) (filter (is_active_of w) us)
found_power w id u [] f e = ground arith
found_power w id u (x ∷ xs) f e = ground (arith, found_power w id u xs)

sender_power :
    (user unit : ℕ) (g : Gdp) (u : GdpUnit)
    → get_active_unit user unit g ≡ some u
    → u.total_units ≤ voting_power user g
unfolding voting_power
sender_power user unit g u f =
    let (h, a) = found_unit user unit g u f in
    let k = found_power user u.id u g.units h a in ground (arith, k)

receiver_power :
    (id copy user now unit r h : ℕ) (k : TransferType) (g : Gdp) (u : GdpUnit)
    → get_active_unit user unit g ≡ some u
    → u.total_units ≤ voting_power r (transfer id copy user now unit (some r) k (some h) g).1
unfolding voting_power transfer
receiver_power id copy user now unit r h k g u f =
    let (_, a) = found_unit user unit g u f in rw (transfer, f) (ground (arith, a))

cast_counts :
    (pid w now h : ℕ) (g : Gdp) (s : Governance) (p : Proposal)
    → get_active pid s ≡ some p
    → is_in_period now p ≡ true
    → any (is_vote_of p.id w) s.votes ≡ false
    → cast pid w true now (some h) g s ≡ (
      voted
          (new_vote p.id w true (voting_power w g) h now)
          (decide (count_vote true (voting_power w g) p)),
      save_proposal
          (decide (count_vote true (voting_power w g) p))
          (add_vote (new_vote p.id w true (voting_power w g) h now) s),
    )
unfolding cast
cast_counts pid w now h g s p f i n = ground (arith, f, i, n)

undecided :
    (power : ℕ) (p : Proposal)
    → p.votes_for + power < p.quorum_required
    → decide (count_vote true power p) ≡ count_vote true power p
unfolding decide
undecided power p l = ground (arith)

saved_found :
    (k id : ℕ) (p q : Proposal) (s : Governance)
    → k ≡ id
    → has_proposal_id id q ≡ true
    → find? (has_proposal_id id) s.proposals ≡ some p
    → find? (has_proposal_id id) (save_row (has_proposal_id k) q s.proposals) ≡ some q
saved_found k id p q s e h f = rw e (find?-save_row (has_proposal_id id) q p s.proposals h f)

still_active :
    (pid : ℕ) (p q : Proposal) (v : Vote) (s : Governance)
    → get_active pid s ≡ some p
    → q.id ≡ p.id
    → is_active_proposal q ≡ true
    → get_active pid (save_proposal q (add_vote v s)) ≡ some q
unfolding get_active
still_active pid p q v s f e a =
    let (h, _) = only-some is_active_proposal (find? (has_proposal_id pid) s.proposals) p f in
    let (_, k) = find?-own proposal_id pid p s.proposals h in
    let i : q.id ≡ pid = e ∙ k in
    let x = saved_found q.id pid p q s i (ground (arith, i)) h in rw x (ground (arith, a))

decide-grows : (p : Proposal) → (decide p).votes_for ≡ p.votes_for
unfolding decide
decide-grows p = ground arith

-- Let an active proposal be in its period, and let two users not have voted on it. If the first
-- votes for it without reaching the quorum, transfers a GDP unit to the second, and the second
-- votes for it too, then the proposal counts the units of that one GDP unit twice.
pub power_counts_twice :
    (pid a b now unit copy id h i j : ℕ) (k : TransferType) (g : Gdp) (s : Governance)
    (p : Proposal) (u : GdpUnit)
    → get_active pid s ≡ some p
    → is_in_period now p ≡ true
    → any (is_vote_of p.id a) s.votes ≡ false
    → any (is_vote_of p.id b) s.votes ≡ false
    → a ≢ b
    → p.votes_for + voting_power a g < p.quorum_required
    → get_active_unit a unit g ≡ some u
    → (v : Vote) × (q : Proposal) × ((cast pid b true now
          (some j)
          (transfer id copy a now unit (some b) k (some i) g).1
          (cast pid a true now (some h) g s).1).0
        ≡ voted v q)
      × (p.votes_for + (u.total_units + u.total_units) ≤ q.votes_for)
power_counts_twice pid a b now unit copy id h i j k g s p u f t na nb ab l fu =
    let w = voting_power a g in
    let g' = (transfer id copy a now unit (some b) k (some i) g).1 in
    let w' = voting_power b g' in
    let v = new_vote p.id a true w h now in
    let q = count_vote true w p in
    let s' = save_proposal q (add_vote v s) in
    let e = cast_counts pid a now h g s p f t na in
    let (_, ap') = found_active pid s p f in
    let f' = still_active pid p q v s f refl ap' in
    let n' : any (is_vote_of p.id b) (v ∷ s.votes) ≡ false = ground (arith, nb, ab) in
    let e' = cast_counts pid b now j g' s' q f' t n' in
    let x = sender_power a unit g u fu in
    let y = receiver_power id copy a now unit b i k g u fu in
    let doubled : p.votes_for + (u.total_units + u.total_units)
        ≤ (decide (count_vote true w' q)).votes_for =
      rw (decide-grows (count_vote true w' q)) (omega (arith, x, y)) in
    (
      new_vote p.id b true w' j now,
      decide (count_vote true w' q),
      rw (e, undecided w p l, e') refl,
      doubled,
    )

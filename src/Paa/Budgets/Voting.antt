-- ===== src/Paa/Budgets/Voting.antt =====
-- Votes on a rule change, and the one active budget.
use irg_gdp.Base.{
  ℕ, suc, ◌≤◌, ◌≡◌, refl, Bool, true, false, Option, none, some, List, [], ◌∷◌, arith, length,
  filter, find?, update_where, ◌==◌, if◌then◌else◌, Bool-cases, Option-cases, inl, inr, ap, ◌∙◌,
  ==_iff, filter-update_where_none, find?-update_where,
}
use irg_gdp.Paa.Model.{Budget, implemented, Vote, RuleChange, Paa}
use irg_gdp.Paa.Transactions.{is_active_budget}
use irg_gdp.Paa.Budgets.{
  is_change, save_change, vote_on_rule_change, changed, get_change, set_vote, approvals, vote,
  deactivate, overwrite, update_or_create, install, is_applicable, apply_approved_rule_change,
}

-- The vote of an actor.
abbrev pub vote_of : ℕ → List Vote → Option Bool
vote_of a [] = none
vote_of a (v ∷ vs) = let rest = vote_of a vs in if v.actor == a then some v.is_approval else rest

-- A vote replaces the earlier vote of the same actor, and leaves every other actor's.
pub vote_of-set_vote :
    (a e : ℕ) (b : Bool) (vs : List Vote)
    → vote_of e (set_vote a b vs) ≡ (if a == e then some b else vote_of e vs)
unfolding set_vote
vote_of-set_vote a e b [] = refl
vote_of-set_vote a e b (v ∷ vs) = ground (arith, vote_of-set_vote a e b vs)

-- A further vote of an actor does not add a voter.
length-set_vote : (a : ℕ) (b : Bool) (vs : List Vote) → length (set_vote a b vs) ≤ suc (length vs)
unfolding set_vote
length-set_vote a b [] = omega arith
length-set_vote a b (v ∷ vs) = ground (arith, length-set_vote a b vs)

inactive_head :
    (y : Budget) (ys : List Budget)
    → filter is_active_budget (y ∷ ys) ≡ []
    → (y.is_active ≡ false) × (filter is_active_budget ys ≡ [])
inactive_head y ys h = ground arith

-- What an installed budget has of the proposed one.
abbrev pub Installs : Budget → Budget → Type 0
Installs b x =
    (x.budget_id ≡ b.budget_id)
    × (x.version ≡ b.version)
    × (x.categories ≡ b.categories)
    × (x.min_corpus_ratio ≡ b.min_corpus_ratio)

created_only :
    (b : Budget) (bs : List Budget)
    → filter is_active_budget bs ≡ []
    → (x : Budget) × (filter is_active_budget (update_or_create b bs) ≡ x ∷ []) × Installs b x
unfolding update_or_create
created_only b [] h =
    (record b { resolution_hash = 0; is_active = true }, refl, (refl, refl, refl, refl))
created_only b (y ∷ ys) h =
    let (off, rest) = inactive_head y ys h in
    elim (Bool-cases (y.budget_id == b.budget_id)) [
      | inl e ↦ (
        overwrite b y,
        rw e (ap (λ z. overwrite b y ∷ z) rest),
        ((==_iff y.budget_id b.budget_id).0 e, refl, refl, refl),
      )
      | inr e ↦ let (x, p, q) = created_only b ys rest in (x, rw (e, off) p, q)
    ]

-- Installing a budget leaves it as the only active one.
pub install_only :
    (b : Budget) (bs : List Budget)
    → (x : Budget) × (filter is_active_budget (install (some b) bs) ≡ x ∷ []) × Installs b x
unfolding install
install_only b bs =
    created_only b (update_where is_active_budget deactivate bs)
      (filter-update_where_none is_active_budget deactivate (λ x. refl) bs)

-- The budgets after a change, by the budget that the change carries.
abbrev pub Installed : Option Budget → List Budget → List Budget → Type 0
Installed none before after = after ≡ before
Installed (some b) before after =
    (x : Budget) × (filter is_active_budget after ≡ x ∷ []) × Installs b x

pub install-Installed : (o : Option Budget) (bs : List Budget) → Installed o bs (install o bs)
unfolding install
install-Installed none bs = refl
install-Installed (some b) bs = install_only b bs

pub applied :
    (id actor : ℕ) (c' : RuleChange) (s : Paa)
    → (apply_approved_rule_change id actor s).0 ≡ changed c'
    → (c : RuleChange) × (get_change id s ≡ some c)
      × (is_applicable c.status ≡ true)
      × (c' ≡ record c { status = implemented })
      × ((apply_approved_rule_change id actor s).1.budgets ≡ install c.new_budget s.budgets)
unfolding apply_approved_rule_change
applied id actor c' s h = elim (Option-cases (get_change id s)) [
  | inl e ↦ ground arith
  | inr (c, e) ↦
      let b : is_applicable c.status ≡ true = ground arith in
      (c, e, b, ground arith, rw (apply_approved_rule_change, e, b))
]

-- The change whose application answers `ok` was approved by the board or by a court. If it carries a budget, that
-- budget is then the only active one, and otherwise the budgets are as before.
pub apply_ok :
    (id actor : ℕ) (c' : RuleChange) (s : Paa)
    → (apply_approved_rule_change id actor s).0 ≡ changed c'
    → (c : RuleChange) × (get_change id s ≡ some c)
      × (is_applicable c.status ≡ true)
      × (c' ≡ record c { status = implemented })
      × Installed c.new_budget s.budgets (apply_approved_rule_change id actor s).1.budgets
apply_ok id actor c' s h =
    let (c, e, a, r, i) = applied id actor c' s h in
    (c, e, a, r, rw i (install-Installed c.new_budget s.budgets))

-- Whatever the status of a change, implemented included, a vote that leaves it with enough
-- approvals makes it approved, so that it can be applied again.
pub vote_reapproves :
    (actor : ℕ) (c : RuleChange)
    → c.required_votes ≤ approvals (set_vote actor true c.votes)
    → (is_applicable (vote actor true c).status ≡ true)
unfolding vote
vote_reapproves actor c h = ground arith

find-save_change :
    (j id : ℕ) (c u : RuleChange) (xs : List RuleChange)
    → j ≡ id
    → (u.id == id) ≡ true
    → find? (is_change id) xs ≡ some c
    → find? (is_change id) (update_where (is_change j) (λ _. u) xs) ≡ some u
find-save_change j id c u xs k e h = rw k (find?-update_where (is_change id) u c xs e h)

find-id :
    (id : ℕ) (c : RuleChange) (xs : List RuleChange) → find? (is_change id) xs ≡ some c → c.id ≡ id
find-id id c [] h = ground arith
find-id id c (x ∷ xs) h = ground (arith, find-id id c xs)

get-save_change :
    (id : ℕ) (c u : RuleChange) (s : Paa)
    → u.id ≡ c.id
    → get_change id s ≡ some c
    → find? (is_change id) (save_change u s).rule_changes ≡ some u
get-save_change id c u s e h =
    let k = e ∙ find-id id c s.rule_changes h in
    find-save_change u.id id c u s.rule_changes k ((==_iff u.id id).1 k) h

apply_known :
    (id actor : ℕ) (c : RuleChange) (s : Paa)
    → get_change id s ≡ some c
    → is_applicable c.status ≡ true
    → ((apply_approved_rule_change id actor s).0 ≡ changed (record c { status = implemented }))
      × (get_change id (apply_approved_rule_change id actor s).1
          ≡ some (record c { status = implemented }))
unfolding apply_approved_rule_change
apply_known id actor c s e b = (
  rw (apply_approved_rule_change, e, b),
  rw (apply_approved_rule_change, e, b)
      (get-save_change id c (record c { status = implemented }) s refl e),
)

vote_known :
    (id a : ℕ) (b : Bool) (c : RuleChange) (s : Paa)
    → get_change id s ≡ some c
    → get_change id (vote_on_rule_change id a b s).1 ≡ some (vote a b c)
unfolding vote_on_rule_change vote
vote_known id a b c s e = rw (vote_on_rule_change, e) (get-save_change id c (vote a b c) s refl e)

-- A rule change that has been applied can be applied again after one more approval, if its votes are
-- then enough: the second application answers `ok` as well.
pub applied_again :
    (id actor a : ℕ) (c : RuleChange) (s : Paa)
    → get_change id s ≡ some c
    → is_applicable c.status ≡ true
    → c.required_votes ≤ approvals (set_vote a true c.votes)
    → let t = (apply_approved_rule_change id actor s).1 in
      let u = (vote_on_rule_change id a true t).1 in
      (apply_approved_rule_change id actor u).0
      ≡ changed (record c { status = implemented; votes = set_vote a true c.votes })
unfolding vote
applied_again id actor a c s e b n =
    let d : RuleChange = record c { status = implemented } in
    let t = (apply_approved_rule_change id actor s).1 in
    (apply_known id actor (vote a true d) (vote_on_rule_change id a true t).1
      (vote_known id a true d t (apply_known id actor c s e b).1) (vote_reapproves a d n)).0

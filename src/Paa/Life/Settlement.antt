-- ===== src/Paa/Life/Settlement.antt =====
-- What every life of the tables keeps.
use irg_gdp.Base.{
  ℕ, ◌≤◌, ◌≡◌, ◌≢◌, refl, Bool, true, Option, none, some, List, [], ◌∷◌, arith, length, all, filter,
  any, Option-cases, Bool-cases, inl, inr, ap, ==_refl,
}
use irg_gdp.Paa.Schema.{Oracle, oracle_requirements}
use irg_gdp.Paa.Model.{Budget, Transaction, Paa}
use irg_gdp.Paa.Rules.{Candidate, Plan, Verdict, refused, planned, has_key, validate}
use irg_gdp.Paa.Rules.Compliance.{validate_used_key}
use irg_gdp.Paa.Transactions.{
  Column, created, invalid, is_active_budget, active_budget, raise_utilization, perform,
  execute_row, enter, new_transaction, create_transaction, approve_transaction, execute_transaction,
  cancel_transaction, is_approved, missing, record_oracle_confirmation, get_transaction,
}
use irg_gdp.Paa.Transactions.Ledger.{
  IsNear, all_sound, is_sound, is_executed, Settled, sound_row, create-all_sound, approve-all_sound,
  execute-all_sound, cancel-all_sound, confirm-all_sound,
}
use irg_gdp.Paa.Budgets.{
  create_corpus_fund, propose_budget, vote_on_rule_change, apply_approved_rule_change,
  upload_court_approval, is_applicable, get_change, install,
}
use irg_gdp.Paa.Budgets.Voting.{Installed, install-Installed}
use irg_gdp.Paa.Life.{
  Step, create, approve, execute, cancel, confirm, found_fund, propose, vote_on, apply_change,
  uphold_change, new_rates, Reach, here, next,
}

vote-transactions :
    (id actor : ℕ) (b : Bool) (s : Paa)
    → (vote_on_rule_change id actor b s).1.transactions ≡ s.transactions
unfolding vote_on_rule_change
vote-transactions id actor b s = ground arith

apply-transactions :
    (id actor : ℕ) (s : Paa)
    → (apply_approved_rule_change id actor s).1.transactions ≡ s.transactions
unfolding apply_approved_rule_change
apply-transactions id actor s = ground arith

uphold-transactions :
    (id actor : ℕ) (k : Option ℕ) (s : Paa)
    → (upload_court_approval id actor k s).transactions ≡ s.transactions
unfolding upload_court_approval
uphold-transactions id actor none s = refl
uphold-transactions id actor (some k) s = ground arith

sound_step :
    (col : Column) (near : IsNear col) (s t : Paa)
    → Step col s t
    → all_sound s ≡ true
    → all_sound t ≡ true
unfolding create_corpus_fund propose_budget
sound_step col near s t (create id actor c to) h = create-all_sound col near id actor c to s h
sound_step col near s t (approve id actor role) h = approve-all_sound id actor role s h
sound_step col near s t (execute id actor) h = execute-all_sound id actor s h
sound_step col near s t (cancel id actor) h = cancel-all_sound id actor s h
sound_step col near s t (confirm id o actor) h = confirm-all_sound id o actor s h
sound_step col near s t (found_fund f actor) h = h
sound_step col near s t (propose id actor b required) h = h
sound_step col near s t (vote_on id actor b) h = rw (vote-transactions id actor b s) h
sound_step col near s t (apply_change id actor) h = rw (apply-transactions id actor s) h
sound_step col near s t (uphold_change id actor k) h = rw (uphold-transactions id actor k s) h
sound_step col near s t (new_rates o) h = h

pub Reach-all_sound :
    (col : Column) (near : IsNear col) (s t : Paa)
    → Reach col s t
    → all_sound s ≡ true
    → all_sound t ≡ true
Reach-all_sound col near s t here h = h
Reach-all_sound col near s t (next {t = u} r x) h =
    sound_step col near u t x (Reach-all_sound col near s u r h)

-- Let the column of the amounts in USD round a number up by at most a ten-thousandth. In every life of
-- the tables that is made of the calls of the service, from one without transactions, a transaction that is executed has an approval level that
-- is no lower than that of its amount in USD less a ten-thousandth, as many approvals as its level
-- needs, all by different actors, and a confirmation of every oracle that its category requires.
pub executed-Settled :
    (col : Column) (near : IsNear col) (s t : Paa) (id : ℕ) (x : Transaction)
    → s.transactions ≡ []
    → Reach col s t
    → get_transaction id t ≡ some x
    → is_executed x.status ≡ true
    → Settled x
executed-Settled col near s t id x e r g h =
    sound_row id x t (Reach-all_sound col near s t r (ap (all is_sound) e)) g h

entered_key :
    (col : Column) (id actor : ℕ) (c : Candidate) (to : Option ℕ) (v : Verdict) (s : Paa)
    (x : Transaction) (p : Plan)
    → (enter col id actor c to v s).0 ≡ created x p
    → any (has_key c.idempotency_key) (enter col id actor c to v s).1.transactions ≡ true
unfolding enter new_transaction
entered_key col id actor c to (refused es) s x p h = ground arith
entered_key col id actor c to (planned q) s x p h = rw (==_refl c.idempotency_key)

key_kept :
    (col : Column) (id actor : ℕ) (c : Candidate) (to : Option ℕ) (s : Paa) (x : Transaction)
    (p : Plan)
    → (create_transaction col id actor c to s).0 ≡ created x p
    → any (has_key c.idempotency_key) (create_transaction col id actor c to s).1.transactions ≡ true
unfolding create_transaction
key_kept col id actor c to s x p h =
    entered_key col id actor c to (validate s.rates (active_budget s) s.funds s.transactions c) s x
      p h

unplanned :
    (col : Column) (id actor : ℕ) (c : Candidate) (to : Option ℕ) (v : Verdict) (s : Paa)
    → ((q : Plan) → v ≢ planned q)
    → (enter col id actor c to v s).0 ≡ invalid v
unfolding enter
unplanned col id actor c to (refused es) s n = refl
unplanned col id actor c to (planned q) s n = elim (n q refl) [ ]

-- After a creation that answers `ok`, a second with the same idempotency key is invalid.
pub create_twice :
    (col : Column) (id id' actor actor' : ℕ) (c c' : Candidate) (to to' : Option ℕ) (s : Paa)
    (x : Transaction) (p : Plan)
    → (create_transaction col id actor c to s).0 ≡ created x p
    → c'.idempotency_key ≡ c.idempotency_key
    → (v : Verdict) × ((create_transaction col id' actor' c' to'
          (create_transaction col id actor c to s).1).0
        ≡ invalid v)
unfolding create_transaction
create_twice col id id' actor actor' c c' to to' s x p h e =
    let t = (create_transaction col id actor c to s).1 in
    let v = validate t.rates (active_budget t) t.funds t.transactions c' in
    (
      v,
      unplanned col id' actor' c' to' v t (λ q.
          validate_used_key t.rates (active_budget t) t.funds t.transactions c' q
            (rw e (key_kept col id actor c to s x p h))),
    )

-- How many budgets are active.
abbrev pub actives : List Budget → ℕ
actives bs = length (filter is_active_budget bs)

actives-raise : (x : Transaction) (bs : List Budget) → actives (raise_utilization x bs) ≡ actives bs
unfolding raise_utilization
actives-raise x [] = refl
actives-raise x (b ∷ bs) = elim (Bool-cases b.is_active) [
  | inl e ↦ rw e
  | inr e ↦ rw (e, actives-raise x bs)
]

execute_row-actives :
    (actor : ℕ) (x : Transaction) (os : List Oracle) (s : Paa)
    → actives (execute_row actor x os s).1.budgets ≡ actives s.budgets
unfolding execute_row perform
execute_row-actives actor x [] s = actives-raise x s.budgets
execute_row-actives actor x (o ∷ os) s = refl

execute-actives :
    (id actor : ℕ) (s : Paa)
    → actives (execute_transaction id actor s).1.budgets ≡ actives s.budgets
unfolding execute_transaction
execute-actives id actor s = elim (Option-cases (get_transaction id s)) [
  | inl e ↦ rw (execute_transaction, e)
  | inr (x, e) ↦ elim (Bool-cases (is_approved x.status)) [
    | inl b ↦
        rw (execute_transaction, e, b)
          (execute_row-actives actor x
            (missing x.oracle_confirmations (oracle_requirements x.category)) s)
    | inr b ↦ rw (execute_transaction, e, b)
  ]
]

Installed-actives :
    (o : Option Budget) (bs after : List Budget)
    → Installed o bs after
    → actives bs ≤ 1
    → actives after ≤ 1
Installed-actives none bs after e h = rw e h
Installed-actives (some b) bs after (x, e, i) h = rw e (omega arith)

apply-actives :
    (id actor : ℕ) (s : Paa)
    → actives s.budgets ≤ 1
    → actives (apply_approved_rule_change id actor s).1.budgets ≤ 1
unfolding apply_approved_rule_change
apply-actives id actor s h = elim (Option-cases (get_change id s)) [
  | inl e ↦ rw (apply_approved_rule_change, e) h
  | inr (c, e) ↦ elim (Bool-cases (is_applicable c.status)) [
    | inl b ↦
        rw (apply_approved_rule_change, e, b)
          (Installed-actives c.new_budget s.budgets (install c.new_budget s.budgets)
            (install-Installed c.new_budget s.budgets) h)
    | inr b ↦ rw (apply_approved_rule_change, e, b) h
  ]
]

create-budgets :
    (col : Column) (id actor : ℕ) (c : Candidate) (to : Option ℕ) (v : Verdict) (s : Paa)
    → (enter col id actor c to v s).1.budgets ≡ s.budgets
unfolding enter
create-budgets col id actor c to (refused es) s = refl
create-budgets col id actor c to (planned p) s = refl

approve-budgets :
    (id actor role : ℕ) (s : Paa) → (approve_transaction id actor role s).1.budgets ≡ s.budgets
unfolding approve_transaction
approve-budgets id actor role s = ground arith

cancel-budgets : (id actor : ℕ) (s : Paa) → (cancel_transaction id actor s).1.budgets ≡ s.budgets
unfolding cancel_transaction
cancel-budgets id actor s = ground arith

confirm-budgets :
    (id : ℕ) (o : Oracle) (actor : ℕ) (s : Paa)
    → (record_oracle_confirmation id o actor s).1.budgets ≡ s.budgets
unfolding record_oracle_confirmation
confirm-budgets id o actor s = ground arith

vote-budgets :
    (id actor : ℕ) (b : Bool) (s : Paa) → (vote_on_rule_change id actor b s).1.budgets ≡ s.budgets
unfolding vote_on_rule_change
vote-budgets id actor b s = ground arith

uphold-budgets :
    (id actor : ℕ) (k : Option ℕ) (s : Paa)
    → (upload_court_approval id actor k s).budgets ≡ s.budgets
unfolding upload_court_approval
uphold-budgets id actor none s = refl
uphold-budgets id actor (some k) s = ground arith

active_step :
    (col : Column) (s t : Paa) → Step col s t → actives s.budgets ≤ 1 → actives t.budgets ≤ 1
unfolding create_corpus_fund propose_budget create_transaction
active_step col s t (create id actor c to) h =
    rw
      (create-budgets col id actor c to
        (validate s.rates (active_budget s) s.funds s.transactions c) s)
      h
active_step col s t (approve id actor role) h = rw (approve-budgets id actor role s) h
active_step col s t (execute id actor) h = rw (execute-actives id actor s) h
active_step col s t (cancel id actor) h = rw (cancel-budgets id actor s) h
active_step col s t (confirm id o actor) h = rw (confirm-budgets id o actor s) h
active_step col s t (found_fund f actor) h = h
active_step col s t (propose id actor b required) h = h
active_step col s t (vote_on id actor b) h = rw (vote-budgets id actor b s) h
active_step col s t (apply_change id actor) h = apply-actives id actor s h
active_step col s t (uphold_change id actor k) h = rw (uphold-budgets id actor k s) h
active_step col s t (new_rates o) h = h

-- In every life of the tables from one with at most one active budget, at most one is active.
pub one_active_budget :
    (col : Column) (s t : Paa) → Reach col s t → actives s.budgets ≤ 1 → actives t.budgets ≤ 1
one_active_budget col s t here h = h
one_active_budget col s t (next {t = u} r x) h =
    active_step col u t x (one_active_budget col s u r h)

-- ===== src/Paa/Transactions/Ledger.antt =====
-- The invariant of the rows of the transaction table: the votes behind an approval and the oracles
-- behind an execution.
use irg_gdp.Base.{
  ℕ, ◌≤◌, ◌≡◌, refl, Bool, true, false, ◌&&◌, ◌||◌, Option, some, List, [], ◌∷◌, ◌++◌, arith,
  length, any, all, leb, not, all-update_where, all-find?, &&-true, length-append, any-append,
  Bool-cases, Option-cases, inl, inr, leb→le,
}
use irg_gdp.Base.Int.{ℤ, pos, ◌-ℤ◌, ◌≤ℤ◌}
use irg_gdp.Paa.Schema.{
  Oracle, Level, TxStatus, approved, executed, cancelled, same_oracle, oracle_requirements,
  approval_level, Overrides,
}
use irg_gdp.Paa.Schema.Levels.{rank, approval_level_mono}
use irg_gdp.Paa.Rules.Compliance.{validate_planned}
use irg_gdp.Paa.Model.{CorpusFund, Budget, Approval, Confirmation, Transaction, Paa}
use irg_gdp.Paa.Rules.{
  Candidate, Plan, Verdict, confirms, initial_status, validate, planned, refused,
}
use irg_gdp.Paa.Transactions.{
  Column, usd_place, active_budget, is_closed, enter, new_transaction, create_transaction, needed,
  approved_by, add_approval, missing, confirm_oracle, has_id, get_transaction, approve_transaction,
  execute_transaction, cancel_transaction, record_oracle_confirmation, is_approved, execute_row,
  perform, save_transaction,
}

abbrev pub are_distinct : List Approval → Bool
are_distinct [] = true
are_distinct (a ∷ rest) = not (any (approved_by a.actor) rest) && are_distinct rest

abbrev pub is_cleared : TxStatus → Bool
is_cleared approved = true
is_cleared executed = true
is_cleared _ = false

abbrev pub is_executed : TxStatus → Bool
is_executed executed = true
is_executed _ = false

abbrev pub has_oracles : Transaction → Bool
has_oracles t = all (λ o. any (confirms o) t.oracle_confirmations) (oracle_requirements t.category)

abbrev pub has_votes : Transaction → Bool
has_votes t = leb (needed t.required_approval) (length t.approvals)

-- The level is at least that of the amount in USD less the last place of its column.
unfoldable pub is_priced : ℤ → Level → Bool
is_priced usd level = leb (rank (approval_level (usd -ℤ pos usd_place))) (rank level)

-- A column rounds an amount in USD up by at most its last place.
abbrev pub IsNear : Column → Type 0
IsNear col = (z : ℤ) → (col usd_place z -ℤ pos usd_place) ≤ℤ z

-- The row is priced; no actor approves twice; an approved or executed row has the votes of its level; an executed row
-- has a confirmation of each oracle that its category requires.
abbrev pub is_sound : Transaction → Bool
is_sound t =
    is_priced t.usd_amount t.required_approval
    && (are_distinct t.approvals
        && ((not (is_cleared t.status) || has_votes t)
            && (not (is_executed t.status) || has_oracles t)))

are_distinct-snoc :
    (actor role : ℕ) (xs : List Approval)
    → are_distinct xs ≡ true
    → any (approved_by actor) xs ≡ false
    → are_distinct (xs ++ (record { actor = actor; role = role } ∷ [])) ≡ true
are_distinct-snoc actor role [] h e = refl
are_distinct-snoc actor role (a ∷ rest) h e = ground (
  arith,
  are_distinct-snoc actor role rest,
  any-append (approved_by a.actor) rest (record { actor = actor; role = role } ∷ []),
)

add_approval-is_sound :
    (actor role : ℕ) (t : Transaction)
    → is_sound t ≡ true
    → any (approved_by actor) t.approvals ≡ false
    → is_sound (add_approval actor role t) ≡ true
unfolding add_approval
add_approval-is_sound actor role t h e = ground (
  arith,
  are_distinct-snoc actor role t.approvals,
  length-append t.approvals (record { actor = actor; role = role } ∷ []),
)

pub missing_none :
    (given : List Confirmation) (os : List Oracle)
    → missing given os ≡ []
    → all (λ o. any (confirms o) given) os ≡ true
unfolding missing
missing_none given [] h = refl
missing_none given (o ∷ os) h = ground (arith, missing_none given os)

or_true : (x y r : Bool) → ((x && y) || r) ≡ true → ((x && true) || r) ≡ true
or_true x y r h = ground arith

or_step : (x r r' : Bool) → (x || r) ≡ true → (r ≡ true → r' ≡ true) → (x || r') ≡ true
or_step x r r' h k = ground arith

confirm_oracle-any :
    (o p : Oracle) (cs : List Confirmation)
    → any (confirms p) cs ≡ true
    → any (confirms p) (confirm_oracle o cs) ≡ true
unfolding confirm_oracle
confirm_oracle-any o p [] h = ground arith
confirm_oracle-any o p (c ∷ cs) h = elim (Bool-cases (same_oracle c.oracle o)) [
  | inl e ↦ rw e (or_true (same_oracle c.oracle p) c.is_confirmed (any (confirms p) cs) h)
  | inr e ↦ rw e (
      or_step (confirms p c) (any (confirms p) cs) (any (confirms p) (confirm_oracle o cs)) h
        (confirm_oracle-any o p cs))
]

confirm_oracle-all :
    (o : Oracle) (cs : List Confirmation) (os : List Oracle)
    → all (λ p. any (confirms p) cs) os ≡ true
    → all (λ p. any (confirms p) (confirm_oracle o cs)) os ≡ true
confirm_oracle-all o cs [] h = refl
confirm_oracle-all o cs (p ∷ os) h =
    let (e, k) = &&-true (any (confirms p) cs) (all (λ p. any (confirms p) cs) os) h in
    rw (confirm_oracle-any o p cs e, confirm_oracle-all o cs os k)

abbrev pub all_sound : Paa → Bool
all_sound s = all is_sound s.transactions

found :
    (id : ℕ) (t : Transaction) (s : Paa)
    → all_sound s ≡ true
    → get_transaction id s ≡ some t
    → (is_sound t ≡ true) × (has_id id t ≡ true)
found id t s h e = all-find? is_sound (has_id id) t s.transactions h e

saved :
    (t : Transaction) (s : Paa)
    → all_sound s ≡ true
    → is_sound t ≡ true
    → all_sound (save_transaction t s) ≡ true
saved t s h e = all-update_where is_sound (has_id t.id) t s.transactions h e

pub approve-all_sound :
    (id actor role : ℕ) (s : Paa)
    → all_sound s ≡ true
    → all_sound (approve_transaction id actor role s).1 ≡ true
unfolding approve_transaction
approve-all_sound id actor role s h = elim (Option-cases (get_transaction id s)) [
  | inl e ↦ rw (approve_transaction, e) h
  | inr (t, e) ↦ elim (Bool-cases (any (approved_by actor) t.approvals)) [
    | inl b ↦ rw (approve_transaction, e, b) h
    | inr b ↦
        rw (approve_transaction, e, b)
          (saved (add_approval actor role t) s h
            (add_approval-is_sound actor role t (found id t s h e).0 b))
  ]
]

confirmed-is_sound :
    (o : Oracle) (t : Transaction)
    → is_sound t ≡ true
    → is_sound (record t { oracle_confirmations = confirm_oracle o t.oracle_confirmations }) ≡ true
confirmed-is_sound o t h =
    ground (arith, confirm_oracle-all o t.oracle_confirmations (oracle_requirements t.category))

pub confirm-all_sound :
    (id : ℕ) (o : Oracle) (actor : ℕ) (s : Paa)
    → all_sound s ≡ true
    → all_sound (record_oracle_confirmation id o actor s).1 ≡ true
unfolding record_oracle_confirmation
confirm-all_sound id o actor s h = elim (Option-cases (get_transaction id s)) [
  | inl e ↦ rw (record_oracle_confirmation, e) h
  | inr (t, e) ↦
      rw (record_oracle_confirmation, e)
        (saved (record t { oracle_confirmations = confirm_oracle o t.oracle_confirmations }) s h
          (confirmed-is_sound o t (found id t s h e).0))
]

executed-is_sound :
    (t : Transaction)
    → is_sound t ≡ true
    → is_approved t.status ≡ true
    → has_oracles t ≡ true
    → is_sound (record t { status = executed }) ≡ true
executed-is_sound t h a o = ground arith

cancelled-is_sound :
    (t : Transaction) → is_sound t ≡ true → is_sound (record t { status = cancelled }) ≡ true
cancelled-is_sound t h = ground arith

execute_row-all_sound :
    (actor : ℕ) (t : Transaction) (os : List Oracle) (s : Paa)
    → all_sound s ≡ true
    → is_sound t ≡ true
    → is_approved t.status ≡ true
    → (os ≡ [] → has_oracles t ≡ true)
    → all_sound (execute_row actor t os s).1 ≡ true
unfolding execute_row perform
execute_row-all_sound actor t [] s h k a o =
    saved (record t { status = executed }) s h (executed-is_sound t k a (o refl))
execute_row-all_sound actor t (x ∷ os) s h k a o = h

pub execute-all_sound :
    (id actor : ℕ) (s : Paa)
    → all_sound s ≡ true
    → all_sound (execute_transaction id actor s).1 ≡ true
unfolding execute_transaction
execute-all_sound id actor s h = elim (Option-cases (get_transaction id s)) [
  | inl e ↦ rw (execute_transaction, e) h
  | inr (t, e) ↦ elim (Bool-cases (is_approved t.status)) [
    | inr b ↦ rw (execute_transaction, e, b) h
    | inl b ↦
        let os = oracle_requirements t.category in
        rw (execute_transaction, e, b)
          (execute_row-all_sound actor t (missing t.oracle_confirmations os) s h
            (found id t s h e).0 b (missing_none t.oracle_confirmations os))
  ]
]

pub cancel-all_sound :
    (id actor : ℕ) (s : Paa)
    → all_sound s ≡ true
    → all_sound (cancel_transaction id actor s).1 ≡ true
unfolding cancel_transaction
cancel-all_sound id actor s h = elim (Option-cases (get_transaction id s)) [
  | inl e ↦ rw (cancel_transaction, e) h
  | inr (t, e) ↦ elim (Bool-cases (is_closed t.status)) [
    | inl b ↦ rw (cancel_transaction, e, b) h
    | inr b ↦
        rw (cancel_transaction, e, b)
          (saved (record t { status = cancelled }) s h (cancelled-is_sound t (found id t s h e).0))
  ]
]

planned-is_priced :
    (col : Column) (near : IsNear col) (o : Overrides) (b : Option Budget) (fs : List CorpusFund)
    (txs : List Transaction) (c : Candidate) (p : Plan)
    → validate o b fs txs c ≡ planned p
    → is_priced (col usd_place p.usd_amount) p.required_approval ≡ true
unfolding is_priced
planned-is_priced col near o b fs txs c p h =
    let k = validate_planned o b fs txs c p h in
    let m =
      approval_level_mono (col usd_place p.usd_amount -ℤ pos usd_place) p.usd_amount
        (near p.usd_amount) in
    rw (k.7) (ground (arith, m))

enter-all_sound :
    (col : Column) (id actor : ℕ) (c : Candidate) (to : Option ℕ) (v : Verdict) (s : Paa)
    → ((p : Plan)
        → v ≡ planned p
        → is_priced (col usd_place p.usd_amount) p.required_approval ≡ true)
    → all_sound s ≡ true
    → all_sound (enter col id actor c to v s).1 ≡ true
unfolding enter new_transaction initial_status
enter-all_sound col id actor c to (refused es) s k h = h
enter-all_sound col id actor c to (planned p) s k h = ground (arith, k p refl)

pub create-all_sound :
    (col : Column) (near : IsNear col) (id actor : ℕ) (c : Candidate) (to : Option ℕ) (s : Paa)
    → all_sound s ≡ true
    → all_sound (create_transaction col id actor c to s).1 ≡ true
unfolding create_transaction
create-all_sound col near id actor c to s h =
    enter-all_sound col id actor c to (validate s.rates (active_budget s) s.funds s.transactions c)
      s (planned-is_priced col near s.rates (active_budget s) s.funds s.transactions c) h

-- What the invariant says of an executed row.
abbrev pub Settled : Transaction → Type 0
Settled t =
    (rank (approval_level (t.usd_amount -ℤ pos usd_place)) ≤ rank t.required_approval)
    × (are_distinct t.approvals ≡ true)
    × (needed t.required_approval ≤ length t.approvals)
    × (has_oracles t ≡ true)

priced_row :
    (usd : ℤ) (l : Level)
    → is_priced usd l ≡ true
    → rank (approval_level (usd -ℤ pos usd_place)) ≤ rank l
unfolding is_priced
priced_row usd l h = leb→le (rank (approval_level (usd -ℤ pos usd_place))) (rank l) h

pub sound_row :
    (id : ℕ) (t : Transaction) (s : Paa)
    → all_sound s ≡ true
    → get_transaction id s ≡ some t
    → is_executed t.status ≡ true
    → Settled t
sound_row id t s h e x =
    let k = (found id t s h e).0 in
    let q : is_priced t.usd_amount t.required_approval ≡ true = ground (arith, k) in
    let v : has_votes t ≡ true = ground (arith, k) in
    (
      priced_row t.usd_amount t.required_approval q,
      ground (arith, k),
      leb→le (needed t.required_approval) (length t.approvals) v,
      ground (arith, k),
    )

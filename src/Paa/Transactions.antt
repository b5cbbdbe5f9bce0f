-- ===== src/Paa/Transactions.antt =====
-- The transactions of backend/payment_bridge/paa_service.py: createTransaction, approveTransaction,
-- executeTransaction, cancelTransaction and recordOracleConfirmation. Each runs in one database
-- transaction and takes the key that `_uid` draws as an argument.
pub mod Ledger
pub mod Execution
use irg_gdp.Base.{
  ℕ, suc, Bool, true, false, Option, none, some, List, [], ◌∷◌, ◌++◌, length, any, all, filter,
  find?, update_where, leb, ◌==◌, not, if◌then◌else◌,
}
use irg_gdp.Base.Int.{ℤ, pos, ◌+ℤ◌, negate}
use irg_gdp.Paa.Schema.{
  TxType, payment, system_charge, FundType, Category, Currency, Oracle, Level, single, dual, board,
  court, TxStatus, approved, executed, cancelled, same_currency, same_oracle, same_fund_type,
  oracle_requirements,
}
use irg_gdp.Paa.Model.{
  Balance, CorpusFund, Approval, Confirmation, Transaction, CategoryBudget, Budget, AuditAction,
  transaction_created, transaction_failed, transaction_approved, transaction_executed,
  transaction_cancelled, oracle_confirmed, Paa,
}
use irg_gdp.Paa.Rules.{
  Candidate, Plan, Verdict, refused, planned, validate, initial_status, confirms, is_category,
}

-- The answer `ok: False`, by its error.
pub data TxError : Type 0 where
  not_found already_approved : TxError
  wrong_status : TxStatus → TxError
  missing_oracles : List Oracle → TxError

pub data Reply : Type 0 where
  done : Transaction → Reply
  rejected : TxError → Reply

pub data CreateReply : Type 0 where
  created : Transaction → Plan → CreateReply
  invalid : Verdict → CreateReply

-- `_audit`
abbrev pub audit : AuditAction → ℕ → ℕ → Paa → Paa
audit a actor subject s = record s {
  audit = record { action = a; actor = actor; subject = subject } ∷ s.audit;
}

abbrev pub has_id : ℕ → Transaction → Bool
has_id id t = t.id == id

-- `getTransaction`
abbrev pub get_transaction : ℕ → Paa → Option Transaction
get_transaction id s = find? (has_id id) s.transactions

-- `tx.save()`
abbrev pub save_transaction : Transaction → Paa → Paa
save_transaction t s = record s {
  transactions = update_where (has_id t.id) (λ _. t) s.transactions;
}

abbrev pub is_active_budget : Budget → Bool
is_active_budget b = b.is_active

-- `getActiveBudget`
abbrev pub active_budget : Paa → Option Budget
active_budget s = find? is_active_budget s.budgets

abbrev pub is_fund_type : FundType → CorpusFund → Bool
is_fund_type ty f = same_fund_type f.fund_type ty

abbrev pub first_of_type : FundType → List CorpusFund → Option ℕ
first_of_type ty fs = elim (find? (is_fund_type ty) fs) [ none ↦ none | some f ↦ some f.id ]

-- `payload.get("toAccountId") or …`
abbrev pub or_first : Option ℕ → Option ℕ → Option ℕ
or_first none k = k
or_first (some a) k = some a

abbrev pub hash_of : Option Budget → Option ℕ
hash_of none = none
hash_of (some b) = some b.resolution_hash

-- The last places of the columns `amount` and `usd_amount`, a ten-thousandth.
abbrev pub amount_place : ℕ
amount_place = 100000000

abbrev pub usd_place : ℕ
usd_place = 1000000000000

-- What a decimal column keeps of a number, by the units in its last place.
abbrev pub Column : Type 0
Column = ℕ → ℤ → ℤ

-- The row as the database keeps it; the answer of the call shows the amounts before the columns round
-- them.
unfoldable pub new_transaction : Column → ℕ → ℕ → Candidate → Option ℕ → Plan → Paa → Transaction
unfolding initial_status
new_transaction col id actor c to p s = record {
  id = id;
  tx_type = c.tx_type;
  category = p.category;
  amount = col amount_place c.amount;
  currency = p.currency;
  usd_amount = col usd_place p.usd_amount;
  to_fund = p.destination;
  to_account_id = or_first to (first_of_type p.destination s.funds);
  status = initial_status p.required_approval;
  required_approval = p.required_approval;
  idempotency_key = c.idempotency_key;
  oracle_confirmations = c.oracle_confirmations;
  approvals = [];
  budget_hash = hash_of (active_budget s);
  created_by = actor;
}

-- What createTransaction does with the verdict; a transaction that is refused is put into the audit
-- log only, under its idempotency key.
unfoldable pub enter : Column → ℕ → ℕ → Candidate → Option ℕ → Verdict → Paa → CreateReply × Paa
unfolding new_transaction
enter col id actor c to (refused es) s =
    (invalid (refused es), audit transaction_failed actor c.idempotency_key s)
enter col id actor c to (planned p) s =
    let t = new_transaction col id actor c to p s in
    (
      created t p,
      audit transaction_created actor id (record s { transactions = t ∷ s.transactions }),
    )

unfoldable pub create_transaction : Column → ℕ → ℕ → Candidate → Option ℕ → Paa → CreateReply × Paa
create_transaction col id actor c to s =
    enter col id actor c to (validate s.rates (active_budget s) s.funds s.transactions c) s

-- `{"single": 1, "dual": 2, "board": 3, "court": 3}`
abbrev pub needed : Level → ℕ
needed single = 1
needed dual = 2
needed board = 3
needed court = 3

abbrev pub approved_by : ℕ → Approval → Bool
approved_by actor a = a.actor == actor

unfoldable pub add_approval : ℕ → ℕ → Transaction → Transaction
add_approval actor role t = record t {
  approvals = t.approvals ++ (record { actor = actor; role = role } ∷ []);
  status =
      if leb (needed t.required_approval) (suc (length t.approvals)) then approved else t.status;
}

unfoldable pub approve_transaction : ℕ → ℕ → ℕ → Paa → Reply × Paa
unfolding add_approval
approve_transaction id actor role s = elim (get_transaction id s) [
  | none ↦ (rejected not_found, s)
  | some t ↦
      if any (approved_by actor) t.approvals
      then (rejected already_approved, s)
      else let t' = add_approval actor role t in
        (done t', audit transaction_approved actor id (save_transaction t' s))
]

-- The required oracles without a confirmation.
unfoldable pub missing : List Confirmation → List Oracle → List Oracle
missing given [] = []
missing given (o ∷ os) =
    let rest = missing given os in if any (confirms o) given then rest else o ∷ rest

-- `sign * float(tx.amount)`
unfoldable pub delta : Transaction → ℤ
delta t = elim t.tx_type [
  | payment ↦ negate t.amount
  | system_charge ↦ negate t.amount
  | _ ↦ t.amount
]

-- The first entry of the currency, or a new one at the end.
unfoldable pub add_balance : Currency → ℤ → List Balance → List Balance
add_balance c d [] = record { currency = c; balance = d } ∷ []
add_balance c d (b ∷ bs) =
    let rest = add_balance c d bs in
    if same_currency b.currency c then record b { balance = b.balance +ℤ d } ∷ bs else b ∷ rest

abbrev pub is_fund : ℕ → CorpusFund → Bool
is_fund k f = f.id == k

abbrev pub credit_fund : Transaction → CorpusFund → CorpusFund
credit_fund t f = record f { balances = add_balance t.currency (delta t) f.balances }

unfoldable pub credit : Transaction → List CorpusFund → List CorpusFund
unfolding add_balance delta
credit t fs = elim t.to_account_id [
  | none ↦ fs
  | some k ↦ update_where (is_fund k) (credit_fund t) fs
]

abbrev pub use_category : ℤ → CategoryBudget → CategoryBudget
use_category amount e = record e { current_utilization = e.current_utilization +ℤ amount }

abbrev pub use_budget : Transaction → Budget → Budget
use_budget t b = record b {
  categories = update_where (is_category t.category) (use_category t.amount) b.categories;
}

-- `PaaBudget.objects.filter(is_active=True).first()`, its utilisation raised.
unfoldable pub raise_utilization : Transaction → List Budget → List Budget
raise_utilization t [] = []
raise_utilization t (b ∷ bs) =
    let rest = raise_utilization t bs in if b.is_active then use_budget t b ∷ bs else b ∷ rest

abbrev pub is_approved : TxStatus → Bool
is_approved approved = true
is_approved _ = false

unfoldable pub perform : Transaction → Paa → Paa
unfolding credit raise_utilization
perform t s = record (save_transaction (record t { status = executed }) s) {
  funds = credit t s.funds;
  budgets = raise_utilization t s.budgets;
}

unfoldable pub execute_row : ℕ → Transaction → List Oracle → Paa → Reply × Paa
unfolding perform
execute_row actor t [] s =
    (done (record t { status = executed }), audit transaction_executed actor t.id (perform t s))
execute_row actor t (o ∷ os) s = (rejected (missing_oracles (o ∷ os)), s)

unfoldable pub execute_transaction : ℕ → ℕ → Paa → Reply × Paa
unfolding execute_row missing
execute_transaction id actor s = elim (get_transaction id s) [
  | none ↦ (rejected not_found, s)
  | some t ↦
      if is_approved t.status
      then execute_row actor t (missing t.oracle_confirmations (oracle_requirements t.category)) s
      else (rejected (wrong_status t.status), s)
]

abbrev pub is_closed : TxStatus → Bool
is_closed executed = true
is_closed cancelled = true
is_closed _ = false

unfoldable pub cancel_transaction : ℕ → ℕ → Paa → Reply × Paa
cancel_transaction id actor s = elim (get_transaction id s) [
  | none ↦ (rejected not_found, s)
  | some t ↦
      if is_closed t.status
      then (rejected (wrong_status t.status), s)
      else let t' = record t { status = cancelled } in
        (done t', audit transaction_cancelled actor id (save_transaction t' s))
]

-- The first confirmation of the oracle is confirmed, or a new one is put at the end.
unfoldable pub confirm_oracle : Oracle → List Confirmation → List Confirmation
confirm_oracle o [] = record { oracle = o; is_confirmed = true } ∷ []
confirm_oracle o (c ∷ cs) =
    let rest = confirm_oracle o cs in
    if same_oracle c.oracle o then record c { is_confirmed = true } ∷ cs else c ∷ rest

unfoldable pub record_oracle_confirmation : ℕ → Oracle → ℕ → Paa → Reply × Paa
unfolding confirm_oracle
record_oracle_confirmation id o actor s = elim (get_transaction id s) [
  | none ↦ (rejected not_found, s)
  | some t ↦
      let t' = record t { oracle_confirmations = confirm_oracle o t.oracle_confirmations } in
      (done t', audit oracle_confirmed actor id (save_transaction t' s))
]

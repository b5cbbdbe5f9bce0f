-- ===== src/Chain/Orders.antt =====
-- What the watchers of backend/wallet_access do with a log: `_process` of watch_ombudsman_orders.py,
-- `_handle_requested` and `_handle_executed` of watch_chain_events.py.
pub mod Replay
use irg_gdp.Base.{
  ℕ, zero, suc, ◌+◌, Bool, true, false, ◌&&◌, Option, none, some, List, [], ◌∷◌, find?,
  update_where, not, is_some, ◌==◌, if◌then◌else◌,
}
use irg_gdp.Wallet.Model.{
  Account, Wallet, WalletState, recovered, RecoveryCase, executed, Time, Digest,
}
use irg_gdp.Wallet.Monad.{set_wallet}
use irg_gdp.Wallet.Recovery.{
  Disposition, reject, approve, approve_modified, other_disposition, has_case_id,
  execute_ombudsman_order,
}

abbrev pub is_empty : List ℕ → Bool
is_empty [] = true
is_empty (b ∷ bs) = false

-- `bytes(case_id_bytes).rstrip(b'\x00')`
unfoldable pub rstrip : List ℕ → List ℕ
rstrip [] = []
rstrip (b ∷ bs) = let rest = rstrip bs in if (b == 0) && is_empty rest then [] else b ∷ rest

-- `ORDER_TYPE_MAP`
abbrev pub order_type_map : ℕ → Disposition
order_type_map zero = approve
order_type_map (suc zero) = approve_modified
order_type_map (suc (suc zero)) = reject
order_type_map n = other_disposition

pub record OrderLog : Type 0 where
  pub case_id : List ℕ
  pub order_hash : Digest
  pub order_type : ℕ
  pub tx_hash : Digest

-- `parse` is `int(raw.decode('utf-8'))`, none if it raises. An exception of the service is logged
-- and dropped.
unfoldable pub process : (List ℕ → Option ℕ) → (OrderLog → Time) → OrderLog → Account → Account
unfolding execute_ombudsman_order rstrip
process parse clock log s = elim (parse (rstrip log.case_id)) [
  | none ↦ s
  | some id ↦
      (execute_ombudsman_order (clock log) id log.order_hash log.tx_hash
        (order_type_map log.order_type) s).1
]

-- An event of a recovery, requested or executed; `old_wallet` is read of an executed one.
pub record RecoveryLog : Type 0 where
  pub case_id : List ℕ
  pub old_wallet : ℕ
  pub tx_hash : Digest

abbrev pub lacks_request : ℕ → RecoveryCase → Bool
lacks_request id c = has_case_id id c && not (is_some c.recovery_requested_tx_hash)

abbrev pub save_request : Digest → RecoveryCase → RecoveryCase
save_request tx c = record c { recovery_requested_tx_hash = some tx }

unfoldable pub handle_requested : (List ℕ → Option ℕ) → RecoveryLog → Account → Account
unfolding rstrip
handle_requested parse log s = elim (parse (rstrip log.case_id)) [
  | none ↦ s
  | some id ↦ record s {
    cases = update_where (lacks_request id) (save_request log.tx_hash) s.cases;
  }
]

-- 90 days
abbrev pub executed_window : ℕ
executed_window = 7776000

abbrev pub confirm_execution : Time → Digest → RecoveryCase → RecoveryCase
confirm_execution now tx c = record c {
  execution_tx_hash = some tx;
  status = executed;
  reversibility_ends_at = some (now + executed_window);
}

abbrev pub lacks_execution : ℕ → RecoveryCase → Bool
lacks_execution id c = has_case_id id c && not (is_some c.execution_tx_hash)

abbrev pub mirror : Wallet → Wallet
mirror w = record w { state = recovered }

-- The wallet of the event is that of the account, or another account's.
unfoldable pub handle_executed : (List ℕ → Option ℕ) → Time → RecoveryLog → Account → Account
unfolding rstrip
handle_executed parse now log s = elim (parse (rstrip log.case_id)) [
  | none ↦ s
  | some id ↦ elim (find? (has_case_id id) s.cases) [
    | none ↦ s
    | some c ↦
        let s' : Account = record s {
          cases = update_where (lacks_execution id) (confirm_execution now log.tx_hash) s.cases;
        } in
        if log.old_wallet == s.wallet.address then set_wallet mirror s' else s'
  ]
]

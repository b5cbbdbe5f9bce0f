-- ===== src/Chain/Watcher.antt =====
-- The loop of the command watch_ombudsman_orders.py of backend/wallet_access, and ChainWatcherCursor
-- of backend/chain/models.py. The chain is a function from the number of a block to its logs: a
-- confirmed block does not change. What a log does is a parameter, which does not raise.
pub mod Coverage
use irg_gdp.Base.{
  ℕ, zero, suc, ◌+◌, ◌-◌, Bool, Option, none, some, List, [], ◌∷◌, ◌++◌, leb, ltb, if◌then◌else◌,
}

pub record Watch (S : Type 0) : Type 0 where
  pub last_block : ℕ
  pub cursor : Option ℕ
  pub store : S

-- What one round of the loop meets: an exception before a log is handled, or a head of the chain,
-- with whether the cursor could be saved at the end.
pub data Poll : Type 0 where
  failed : Poll
  seen : ℕ → Bool → Poll

-- The logs of `n` blocks from block `b` on.
unfoldable pub scan : {A : Type 0} → (ℕ → List A) → ℕ → ℕ → List A
scan chain b zero = []
scan chain b (suc n) = chain b ++ scan chain (b + 1) n

-- `get_logs(fromBlock=first, toBlock=last)`
abbrev pub get_logs : {A : Type 0} → (ℕ → List A) → ℕ → ℕ → List A
get_logs chain first last = scan chain first (last + 1 - first)

-- `for log in logs: self._process(log)`
unfoldable pub handle_all : {A S : Type 0} → (A → S → S) → List A → S → S
handle_all handle [] s = s
handle_all handle (x ∷ xs) s = handle_all handle xs (handle x s)

-- `resume_from(name, fallback)`
unfoldable pub resume_from : Option ℕ → ℕ → ℕ
resume_from none fallback = fallback
resume_from (some b) fallback = if ltb 0 b then b else fallback

module _ {A S : Type 0} (chain : ℕ → List A) (handle : A → S → S) (confirmations : ℕ) where
  unfoldable pub advance : ℕ → Bool → Watch S → Watch S
  unfolding handle_all scan
  advance to_block is_saved w = record {
    last_block = to_block;
    cursor = if is_saved then some to_block else w.cursor;
    store = handle_all handle (get_logs chain (w.last_block + 1) to_block) w.store;
  }

  -- One round of `while True`. Below the depth of the confirmations `head - confirmations` is
  -- negative in the source, and 0 here; neither is above a block that was reached.
  unfoldable pub poll : Poll → Watch S → Watch S
  unfolding advance
  poll failed w = w
  poll (seen head is_saved) w =
      if leb (head - confirmations) w.last_block
      then w
      else advance (head - confirmations) is_saved w

  unfoldable pub run : List Poll → Watch S → Watch S
  unfolding poll
  run [] w = w
  run (p ∷ ps) w = run ps (poll p w)

-- ===== src/Wallet/Inactivity/Escalation.antt =====
-- The order of the three stages, and how long a wallet has been silent when its nominees are told.
use irg_gdp.Base.{
  ℕ, ◌+◌, ◌≤◌, ◌<◌, ◌≡◌, refl, Option, none, some, List, [], ◌∷◌, ◌++◌, arith, length,
  length-append,
}
use irg_gdp.Wallet.Model.{
  Account, Wallet, Nominee, activated, prompt_sent, reminder_sent, nominees_alerted, Time, touch,
}
use irg_gdp.Wallet.Monad.{set_wallet}
use irg_gdp.Wallet.Policy.{
  days, inactivity_prompt_after, inactivity_reminder_after_prompt,
  inactivity_nominees_after_reminder,
}
use irg_gdp.Wallet.Inactivity.{
  last_seen, alert_nominees, alert_stage, reminder_stage, prompt_stage, Stats, sweep_active,
  sweep_one, sweep_from, sweep_inactivity,
}

-- What has happened came at least `wait` after what it follows.
abbrev pub Follows : ℕ → Option Time → Option Time → Type 0
Follows wait a none = Unit
Follows wait none (some b) = ⊥
Follows wait (some a) (some b) = a + wait ≤ b

pub record InOrder (w : Wallet) : Type 0 where
  pub prompted : Follows inactivity_prompt_after (some (last_seen w)) w.inactivity_prompt_sent_at
  pub reminded :
      Follows inactivity_reminder_after_prompt w.inactivity_prompt_sent_at
        w.inactivity_reminder_sent_at
  pub alerted :
      Follows inactivity_nominees_after_reminder w.inactivity_reminder_sent_at w.nominees_alerted_at

alert_nominees_keeps :
    (ns : List Nominee) (s : Account)
    → ((alert_nominees ns s).wallet ≡ s.wallet) × ((alert_nominees ns s).events ≡ s.events)
unfolding alert_nominees
alert_nominees_keeps [] s = (refl, refl)
alert_nominees_keeps (n ∷ ns) s = alert_nominees_keeps ns _

pub stage_wallets :
    (now : Time) (s : Account)
    → ((alert_stage now s).wallet ≡ record s.wallet { nominees_alerted_at = some now })
      × ((alert_stage now s).events
          ≡ s.events ++ (record { kind = nominees_alerted; occurred_at = now } ∷ []))
unfolding alert_stage
stage_wallets now s = grind (arith, alert_nominees_keeps)

-- A sweep keeps the order.
sweep_one-InOrder :
    (now : Time) (s : Account) (st : Stats)
    → InOrder s.wallet
    → InOrder (sweep_one now s st).0.wallet
unfolding sweep_one sweep_active reminder_stage prompt_stage
sweep_one-InOrder now s st h = ground (arith, stage_wallets now s)

-- What the watchdog and the owner do to a wallet, at a time.
pub data Tick : Type 0 where
  sweeps touches : Time → Tick

unfoldable pub tick : Tick → Account → Account
unfolding touch
tick (sweeps now) s = (sweep_one now s (record { prompted = 0; reminded = 0; alerted = 0 })).0
tick (touches now) s = set_wallet (touch now) s

unfoldable pub tick_all : List Tick → Account → Account
tick_all [] s = s
tick_all (t ∷ ts) s = tick_all ts (tick t s)

touch-InOrder : (now : Time) (s : Account) → InOrder (set_wallet (touch now) s).wallet
unfolding touch
touch-InOrder now s = ground arith

tick-InOrder : (t : Tick) (s : Account) → InOrder s.wallet → InOrder (tick t s).wallet
unfolding tick
tick-InOrder (sweeps now) s h = sweep_one-InOrder now s _ h
tick-InOrder (touches now) s h = touch-InOrder now s

tick_all-InOrder :
    (ts : List Tick) (s : Account) → InOrder s.wallet → InOrder (tick_all ts s).wallet
unfolding tick_all
tick_all-InOrder [] s h = h
tick_all-InOrder (t ∷ ts) s h = tick_all-InOrder ts (tick t s) (tick-InOrder t s h)

alerted_late :
    (w : Wallet) (a : Time)
    → InOrder w
    → w.nominees_alerted_at ≡ some a
    → last_seen w + days 369 ≤ a
alerted_late w a h e = ground (arith, h.prompted, h.reminded, h.alerted)

-- Whatever sweeps and activity a wallet has seen since an activity, if the mark that its nominees
-- were told is set, they were told 369 days or more after the wallet was last seen.
pub alerted_after_silence :
    (ts : List Tick) (now a : Time) (s : Account)
    → (tick_all ts (set_wallet (touch now) s)).wallet.nominees_alerted_at ≡ some a
    → last_seen (tick_all ts (set_wallet (touch now) s)).wallet + days 369 ≤ a
alerted_after_silence ts now a s h =
    alerted_late (tick_all ts (set_wallet (touch now) s)).wallet a
      (tick_all-InOrder ts (set_wallet (touch now) s) (touch-InOrder now s)) h

sweep_due_prompt :
    (t : Time) (s : Account) (st : Stats)
    → s.wallet.state ≡ activated
    → s.wallet.inactivity_prompt_sent_at ≡ none
    → s.wallet.inactivity_reminder_sent_at ≡ none
    → last_seen s.wallet + inactivity_prompt_after ≤ t
    → (sweep_one t s st).0 ≡ prompt_stage t s
unfolding sweep_one sweep_active
sweep_due_prompt t s st act p r late = ground arith

sweep_due_reminder :
    (t sent : Time) (s : Account) (st : Stats)
    → s.wallet.state ≡ activated
    → s.wallet.inactivity_prompt_sent_at ≡ some sent
    → s.wallet.inactivity_reminder_sent_at ≡ none
    → sent + inactivity_reminder_after_prompt ≤ t
    → (sweep_one t s st).0 ≡ reminder_stage t s
unfolding sweep_one sweep_active
sweep_due_reminder t sent s st act p r late = ground arith

sweep_due_alert :
    (t sent : Time) (s : Account) (st : Stats)
    → s.wallet.state ≡ activated
    → s.wallet.inactivity_reminder_sent_at ≡ some sent
    → s.wallet.nominees_alerted_at ≡ none
    → sent + inactivity_nominees_after_reminder ≤ t
    → (sweep_one t s st).0 ≡ alert_stage t s
unfolding sweep_one sweep_active
sweep_due_alert t sent s st act p r late = ground arith

-- The watchdog does get to the nominees: on an activated wallet that is touched at `seen`, sweeps
-- 365 days or more after that and then two days or more apart do exactly the three stages, the
-- prompt, the reminder and the alert of the nominees, in this order.
pub three_sweeps :
    (seen a b c : Time) (s : Account)
    → s.wallet.state ≡ activated
    → seen + days 365 ≤ a
    → a + days 2 ≤ b
    → b + days 2 ≤ c
    → tick_all (touches seen ∷ sweeps a ∷ sweeps b ∷ sweeps c ∷ []) s
      ≡ alert_stage c (reminder_stage b (prompt_stage a (set_wallet (touch seen) s)))
unfolding tick_all tick reminder_stage prompt_stage touch
three_sweeps seen a b c s act ha hb hc =
    let zero_stats : Stats = record { prompted = 0; reminded = 0; alerted = 0 } in
    let s1 = set_wallet (touch seen) s in
    let s2 = prompt_stage a s1 in
    let s3 = reminder_stage b s2 in
    let e1 : (sweep_one a s1 zero_stats).0 ≡ s2 =
      sweep_due_prompt a s1 zero_stats act refl refl ha in
    let e2 : (sweep_one b s2 zero_stats).0 ≡ s3 =
      sweep_due_reminder b a s2 zero_stats act refl refl hb in
    let e3 : (sweep_one c s3 zero_stats).0 ≡ alert_stage c s3 =
      sweep_due_alert c b s3 zero_stats act refl refl hc in
    rw (e1, e2, e3)

-- For a year after an activity no sweep does anything to the wallet.
pub sweep_after_touch :
    (seen now : Time) (s : Account) (st : Stats)
    → now < seen + inactivity_prompt_after
    → sweep_one now (set_wallet (touch seen) s) st ≡ (set_wallet (touch seen) s, st)
unfolding sweep_one sweep_active touch
sweep_after_touch seen now s st early = ground arith

abbrev pub total : Stats → ℕ
total st = st.prompted + st.reminded + st.alerted

abbrev pub event_count : List Account → ℕ
event_count [] = 0
event_count (s ∷ ss) = length s.events + event_count ss

sweep_one-count :
    (now : Time) (s : Account) (st : Stats)
    → length (sweep_one now s st).0.events + total st
      ≡ length s.events + total (sweep_one now s st).1
unfolding sweep_one sweep_active reminder_stage prompt_stage
sweep_one-count now s st = ground (
  arith,
  stage_wallets now s,
  length-append s.events (record { kind = nominees_alerted; occurred_at = now } ∷ []),
  length-append s.events (record { kind = reminder_sent; occurred_at = now } ∷ []),
  length-append s.events (record { kind = prompt_sent; occurred_at = now } ∷ []),
)

sweep_from-count :
    (now : Time) (ss : List Account) (st : Stats)
    → event_count (sweep_from now ss st).0 + total st
      ≡ event_count ss + total (sweep_from now ss st).1
unfolding sweep_from
sweep_from-count now [] st = refl
sweep_from-count now (s ∷ ss) st =
    omega (arith, sweep_one-count now s st, sweep_from-count now ss (sweep_one now s st).1)

-- The numbers that a sweep reports add up to the events that it has recorded.
pub sweep_counts_events :
    (now : Time) (ss : List Account)
    → let (ss', st) = sweep_inactivity now ss in event_count ss' ≡ event_count ss + total st
unfolding sweep_inactivity
sweep_counts_events now ss =
    omega (arith, sweep_from-count now ss (record { prompted = 0; reminded = 0; alerted = 0 }))

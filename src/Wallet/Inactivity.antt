-- ===== src/Wallet/Inactivity.antt =====
-- The inactivity watchdog: activity resets its clock, and the nightly sweep escalates in three stages.
pub mod Escalation
use irg_gdp.Base.{
  ℕ, ◌+◌, ◌-◌, ◌≡◌, Bool, true, false, ◌&&◌, Option, none, some, List, [], ◌∷◌, ◌++◌, leb, is_some,
  not, if◌then◌else◌,
}
use irg_gdp.Wallet.Model.{
  Account, Wallet, Nominee, EventKind, prompt_sent, reminder_sent, nominees_alerted, confirmed,
  Time, contact, touch, is_activated, inactivity_prompt, inactivity_reminder,
  inactivity_nominee_alert,
}
use irg_gdp.Wallet.Monad.{set_wallet, notify, send}
use irg_gdp.Wallet.Policy.{
  inactivity_prompt_after, inactivity_reminder_after_prompt, inactivity_nominees_after_reminder,
}
use irg_gdp.Wallet.Nominees.{active_nominees}

abbrev pub record_event : EventKind → Time → Account → Account
record_event kind now s = record s {
  events = s.events ++ (record { kind = kind; occurred_at = now } ∷ []);
}

-- `services.touch_activity`; a user without a wallet is left alone.
unfoldable pub touch_activity : Time → Option Account → Option Account
unfolding touch
touch_activity now none = none
touch_activity now (some s) = some (set_wallet (touch now) s)

unfoldable pub confirm_liveness : Time → Account → Account
unfolding touch
confirm_liveness now s = record_event confirmed now (set_wallet (touch now) s)

abbrev pub or_else : Option Time → Time → Time
or_else none d = d
or_else (some t) d = t

-- `last_activity_at or activated_at or created_at`; the last is never empty.
abbrev pub last_seen : Wallet → Time
last_seen w = or_else w.last_activity_at (or_else w.activated_at w.created_at)

-- `sent and not followed and now - sent >= wait`
abbrev pub is_due : Option Time → Option Time → ℕ → Time → Bool
is_due none followed wait now = false
is_due (some sent) followed wait now = not (is_some followed) && leb wait (now - sent)

-- `_alert_nominees_on_inactivity`
unfoldable pub alert_nominees : List Nominee → Account → Account
alert_nominees [] s = s
alert_nominees (n ∷ ns) s =
    alert_nominees ns (send (contact n.email n.mobile) inactivity_nominee_alert s)

pub record Stats : Type 0 where
  pub prompted : ℕ
  pub reminded : ℕ
  pub alerted : ℕ

unfoldable pub alert_stage : Time → Account → Account
unfolding alert_nominees
alert_stage now s = record_event nominees_alerted now (
    set_wallet (λ w. record w { nominees_alerted_at = some now })
      (alert_nominees (active_nominees s) s))

unfoldable pub reminder_stage : Time → Account → Account
reminder_stage now s = record_event reminder_sent now (
    set_wallet (λ w. record w { inactivity_reminder_sent_at = some now })
      (notify inactivity_reminder s))

unfoldable pub prompt_stage : Time → Account → Account
prompt_stage now s = record_event prompt_sent now (
    set_wallet (λ w. record w { inactivity_prompt_sent_at = some now })
      (notify inactivity_prompt s))

-- The body of the loop for an activated wallet: the first stage that is due, and the count of it.
unfoldable pub sweep_active : Time → Account → Stats → Account × Stats
sweep_active now s st =
    let w = s.wallet in
    if is_due w.inactivity_reminder_sent_at w.nominees_alerted_at inactivity_nominees_after_reminder
      now
    then (alert_stage now s, record st { alerted = st.alerted + 1 })
    else if is_due w.inactivity_prompt_sent_at w.inactivity_reminder_sent_at
        inactivity_reminder_after_prompt now
    then (reminder_stage now s, record st { reminded = st.reminded + 1 })
    else if leb inactivity_prompt_after (now - last_seen w)
        && not (is_some w.inactivity_prompt_sent_at)
    then (prompt_stage now s, record st { prompted = st.prompted + 1 })
    else (s, st)

unfoldable pub sweep_one : Time → Account → Stats → Account × Stats
sweep_one now s st = if is_activated s.wallet.state then sweep_active now s st else (s, st)

unfoldable pub sweep_from : Time → List Account → Stats → List Account × Stats
sweep_from now [] st = ([], st)
sweep_from now (s ∷ ss) st =
    let (s', st') = sweep_one now s st in
    let (ss', st'') = sweep_from now ss st' in (s' ∷ ss', st'')

-- `sweep_inactivity`
unfoldable pub sweep_inactivity : Time → List Account → List Account × Stats
sweep_inactivity now ss = sweep_from now ss (record { prompted = 0; reminded = 0; alerted = 0 })

-- ===== src/Wallet/Throttle.antt =====
-- backend/wallet_access/middleware.py: at most one touch of the wallet per user and hour.
use irg_gdp.Base.{
  ℕ, ◌+◌, ◌-◌, ◌<◌, ◌≡◌, Bool, true, false, List, [], ◌∷◌, ltb, ◌==◌, arith, if◌then◌else◌, Option,
}
use irg_gdp.Wallet.Model.{Account, Time}
use irg_gdp.Wallet.Inactivity.{touch_activity}

abbrev pub touch_interval_seconds : ℕ
touch_interval_seconds = 3600

-- `_last_touch`, from user numbers to times.
abbrev pub LastTouch : Type 0
LastTouch = List (ℕ × Time)

-- `_last_touch.get(user_id, 0.0)`
unfoldable pub last_touch : ℕ → LastTouch → Time
last_touch u [] = 0
last_touch u ((v, t) ∷ d) = if u == v then t else last_touch u d

unfoldable pub set_touch : ℕ → Time → LastTouch → LastTouch
set_touch u now [] = (u, now) ∷ []
set_touch u now ((v, t) ∷ d) = if u == v then (v, now) ∷ d else (v, t) ∷ set_touch u now d

-- `_should_touch`, at the time `now`; the lock makes each call one step.
unfoldable pub should_touch : ℕ → Time → LastTouch → Bool × LastTouch
should_touch u now d =
    if ltb (now - last_touch u d) touch_interval_seconds
    then (false, d)
    else (true, set_touch u now d)

-- What `WalletActivityMiddleware` does after the response, for a user who is signed in or not.
unfoldable pub after_response :
    Bool → ℕ → Time → LastTouch → Option Account → Option Account × LastTouch
unfolding should_touch touch_activity
after_response false u now d account = (account, d)
after_response true u now d account =
    let (due, d') = should_touch u now d in
    (if due then touch_activity now account else account, d')

unfoldable pub touch_run : List (ℕ × Time) → LastTouch → LastTouch
touch_run [] d = d
touch_run ((u, now) ∷ cs) d = touch_run cs (should_touch u now d).1

last_touch-set_touch :
    (u v : ℕ) (now : Time) (d : LastTouch)
    → last_touch u (set_touch v now d) ≡ (if u == v then now else last_touch u d)
unfolding last_touch set_touch
last_touch-set_touch u v now [] = ground arith
last_touch-set_touch u v now ((w, t) ∷ d) = ground (arith, last_touch-set_touch u v now d)

-- Every call before a time.
abbrev pub AllBefore : Time → List (ℕ × Time) → Type 0
AllBefore t [] = Unit
AllBefore t ((u, now) ∷ cs) = (now < t) × AllBefore t cs

touch_kept :
    (u v : ℕ) (t now : Time) (d : LastTouch)
    → last_touch u d ≡ t
    → now < t + touch_interval_seconds
    → last_touch u (should_touch v now d).1 ≡ t
unfolding should_touch
touch_kept u v t now d e early = ground (arith, last_touch-set_touch u v now d)

run_kept :
    (u : ℕ) (t : Time) (cs : List (ℕ × Time)) (d : LastTouch)
    → last_touch u d ≡ t
    → AllBefore (t + touch_interval_seconds) cs
    → last_touch u (touch_run cs d) ≡ t
unfolding touch_run
run_kept u t [] d e before = e
run_kept u t ((v, now) ∷ cs) d e before =
    run_kept u t cs (should_touch v now d).1 (touch_kept u v t now d e before.0) before.1

-- Once a request of a user has touched the wallet, no request of that user within the next hour does,
-- whatever requests of this and other users come between.
pub touch_once_per_hour :
    (u : ℕ) (t now : Time) (cs : List (ℕ × Time)) (d : LastTouch)
    → (should_touch u t d).0 ≡ true
    → AllBefore (t + touch_interval_seconds) cs
    → now < t + touch_interval_seconds
    → (should_touch u now (touch_run cs (should_touch u t d).1)).0 ≡ false
unfolding should_touch
touch_once_per_hour u t now cs d due before soon =
    let set : last_touch u (should_touch u t d).1 ≡ t =
      ground (arith, last_touch-set_touch u u t d) in
    ground (arith, run_kept u t cs (should_touch u t d).1 set before)

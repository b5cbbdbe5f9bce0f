-- ===== src/Tests/Claims.antt =====
-- Recoveries, transfers, sweeps and the middleware at work.
use irg_gdp.Base.Int.{◌+ℤ◌}
use irg_gdp.Wallet.Nominees.{total_or_zero, register_nominees}
use irg_gdp.Base.{
  is_some, ◌+◌, ◌≤◌, ◌≡◌, refl, true, false, none, some, List, [], ◌∷◌, filter, arith,
}
use irg_gdp.Wallet.Model.{
  Account, RecoveryCase, recovering, legal_person, partnership_change, is_transactable,
  is_active_device, touch,
}
use irg_gdp.Wallet.Monad.{ok, set_wallet}
use irg_gdp.Wallet.Policy.{
  days, validate_wallet_password, is_complex, clean_words, hash_seed_phrase,
}
use irg_gdp.Wallet.Activation.{
  activate_wallet, activated_wallet, check_activation, may_activate, check_holder,
  check_activation_nominees, tell_nominees,
}
use irg_gdp.Wallet.Devices.{cooling_device}
use irg_gdp.Wallet.Recovery.{
  initiate_self_recovery, initiate_social_recovery, cancel_recovery, cancel_case,
  execute_ombudsman_order, approve, is_claimant,
}
use irg_gdp.Wallet.Recovery.Self.{self_recovery_ok, seed_round_trip}
use irg_gdp.Wallet.Recovery.Cancellation.{cancel_recovery-ok_iff}
use irg_gdp.Wallet.Recovery.Orders.{order_cases}
use irg_gdp.Wallet.Recovery.Claims.{social_recovery_ok}
use irg_gdp.Wallet.Ownership.{TransferInput, initiate_ownership_transfer}
use irg_gdp.Wallet.Inactivity.{
  alert_stage, reminder_stage, prompt_stage, last_seen, sweep_one, sweep_active,
}
use irg_gdp.Wallet.Inactivity.Escalation.{
  Tick, touches, sweeps, tick_all, alerted_after_silence, three_sweeps, tick,
}
use irg_gdp.Wallet.Throttle.{should_touch, touch_run, touch_once_per_hour, last_touch}
use irg_gdp.Wallet.Recovery.{social_case}
use irg_gdp.Wallet.Model.{recovered}
use irg_gdp.Base.{inl, arith}
use irg_gdp.Wallet.Life.Steps.{activate, here, next}
use irg_gdp.Wallet.Life.Password.{transactable_has_password}
use irg_gdp.Tests.Samples.{
  sample, words, stranger, fresh, activation, device, in_use, with_nominees, claim, with_claim,
}

abbrev set_up : Account
set_up = (activate_wallet sample 1 100 0 activation fresh).1

self_recovery_ok_example :
    filter is_active_device (initiate_self_recovery sample 3 4 200 words device set_up).1.devices
    ≡ cooling_device 4 200 device ∷ []
unfolding initiate_self_recovery activate_wallet check_activation may_activate
    validate_wallet_password is_complex clean_words check_holder check_activation_nominees
    total_or_zero ◌+ℤ◌ register_nominees tell_nominees activated_wallet hash_seed_phrase
self_recovery_ok_example = (self_recovery_ok sample 3 4 200 500 words device set_up _ refl refl).8

seed_round_trip_example :
    (c : RecoveryCase) × ((initiate_self_recovery sample 3 4 200 words device set_up).0 ≡ ok c)
unfolding activate_wallet check_activation may_activate validate_wallet_password is_complex
    clean_words check_holder check_activation_nominees total_or_zero ◌+ℤ◌ register_nominees
    tell_nominees activated_wallet
seed_round_trip_example =
    seed_round_trip sample 3 4 100 200 0 activation device set_up
      (
        refl,
        (
          refl,
          (
            refl,
            (
              refl,
              (
                refl,
                (refl, (refl, (refl, (refl, (refl, (refl, (refl, (refl, (refl, (refl, tt)))))))))),
              ),
            ),
          ),
        ),
      )
      refl refl

-- The claim can be cancelled 100 seconds later.
social_recovery_ok_example :
    (cancel_recovery sample 300 5 []
      (initiate_social_recovery 5 200 stranger 2 [] with_nominees).1).0
    ≡ ok (cancel_case sample [] (social_case 5 200 stranger 2 []))
unfolding initiate_social_recovery is_claimant
social_recovery_ok_example =
    (social_recovery_ok 5 200 stranger 2 [] with_nominees _ false false 300 sample [] refl refl).8

cancel_recovery-ok_iff_example :
    (x : RecoveryCase) × ((cancel_recovery sample 300 5 [] (with_claim recovering)).0 ≡ ok x)
cancel_recovery-ok_iff_example =
    (cancel_recovery-ok_iff sample 300 5 [] (with_claim recovering) claim refl).1 (
      λ e. ground arith,
      λ e. ground arith,
      λ e. ground arith,
      λ e. ground arith,
      inl (λ e. ground arith),
    )

order_cases_example :
    (execute_ombudsman_order 300 5 8 9 approve (with_claim recovering)).1.wallet
    ≡ record (with_claim recovering).wallet { state = recovered }
order_cases_example = (order_cases 300 5 8 9 (with_claim recovering) claim refl).3

abbrev firm : Account
firm = set_wallet (λ w. record w { holder_type = legal_person }) in_use

abbrev filing : TransferInput
filing = record {
  incoming = some 12;
  reason = some partnership_change;
  grounds = [];
  evidence_bundle_hash = [];
}

abbrev in_transfer : Account
in_transfer = (initiate_ownership_transfer 6 200 filing none firm).1

abbrev silent_year : List Tick
silent_year = sweeps (days 366) ∷ sweeps (days 369) ∷ sweeps (days 372) ∷ []

alerted_after_silence_example :
    last_seen (tick_all silent_year (set_wallet (touch 0) in_use)).wallet + days 369 ≤ days 372
unfolding tick_all tick sweep_one sweep_active prompt_stage reminder_stage alert_stage
alerted_after_silence_example = alerted_after_silence silent_year 0 (days 372) in_use refl

three_sweeps_example :
    tick_all (touches 0 ∷ sweeps (days 366) ∷ sweeps (days 369) ∷ sweeps (days 372) ∷ []) in_use
    ≡ alert_stage
        (days 372)
        (reminder_stage (days 369) (prompt_stage (days 366) (set_wallet (touch 0) in_use)))
three_sweeps_example =
    three_sweeps 0 (days 366) (days 369) (days 372) in_use refl (omega arith) (omega arith)
      (omega arith)

touch_once_per_hour_example :
    (should_touch 7 8000 (touch_run ((8, 5001) ∷ (7, 5002) ∷ []) (should_touch 7 5000 []).1)).0
    ≡ false
unfolding should_touch last_touch
touch_once_per_hour_example =
    touch_once_per_hour 7 5000 8000 ((8, 5001) ∷ (7, 5002) ∷ []) [] refl
      (omega arith, (omega arith, tt)) (omega arith)

transactable_has_password_example : is_some set_up.wallet.password_hash ≡ true
unfolding is_transactable activate_wallet check_activation may_activate validate_wallet_password
    is_complex clean_words check_holder check_activation_nominees total_or_zero ◌+ℤ◌
    register_nominees tell_nominees activated_wallet
transactable_has_password_example =
    transactable_has_password {pf = sample} {s = fresh} {t = set_up} 300 refl
      (next here (activate 1 100 0 activation)) refl

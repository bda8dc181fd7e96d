-- ===== src/AccountHealth/Tests.antt =====
-- Runs and instances of the theorems about account health.
use browser_profile_studio.Prelude.{
  string_eq, nat_eq, bool_eq, pair_eq, text_eq, ℕ, ◌≡◌, refl, true, false, none, some, List, [],
  ◌∷◌, arith,
}
use browser_profile_studio.Prelude.Method.{returns}
use browser_profile_studio.AccountHealth.{
  healthy, login_expired, proxy_unhealthy, quarantined, disabled, AccountHealth, InitialSnapshot,
  valid_transition, retry_delay, record_failure, is_retry_eligible, defaults, create, get_snapshot,
}
use browser_profile_studio.AccountHealth.Invariant.{
  Operation, fails, step, run, run-create_restores,
}
use browser_profile_studio.AccountHealth.Backoff.{Delays, failing, consecutive_failures-Delays}
use browser_profile_studio.AccountHealth.Isolation.{isolated_until_recovery}

abbrev blank : InitialSnapshot
blank = record {
  state = none;
  reason = none;
  last_updated = none;
  failure_count = none;
  next_retry_available_at = none;
}

abbrev sound : AccountHealth
sound = defaults blank 0

abbrev two_failures : List (Operation × ℕ)
two_failures = (fails login_expired none, 10) ∷ (fails proxy_unhealthy none, 20) ∷ []

second_delay : (run two_failures sound).next_retry_available_at ≡ some 600_020
unfolding run step record_failure retry_delay
second_delay = refl

table :
    (valid_transition quarantined login_expired ≡ false)
    × (valid_transition disabled healthy ≡ true)
unfolding valid_transition
table = (refl, refl)

run-create_restores_example :
    create (get_snapshot (run two_failures sound)) 30 ≡ returns tt (run two_failures sound)
unfolding create run step record_failure
run-create_restores_example =
    run-create_restores blank 0 30 sound two_failures refl (omega arith) (omega arith)

consecutive_failures-Delays_example : Delays proxy_unhealthy 1 20 600_020 (
    record_failure proxy_unhealthy
      (some (110 ∷ []))
      20
      (run (failing ((login_expired, some (108 ∷ []), 10) ∷ [])) sound))
consecutive_failures-Delays_example =
    (consecutive_failures-Delays ((login_expired, some (108 ∷ []), 10) ∷ [])
      (proxy_unhealthy, some (110 ∷ []), 20) 600_020 sound refl
      ((refl, omega arith, omega arith), tt) (refl, omega arith, omega arith)).0

isolated_until_recovery_example :
    is_retry_eligible (run two_failures (record sound { state = quarantined })) 1_000_000 ≡ false
isolated_until_recovery_example =
    isolated_until_recovery two_failures (record sound { state = quarantined }) 1_000_000 refl
      (refl, (refl, tt))

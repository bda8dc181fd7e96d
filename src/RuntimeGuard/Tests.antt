-- ===== src/RuntimeGuard/Tests.antt =====
-- Runs and instances of the theorems about the runtime guard.
use browser_profile_studio.Prelude.{
  string_eq, nat_eq, pair_eq, All, text_eq, ◌+◌, ◌*◌, ◌≤◌, ◌≡◌, refl, true, false, none, some, List,
  [], ◌∷◌, arith,
}
use browser_profile_studio.RuntimeGuard.{
  CallContext, Guard, bounded_number, token, guard_of, create, refill, take_token, before_call,
}
use browser_profile_studio.RuntimeGuard.Rate.{Attempt, admitted, admitted-create-bound}
use browser_profile_studio.RuntimeGuard.Metrics.{
  Event, calls, records, run, EntryAddsUp, run-AddsUp,
}

abbrev reading : CallContext
reading = record { write = false; control_state = some "USER_CONTROLLED"; session_state = none }

abbrev writing : CallContext
writing = record reading { write = true }

-- Ten calls a second, two at once.
abbrev small_guard : Guard
small_guard = create (some 100) (some 20) 1_000

abbrev attempts : List Attempt
attempts =
    (1_000, reading)
    ∷ (1_000, writing)
    ∷ (1_010, reading)
    ∷ (1_020, reading)
    ∷ (1_100, reading)
    ∷ []

three_get_through : admitted attempts small_guard ≡ 3
unfolding admitted before_call refill take_token create bounded_number
three_get_through = refl

admitted-create-bound_example :
    (token * admitted attempts small_guard + 1_000 * small_guard.rate
      ≤ small_guard.capacity + 1_100 * small_guard.rate)
    × (small_guard.rate ≤ 10_000)
    × (small_guard.capacity ≤ 10_000 * token)
admitted-create-bound_example =
    admitted-create-bound (some 100) (some 20) 1_000 1_100 attempts
      (omega arith, (omega arith, (omega arith, (omega arith, (omega arith, omega arith)))))

abbrev events : List Event
events =
    calls 1_000 writing ∷ records (116 ∷ []) true 40 ∷ records (116 ∷ []) false 100_000_000 ∷ []

run-AddsUp_example : All EntryAddsUp (run events (guard_of 100 20_000 1_000)).metrics
run-AddsUp_example = run-AddsUp events (guard_of 100 20_000 1_000) tt

-- ===== src/AccountHealth/Backoff.antt =====
-- How long a failing account waits.
use native.Mathlib.Decide.{dec_lt}
use native.Mathlib.Nat.{pow-suc}
use browser_profile_studio.Prelude.{
  leb, string_eq, nat_eq, bool_eq, pair_eq, length, All, text_eq, ℕ, zero, suc, ◌+◌, ◌-◌, ◌*◌, ◌≤◌,
  ◌<◌, min, ◌≡◌, refl, ap, ◌∙◌, Bool, true, false, not, ◌||◌, Option, none, some, List, [], ◌∷◌,
  arith,
}
use browser_profile_studio.AccountHealth.{
  AccountHealthState, HealthError, AccountHealth, max_safe_integer, base_retry_delay_ms,
  max_retry_delay_ms, is_isolated, is_healthy, validated_reason, retry_delay, record_failure,
  is_retry_eligible,
}
use browser_profile_studio.Prelude.Method.{Outcome, returns, throws}
use browser_profile_studio.AccountHealth.Invariant.{Operation, fails, step, run, ReasonFits}

-- The schedule as the operator reads it: five minutes, doubled with each failure, a day at most.
abbrev pub schedule : ℕ → ℕ
schedule zero = 0
schedule (suc zero) = base_retry_delay_ms
schedule (suc (suc n)) = min (2 * schedule (suc n)) max_retry_delay_ms

exponent_below : (n : ℕ) → n < 30 → min (suc (suc n) - 1) 30 ≡ suc (min (suc n - 1) 30)
exponent_below n h = omega arith

exponent_above : (n : ℕ) → 30 ≤ n → (min (suc (suc n) - 1) 30 ≡ 30) × (min (suc n - 1) 30 ≡ 30)
exponent_above n h = omega arith

retry_delay-suc :
    (n : ℕ) → retry_delay (suc (suc n)) ≡ min (2 * retry_delay (suc n)) max_retry_delay_ms
unfolding retry_delay
retry_delay-suc n = elim (dec_lt n 30) [
  | yes h ↦ rw (exponent_below n h) (omega (arith, pow-suc 2 (min (suc n - 1) 30)))
  | no h ↦ let (up, down) = exponent_above n (omega arith) in rw (up, down) refl
]

retry_delay_one : retry_delay 1 ≡ base_retry_delay_ms
unfolding retry_delay
retry_delay_one = refl

retry_delay-schedule : (n : ℕ) → retry_delay (suc n) ≡ schedule (suc n)
retry_delay-schedule zero = retry_delay_one
retry_delay-schedule (suc n) =
    retry_delay-suc n ∙ ap (λ d. min (2 * d) max_retry_delay_ms) (retry_delay-schedule n)

schedule_bounds :
    (n : ℕ) → (base_retry_delay_ms ≤ schedule (suc n)) × (schedule (suc n) ≤ max_retry_delay_ms)
schedule_bounds zero = omega arith
schedule_bounds (suc n) = omega (arith, schedule_bounds n)

-- The failure is recorded, the count goes up, and the account is eligible again when the
-- schedule says.
abbrev pub Delays :
    AccountHealthState → ℕ → ℕ → ℕ → Outcome HealthError AccountHealth (Unit {0}) → Type 0
Delays state count now later (throws e t) = ⊥
Delays state count now later (returns _ t) =
    (t.state ≡ state)
    × (t.failure_count ≡ suc count)
    × (is_retry_eligible t later ≡ leb (now + schedule (suc count)) later)

abbrev pub is_failure : AccountHealthState → Bool
is_failure state = not (is_healthy state || is_isolated state)

add_one : (n : ℕ) → n + 1 ≡ suc n
add_one n = omega arith

-- A failure: its state, its reason and its time.
abbrev pub Failure : Type 0
Failure = AccountHealthState × Option (List ℕ) × ℕ

-- A failure that `recordFailure` takes.
abbrev pub IsFailure : Failure → Type 0
IsFailure (state, reason, now) =
    (is_failure state ≡ true) × ReasonFits reason × (now ≤ max_safe_integer)

reason_passes :
    (reason : Option (List ℕ)) (s : AccountHealth)
    → ReasonFits reason
    → validated_reason reason s ≡ returns tt s
unfolding validated_reason
reason_passes none s h = refl
reason_passes (some r) s h = ground arith

fails_again :
    (f : Failure) (later : ℕ) (s : AccountHealth)
    → is_isolated s.state ≡ false
    → IsFailure f
    → Delays f.0 s.failure_count f.2 later (record_failure f.0 f.1 f.2 s)
unfolding record_failure is_retry_eligible
fails_again (new, reason, now) later s i f = ground (
  arith,
  retry_delay-schedule s.failure_count,
  add_one s.failure_count,
  reason_passes reason s f.1,
)

abbrev pub failing : List Failure → List (Operation × ℕ)
failing [] = []
failing ((state, reason, now) ∷ fs) = (fails state reason, now) ∷ failing fs

-- What `run` needs of one failure.
after_failure :
    (f : Failure) (s : AccountHealth)
    → is_isolated s.state ≡ false
    → IsFailure f
    → ((step (fails f.0 f.1, f.2) s).failure_count ≡ suc s.failure_count)
      × (is_isolated (step (fails f.0 f.1, f.2) s).state ≡ false)
unfolding step record_failure
after_failure (new, reason, now) s i f =
    ground (arith, add_one s.failure_count, reason_passes reason s f.1)

run-failing :
    (fs : List Failure) (s : AccountHealth)
    → is_isolated s.state ≡ false
    → All IsFailure fs
    → ((run (failing fs) s).failure_count ≡ length fs + s.failure_count)
      × (is_isolated (run (failing fs) s).state ≡ false)
unfolding run
run-failing [] s i f = (omega arith, i)
run-failing (f ∷ fs) s i (fit, rest) =
    let (count, still) = after_failure f s i fit in
    let (counts, stays) = run-failing fs (step (fails f.0 f.1, f.2) s) still rest in
    (omega (arith, counts, count), stays)

-- Of an account that is neither quarantined nor disabled, after any failures in a row, whatever their
-- reasons, the next one is recorded too, and the account is eligible again exactly from the
-- schedule's delay on: five minutes at a count of one, twice as long for each further failure, and
-- never more than a day. A failure is one to a state that is not healthy, quarantined or disabled,
-- with no reason or one of at most 1,024 units, at a time that is a safe integer.
pub consecutive_failures-Delays :
    (fs : List Failure) (f : Failure) (later : ℕ) (s : AccountHealth)
    → is_isolated s.state ≡ false
    → All IsFailure fs
    → IsFailure f
    → Delays f.0
        (length fs + s.failure_count)
        f.2
        later
        (record_failure f.0 f.1 f.2 (run (failing fs) s))
      × (base_retry_delay_ms ≤ schedule (suc (length fs + s.failure_count)))
      × (schedule (suc (length fs + s.failure_count)) ≤ max_retry_delay_ms)
consecutive_failures-Delays fs f later s i past fit =
    let (count, still) = run-failing fs s i past in
    let (lo, hi) = schedule_bounds (length fs + s.failure_count) in
    (rw (← count) (fails_again f later (run (failing fs) s) still fit), lo, hi)

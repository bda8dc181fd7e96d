-- ===== src/AccountHealth/Invariant.antt =====
-- Every state that the operations reach can be stored and loaded again.
use browser_profile_studio.Prelude.{
  Bool-cases, string_eq, nat_eq, bool_eq, pair_eq, length, text_eq, ℕ, ◌+◌, ◌≤◌, ◌≡◌, subst, inl,
  inr, Bool, true, false, ◌||◌, Option, none, some, List, [], ◌∷◌, arith,
}
use browser_profile_studio.Prelude.Method.{Outcome, returns, throws, final}
use browser_profile_studio.AccountHealth.{
  AccountHealthState, healthy, quarantined, disabled, HealthError, AccountHealth, InitialSnapshot,
  max_safe_integer, max_retry_delay_ms, is_isolated, is_healthy, retry_delay, apply_transition,
  record_failure, quarantine, disable, recover, create, get_snapshot,
}

pub data Operation : Type 0 where
  fails : AccountHealthState → Option (List ℕ) → Operation
  quarantines disables recovers : Option (List ℕ) → Operation

-- What an operation at a clock reading leaves, whether it returns or throws.
unfoldable pub step : Operation × ℕ → AccountHealth → AccountHealth
unfolding record_failure quarantine disable recover
step (fails state reason, now) s = final (record_failure state reason now s)
step (quarantines reason, now) s = final (quarantine reason now s)
step (disables reason, now) s = final (disable reason now s)
step (recovers reason, now) s = final (recover reason now s)

unfoldable pub run : List (Operation × ℕ) → AccountHealth → AccountHealth
run [] s = s
run (o ∷ os) s = run os (step o s)

-- A reason, if any, has at most 1,024 units.
abbrev pub ReasonFits : Option (List ℕ) → Type 0
ReasonFits none = Unit
ReasonFits (some r) = length r ≤ 1_024

abbrev RetryFits : AccountHealthState → ℕ → Option ℕ → Type 0
RetryFits healthy count retry = (count ≡ 0) × (retry ≡ none)
RetryFits quarantined count retry = retry ≡ none
RetryFits disabled count retry = retry ≡ none
RetryFits _ count none = Unit
RetryFits _ count (some at) = at ≤ max_safe_integer

abbrev pub IsStorable : AccountHealth → Type 0
IsStorable s =
    ReasonFits s.reason
    × RetryFits s.state s.failure_count s.next_retry_available_at
    × (s.last_updated ≤ max_safe_integer)

-- The clock is not in the last day of the safe integers.
abbrev pub IsEarly : ℕ → Type 0
IsEarly now = now + max_retry_delay_ms ≤ max_safe_integer

retry_delay-le-max : (n : ℕ) → retry_delay n ≤ max_retry_delay_ms
unfolding retry_delay
retry_delay-le-max n = omega arith

apply_transition-IsStorable :
    (new : AccountHealthState) (reason : Option (List ℕ)) (b : Bool) (now : ℕ) (s : AccountHealth)
    → IsEarly now
    → ((b ≡ true) → is_healthy new || is_isolated new ≡ false)
    → IsStorable s
    → IsStorable (final (apply_transition new reason b now s))
unfolding apply_transition
apply_transition-IsStorable new none b now s e f v =
    ground (arith, retry_delay-le-max (s.failure_count + 1))
apply_transition-IsStorable new (some r) b now s e f v =
    ground (arith, retry_delay-le-max (s.failure_count + 1))

step-IsStorable :
    (o : Operation) (now : ℕ) (s : AccountHealth)
    → IsEarly now
    → IsStorable s
    → IsStorable (step (o, now) s)
unfolding step
step-IsStorable (fails state reason) now s e v =
    elim (Bool-cases (is_healthy state || is_isolated state)) [
      | inl y ↦ rw (y, record_failure) v
      | inr n ↦
          rw (n, record_failure) (apply_transition-IsStorable state reason true now s e (λ _. n) v)
    ]
step-IsStorable (quarantines reason) now s e v =
    apply_transition-IsStorable quarantined reason false now s e (λ x. cc) v
step-IsStorable (disables reason) now s e v =
    apply_transition-IsStorable disabled reason false now s e (λ x. cc) v
step-IsStorable (recovers reason) now s e v =
    apply_transition-IsStorable healthy reason false now s e (λ x. cc) v

abbrev pub AllEarly : List (Operation × ℕ) → Type 0
AllEarly [] = Unit
AllEarly ((o, now) ∷ os) = IsEarly now × AllEarly os

run-IsStorable :
    (os : List (Operation × ℕ)) (s : AccountHealth)
    → AllEarly os
    → IsStorable s
    → IsStorable (run os s)
unfolding run
run-IsStorable [] s e v = v
run-IsStorable ((o, now) ∷ os) s e v =
    run-IsStorable os (step (o, now) s) e.1 (step-IsStorable o now s e.0 v)

abbrev Made : Outcome HealthError AccountHealth (Unit {0}) → Type 0
Made (throws e s) = Unit
Made (returns a s) = IsStorable s

create-Made : (i : InitialSnapshot) (now : ℕ) → Made (create i now)
unfolding create
create-Made i now = ground arith

create-get_snapshot :
    (s : AccountHealth) (later : ℕ)
    → IsStorable s
    → s.failure_count ≤ max_safe_integer
    → create (get_snapshot s) later ≡ returns tt s
unfolding create get_snapshot
create-get_snapshot s later v f = ground arith

-- Whatever operations follow a constructed account health, returning or throwing, the constructor
-- takes the snapshot of the state that they leave and makes the same state of it. The clock stays a
-- day below the largest safe integer, and the failures stay countable.
pub run-create_restores :
    (i : InitialSnapshot) (now later : ℕ) (s : AccountHealth) (os : List (Operation × ℕ))
    → create i now ≡ returns tt s
    → AllEarly os
    → (run os s).failure_count ≤ max_safe_integer
    → create (get_snapshot (run os s)) later ≡ returns tt (run os s)
run-create_restores i now later s os e early f =
    let made : Made (returns tt s) = subst Made e (create-Made i now) in
    create-get_snapshot (run os s) later (run-IsStorable os s early made) f

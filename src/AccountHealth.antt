-- ===== src/AccountHealth.antt =====
-- src/account/account-health.ts: the health state of an account and its retry delays.
--
-- The clock's reading is an argument of each operation. Numbers are whole and not negative, so
-- `Number.isSafeInteger` is the test against 2^53 - 1; a reason is a list of UTF-16 code units; the
-- checks of a value's type are left out. An error has no message.
mod Tests
pub mod Invariant
pub mod Backoff
pub mod Isolation
use mathlib.Core.Option.{get_or}
use browser_profile_studio.Prelude.{
  ltb, leb, if◌then◌else◌, nat_eq, string_eq, pair_eq, length, ℕ, ◌+◌, ◌-◌, ◌*◌, ◌^◌, min, Bool,
  true, false, not, ◌&&◌, ◌||◌, Option, none, some, List,
}
use browser_profile_studio.Prelude.Method.{
  Outcome, Method, ◌>>=◌, ◌>>◌, return, throw, fields, modify, throw_if,
}

pub data AccountHealthState : Type 0 where
  healthy login_expired challenge_required proxy_unhealthy quarantined disabled : AccountHealthState

pub data HealthError : Type 0 where
  reason_too_long unsafe_timestamp unsafe_failure_count snapshot_violates_invariants : HealthError
  not_a_failure : AccountHealthState → HealthError
  invalid_transition : AccountHealthState → AccountHealthState → HealthError

pub record AccountHealth : Type 0 where
  pub state : AccountHealthState
  pub reason : Option (List ℕ)
  pub last_updated : ℕ
  pub failure_count : ℕ
  pub next_retry_available_at : Option ℕ

-- A partial snapshot, as the constructor takes it.
pub record InitialSnapshot : Type 0 where
  pub state : Option AccountHealthState
  pub reason : Option (List ℕ)
  pub last_updated : Option ℕ
  pub failure_count : Option ℕ
  pub next_retry_available_at : Option ℕ

abbrev pub max_safe_integer : ℕ
max_safe_integer = 9_007_199_254_740_991

abbrev pub base_retry_delay_ms : ℕ
base_retry_delay_ms = 300_000

abbrev pub max_retry_delay_ms : ℕ
max_retry_delay_ms = 86_400_000

unfoldable pub state_eq : AccountHealthState → AccountHealthState → Bool
state_eq healthy healthy = true
state_eq login_expired login_expired = true
state_eq challenge_required challenge_required = true
state_eq proxy_unhealthy proxy_unhealthy = true
state_eq quarantined quarantined = true
state_eq disabled disabled = true
state_eq _ _ = false

-- The table VALID_TRANSITIONS.
unfoldable pub valid_transition : AccountHealthState → AccountHealthState → Bool
valid_transition healthy healthy = false
valid_transition healthy _ = true
valid_transition login_expired login_expired = false
valid_transition login_expired _ = true
valid_transition challenge_required challenge_required = false
valid_transition challenge_required _ = true
valid_transition proxy_unhealthy proxy_unhealthy = false
valid_transition proxy_unhealthy _ = true
valid_transition quarantined healthy = true
valid_transition quarantined disabled = true
valid_transition quarantined _ = false
valid_transition disabled healthy = true
valid_transition disabled _ = false

abbrev pub is_isolated : AccountHealthState → Bool
is_isolated quarantined = true
is_isolated disabled = true
is_isolated _ = false

abbrev pub is_healthy : AccountHealthState → Bool
is_healthy healthy = true
is_healthy _ = false

abbrev pub Op : Type 0 → Type 0
Op = Method HealthError AccountHealth

unfoldable pub validated_reason : Option (List ℕ) → Op (Unit {0})
validated_reason none = return tt
validated_reason (some reason) = throw_if (ltb 1_024 (length reason)) reason_too_long

unfoldable pub validated_timestamp : ℕ → Op (Unit {0})
validated_timestamp value = throw_if (ltb max_safe_integer value) unsafe_timestamp

unfoldable pub retry_delay : ℕ → ℕ
retry_delay failure_count =
    min (base_retry_delay_ms * 2 ^ min (failure_count - 1) 30) max_retry_delay_ms

abbrev pub record_backoff : ℕ → AccountHealth → AccountHealth
record_backoff now s = record s {
  failure_count = s.failure_count + 1;
  next_retry_available_at = some (now + retry_delay (s.failure_count + 1));
}

-- The same state again.
abbrev pub renewed : Option (List ℕ) → Bool → ℕ → AccountHealth → AccountHealth
renewed reason is_failure now s =
    let counted : AccountHealth = if is_failure then record_backoff now s else s in
    record counted {
      reason = elim reason [ none ↦ counted.reason | some r ↦ some r ];
      last_updated = now;
    }

abbrev pub settle : AccountHealthState → Bool → ℕ → AccountHealth → AccountHealth
settle new_state is_failure now s =
    if is_healthy new_state
    then record s { failure_count = 0; next_retry_available_at = none }
    else if is_failure
    then record_backoff now s
    else if is_isolated new_state
    then record s { next_retry_available_at = none }
    else s

abbrev pub entered : AccountHealthState → Option (List ℕ) → Bool → ℕ → AccountHealth → AccountHealth
entered new_state reason is_failure now s =
    settle new_state is_failure now
      (record s { state = new_state; reason = reason; last_updated = now })

unfoldable pub apply_transition : AccountHealthState → Option (List ℕ) → Bool → ℕ → Op (Unit {0})
unfolding validated_reason validated_timestamp state_eq valid_transition
apply_transition new_state reason is_failure now = do
  validated_reason reason
  validated_timestamp now
  s ← fields
  throw_if (not (state_eq s.state new_state) && not (valid_transition s.state new_state))
      (invalid_transition s.state new_state)
  modify (λ t.
      if state_eq t.state new_state
      then renewed reason is_failure now t
      else entered new_state reason is_failure now t)

unfoldable pub record_failure : AccountHealthState → Option (List ℕ) → ℕ → Op (Unit {0})
unfolding apply_transition
record_failure new_state reason now =
    if is_healthy new_state || is_isolated new_state
    then throw (not_a_failure new_state)
    else apply_transition new_state reason true now

unfoldable pub quarantine : Option (List ℕ) → ℕ → Op (Unit {0})
unfolding apply_transition
quarantine reason now = apply_transition quarantined reason false now

unfoldable pub disable : Option (List ℕ) → ℕ → Op (Unit {0})
unfolding apply_transition
disable reason now = apply_transition disabled reason false now

unfoldable pub recover : Option (List ℕ) → ℕ → Op (Unit {0})
unfolding apply_transition
recover reason now = apply_transition healthy reason false now

unfoldable pub is_retry_eligible : AccountHealth → ℕ → Bool
is_retry_eligible s now =
    if is_healthy s.state
    then true
    else if is_isolated s.state
    then false
    else elim s.next_retry_available_at [ none ↦ true | some at ↦ leb at now ]

-- The invariants that the constructor asks of a snapshot.
unfoldable pub violates_invariants : AccountHealth → Bool
violates_invariants s =
    (is_healthy s.state
      && (ltb 0 s.failure_count || elim s.next_retry_available_at [ none ↦ false | some _ ↦ true ]))
    || (is_isolated s.state && elim s.next_retry_available_at [ none ↦ false | some _ ↦ true ])

abbrev pub defaults : InitialSnapshot → ℕ → AccountHealth
defaults i now = record {
  state = get_or i.state healthy;
  reason = i.reason;
  last_updated = get_or i.last_updated now;
  failure_count = get_or i.failure_count 0;
  next_retry_available_at = i.next_retry_available_at;
}

unfoldable pub create : InitialSnapshot → ℕ → Outcome HealthError AccountHealth (Unit {0})
unfolding validated_reason validated_timestamp violates_invariants
create i now = constructor_checks (defaults i now)
  where
    constructor_checks : Op (Unit {0})
    constructor_checks = do
      s ← fields
      throw_if (ltb max_safe_integer s.failure_count) unsafe_failure_count
      validated_timestamp (get_or s.next_retry_available_at 0)
      throw_if (violates_invariants s) snapshot_violates_invariants
      validated_reason s.reason
      validated_timestamp s.last_updated

unfoldable pub get_snapshot : AccountHealth → InitialSnapshot
get_snapshot s = record {
  state = some s.state;
  reason = s.reason;
  last_updated = some s.last_updated;
  failure_count = some s.failure_count;
  next_retry_available_at = s.next_retry_available_at;
}

-- ===== src/RuntimeGuard.antt =====
-- src/mcp/runtime-guard.ts: the process-wide valve before every MCP tool call, and its metrics.
--
-- `ratePerSecond` and `burst` are given in tenths, and tokens are counted in ten-thousandths, so that
-- a whole number of them is refilled in a millisecond; the code has fractions. A finite time is a whole
-- number of milliseconds, which is an argument, and an error has its code.
mod Tests
pub mod Rate
pub mod Metrics
use mathlib.Core.Option.{get_or}
use Prim.Native.String.{String}
use browser_profile_studio.Prelude.{
  ltb, if◌then◌else◌, string_eq, nat_eq, pair_eq, option_beq, Text, text_eq, ℕ, ◌+◌, ◌-◌, ◌*◌, min,
  max, Bool, ◌&&◌, Option, none, some, [],
}
use browser_profile_studio.Prelude.Map.{Map, get, set}
use browser_profile_studio.Prelude.Method.{returns, throws, Method, ◌>>=◌, ◌>>◌, modify, throw_if}

pub record CallContext : Type 0 where
  pub write : Bool
  pub control_state : Option String
  pub session_state : Option String

pub data GuardError : Type 0 where
  session_paused_challenge user_control_hard_stop rate_limited : GuardError

pub record Metric : Type 0 where
  pub calls : ℕ
  pub successes : ℕ
  pub failures : ℕ
  pub total_duration_ms : ℕ
  pub max_duration_ms : ℕ

pub record Guard : Type 0 where
  pub rate : ℕ
  pub capacity : ℕ
  pub tokens : ℕ
  pub last_refill : ℕ
  pub metrics : Map Text Metric

-- `none` is an absent value, or one that is not finite.
unfoldable pub bounded_number : Option ℕ → ℕ → ℕ → ℕ → ℕ
bounded_number none minimum maximum fallback = fallback
bounded_number (some value) minimum maximum fallback = max minimum (min maximum value)

-- One token, in the unit of `tokens`.
abbrev pub token : ℕ
token = 10_000

abbrev pub guard_of : ℕ → ℕ → ℕ → Guard
guard_of rate capacity now = record {
  rate = rate;
  capacity = capacity;
  tokens = capacity;
  last_refill = now;
  metrics = [];
}

-- From 0.1 to 1000 calls a second, 20 by default, and from 1 to 10000 at once, 40 by default.
unfoldable pub create : Option ℕ → Option ℕ → ℕ → Guard
create rate_per_second burst now =
    guard_of (bounded_number rate_per_second 1 10_000 200)
      (1_000 * bounded_number burst 10 100_000 400) now

abbrev pub is_paused : CallContext → Bool
is_paused context = context.write && option_beq context.session_state (some "PAUSED_CHALLENGE")

abbrev pub is_user_controlled : CallContext → Bool
is_user_controlled context =
    context.write && option_beq context.control_state (some "USER_CONTROLLED")

unfoldable pub refill : ℕ → Guard → Guard
refill now g = record g {
  tokens = min g.capacity (g.tokens + (now - g.last_refill) * g.rate);
  last_refill = now;
}

unfoldable pub take_token : Method GuardError Guard (Unit {0})
take_token g =
    if ltb g.tokens token
    then throws rate_limited g
    else returns tt (record g { tokens = g.tokens - token })

unfoldable pub before_call : ℕ → CallContext → Method GuardError Guard (Unit {0})
before_call now context = do
  throw_if (is_paused context) session_paused_challenge
  throw_if (is_user_controlled context) user_control_hard_stop
  modify (refill now)
  take_token

abbrev pub no_calls : Metric
no_calls = record {
  calls = 0;
  successes = 0;
  failures = 0;
  total_duration_ms = 0;
  max_duration_ms = 0;
}

abbrev pub max_duration : ℕ
max_duration = 86_400_000

unfoldable pub counted : Bool → ℕ → Metric → Metric
counted success duration_ms m =
    let bounded = min max_duration duration_ms in
    record {
      calls = m.calls + 1;
      successes = if success then m.successes + 1 else m.successes;
      failures = if success then m.failures else m.failures + 1;
      total_duration_ms = m.total_duration_ms + bounded;
      max_duration_ms = max m.max_duration_ms bounded;
    }

-- `record`. A negative duration counts as 0.
unfoldable pub record_call : Text → Bool → ℕ → Guard → Guard
record_call tool_name success duration_ms g = record g {
  metrics =
      set tool_name (counted success duration_ms (get_or (get tool_name g.metrics) no_calls))
        g.metrics;
}

abbrev pub snapshot : Guard → Map Text Metric
snapshot g = g.metrics

-- ===== src/RuntimeGuard/Metrics.antt =====
-- src/mcp/runtime-guard.ts: the metrics of the tools.
use mathlib.Core.Option.{get_or}
use native.Mathlib.Nat.{mul-le-mul_left}
use browser_profile_studio.Prelude.{
  Option-cases, string_eq, nat_eq, pair_eq, All, Text, text_eq, ℕ, ◌+◌, ◌*◌, ◌≤◌, min, max, ◌≡◌,
  sym, subst, inl, inr, Bool, List, [], ◌∷◌, arith,
}
use browser_profile_studio.Prelude.Method.{final}
use browser_profile_studio.RuntimeGuard.{
  CallContext, Metric, Guard, refill, take_token, before_call, no_calls, max_duration, counted,
  record_call,
}
use browser_profile_studio.Prelude.Map.{get, All-set, All-get}

-- A call before a tool runs, or the record of one that ran.
pub data Event : Type 0 where
  calls : ℕ → CallContext → Event
  records : Text → Bool → ℕ → Event

unfoldable pub step : Event → Guard → Guard
step (calls now context) g = final (before_call now context g)
step (records tool_name success duration_ms) g = record_call tool_name success duration_ms g

unfoldable pub run : List Event → Guard → Guard
run [] g = g
run (event ∷ events) g = run events (step event g)

-- The figures of a tool fit together.
abbrev pub AddsUp : Metric → Type 0
AddsUp m =
    (m.calls ≡ m.successes + m.failures)
    × (m.max_duration_ms ≤ m.total_duration_ms)
    × (m.max_duration_ms ≤ max_duration)
    × (m.total_duration_ms ≤ m.calls * m.max_duration_ms)

abbrev pub EntryAddsUp : Text × Metric → Type 0
EntryAddsUp (_, m) = AddsUp m

counted-AddsUp :
    (success : Bool) (duration_ms : ℕ) (m : Metric)
    → AddsUp m
    → AddsUp (counted success duration_ms m)
unfolding counted
counted-AddsUp success duration_ms m h =
    let bounded = min max_duration duration_ms in
    let larger : m.max_duration_ms ≤ max m.max_duration_ms bounded = ground arith in
    ground (arith, h, mul-le-mul_left m.calls larger)

record_call-AddsUp :
    (tool_name : Text) (success : Bool) (duration_ms : ℕ) (g : Guard)
    → All EntryAddsUp g.metrics
    → All EntryAddsUp (record_call tool_name success duration_ms g).metrics
unfolding record_call
record_call-AddsUp tool_name success duration_ms g h =
    All-set EntryAddsUp tool_name _ g.metrics (λ j same. counted-AddsUp success duration_ms _ last)
      h
  where
    last : AddsUp (get_or (get tool_name g.metrics) no_calls)
    last = elim (Option-cases (get tool_name g.metrics)) [
      | inl missing ↦ rw missing (ground arith)
      | inr (m, found) ↦ rw found (All-get EntryAddsUp tool_name m g.metrics found h).2
    ]

before_call-metrics :
    (now : ℕ) (context : CallContext) (g : Guard)
    → (final (before_call now context g)).metrics ≡ g.metrics
unfolding before_call refill take_token
before_call-metrics now context g = ground arith

-- Whatever calls are let through or refused and whatever is recorded, for every tool the calls are the
-- successes and the failures, no recorded duration is over a day, and the longest duration is not more
-- than all together, nor these more than so many calls of the longest.
pub run-AddsUp :
    (events : List Event) (g : Guard)
    → All EntryAddsUp g.metrics
    → All EntryAddsUp (run events g).metrics
unfolding run step
run-AddsUp [] g h = h
run-AddsUp (calls now context ∷ events) g h =
    run-AddsUp events (final (before_call now context g))
      (subst (λ m. All EntryAddsUp m) (sym (before_call-metrics now context g)) h)
run-AddsUp (records tool_name success duration_ms ∷ events) g h =
    run-AddsUp events (record_call tool_name success duration_ms g)
      (record_call-AddsUp tool_name success duration_ms g h)

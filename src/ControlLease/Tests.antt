-- ===== src/ControlLease/Tests.antt =====
-- Runs and instances of the theorems about the control lease.
use browser_profile_studio.Prelude.{
  string_eq, nat_eq, bool_eq, pair_eq, Text, text_eq, ◌+◌, ◌*◌, ◌≡◌, refl, ◌↔◌, true, none, some,
  [], ◌∷◌, arith,
}
use browser_profile_studio.ControlLease.State.{
  Actor, nobody, inactive, no_handoff, pending, human_handoff_expired, LeaseRecord, Manager, Host,
  validate_duration, validate_reason, normalize_actor, matches_token_shape,
}
use browser_profile_studio.ControlLease.Lease.{
  agent_may_write, read_now, issue_token, expire_due, expire_if_due, matches_token, assert_token,
}
use browser_profile_studio.ControlLease.Calls.{
  TokenArgument, request, positional, normalize_token_request, blank, constructor_checks, create,
  open_handoff, request_handoff, claim, assert_user_request, take_control, takeover, give_back,
  release,
}
use browser_profile_studio.ControlLease.Guards.{return_to_agent, resume, assert_can_act}
use browser_profile_studio.ControlLease.Run.{calls_takeover, calls_release, calls_resume, step, run}
use browser_profile_studio.ControlLease.Coherence.{IsCoherent}
use browser_profile_studio.ControlLease.Invariant.{run-create-IsCoherent}
use browser_profile_studio.ControlLease.Authority.{
  ConfirmedThenResumed, agent_regains_only_confirmed,
}
use browser_profile_studio.ControlLease.Expiry.{RefusedExpired, late_lease-refused}
use browser_profile_studio.ControlLease.Grants.{
  Returned, GrantsWell, request_handoff-GrantsWell, assert_agent_control_iff,
}
use browser_profile_studio.ControlLease.Handoff.{cycle, cycle_completes}

abbrev granted : Text
granted = 97 ∷ 98 ∷ 99 ∷ []

-- A clock that ticks once a second.
abbrev seconds : Host
seconds = record {
  clock = λ n. some (n * 1_000);
  random_token = λ n bytes. some granted;
  sha256 = λ text. text;
}

-- A clock that jumps past every lease.
abbrev leaps : Host
leaps = record seconds { clock = λ n. some (n * 400_000) }

abbrev fresh : Manager
fresh = blank 300_000 3_600_000 32

abbrev lent : LeaseRecord
lent = record {
  generation = 1;
  digest = granted;
  issued_at = 0;
  expires_at = 300_000;
  activated_at = none;
}

abbrev waiting : Manager
waiting = record fresh {
  control_state = inactive;
  owner = nobody;
  handoff_state = pending;
  current_lease = some lent;
  next_generation = 1;
  last_expires_at = some 300_000;
  reads = 1;
}

abbrev with_token : TokenArgument
with_token = positional granted (some true)

whole_cycle : (run seconds (cycle granted) fresh).handoff_state ≡ no_handoff
unfolding run step request_handoff normalize_actor validate_reason open_handoff validate_duration
    read_now issue_token expire_if_due expire_due takeover normalize_token_request
    assert_user_request take_control claim assert_token matches_token matches_token_shape release
    give_back resume return_to_agent
whole_cycle = refl

run-create-IsCoherent_example :
    IsCoherent (run seconds (cycle granted) (record fresh { reads = 1 }))
unfolding create constructor_checks validate_duration read_now
run-create-IsCoherent_example =
    run-create-IsCoherent seconds 300_000 3_600_000 32 (record fresh { reads = 1 }) (cycle granted)
      refl

agent_regains_only_confirmed_example :
    ConfirmedThenResumed
      (calls_takeover with_token ∷ calls_release with_token ∷ calls_resume none ∷ [])
unfolding run step normalize_actor read_now expire_if_due expire_due takeover
    normalize_token_request assert_user_request take_control claim assert_token matches_token
    matches_token_shape release give_back resume return_to_agent
agent_regains_only_confirmed_example =
    agent_regains_only_confirmed seconds
      (calls_takeover with_token ∷ calls_release with_token ∷ calls_resume none ∷ []) waiting refl
      refl

-- The user names itself.
abbrev by_user : TokenArgument
by_user = request (record { actor = some "user"; lease_token = granted; user_confirmed = true })

late_lease-refused_example : RefusedExpired human_handoff_expired (takeover leaps by_user waiting)
unfolding normalize_token_request
late_lease-refused_example =
    (late_lease-refused leaps (λ n. (n * 400_000, (n + 1) * 400_000, refl, refl, omega arith))
      by_user granted none (some "agent") waiting lent 400_000 (refl, refl) refl refl refl refl
      (omega arith)).0

cycle_completes_example : agent_may_write (run seconds (cycle granted) fresh) ≡ true
unfolding matches_token_shape
cycle_completes_example =
    (cycle_completes seconds granted refl fresh (refl, refl, refl) refl (omega arith) (omega arith)
      (omega arith) refl
      (0, 1_000, 2_000, 3_000, 4_000, refl, refl, refl, refl, refl, omega arith, omega arith)).1

assert_agent_control_iff_example :
    Returned (assert_can_act seconds Actor.agent none fresh) ↔ (agent_may_write fresh ≡ true)
assert_agent_control_iff_example = assert_agent_control_iff seconds fresh (refl, refl, refl)

request_handoff-GrantsWell_example :
    GrantsWell 3_600_000 (request_handoff seconds none none (some 60_000) fresh)
request_handoff-GrantsWell_example =
    request_handoff-GrantsWell seconds none none (some 60_000) fresh

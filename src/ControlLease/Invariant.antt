-- ===== src/ControlLease/Invariant.antt =====
-- Coherence is kept by every event, and so in every run.
use Prim.Native.String.{String}
use browser_profile_studio.Prelude.{
  nat_eq, string_eq, pair_eq, Text, ℕ, ◌≤◌, ◌<◌, ◌≡◌, subst, Bool, Option, none, some, List, [],
  ◌∷◌, arith,
}
use browser_profile_studio.Prelude.Method.{Outcome, returns, throws, final}
use browser_profile_studio.ControlLease.State.{
  Actor, LeaseError, Manager, Host, validate_duration, validate_reason, normalize_actor,
}
use browser_profile_studio.ControlLease.Lease.{read_now, assert_token}
use browser_profile_studio.ControlLease.Calls.{
  TokenArgument, constructor_checks, create, status, request_handoff, takeover, release,
}
use browser_profile_studio.ControlLease.Guards.{
  require_agent_control, resume, recover_expired, assert_agent_control, require_user_control,
  assert_user_control, assert_can_act, can_user_act, dispose,
}
use browser_profile_studio.ControlLease.Run.{
  Event, calls_status, calls_expire_if_due, calls_dispose, calls_handoff, calls_takeover,
  calls_release, calls_resume, calls_recover_expired, calls_assert_can_act, calls_can_user_act,
  timer_fires, step, run,
}
use browser_profile_studio.ControlLease.Coherence.{
  IsCoherent, expire_lease-IsCoherent, expire_if_due-IsCoherent, assert_user_request-IsCoherent,
  take_control-IsCoherent, open_handoff-IsCoherent, give_back-IsCoherent, recover-IsCoherent,
  return_to_agent-IsCoherent,
}

module _ (h : Host) where
  -- The composed methods: expiry first, then checks of the arguments, then the body.
  status-IsCoherent : (s : Manager) → IsCoherent s → IsCoherent (final (status h s))
  unfolding status
  status-IsCoherent s c = grind (arith, expire_if_due-IsCoherent h s c)

  dispose-IsCoherent : (s : Manager) → IsCoherent (final (dispose h s))
  unfolding dispose read_now
  dispose-IsCoherent s = ground arith

  request_handoff-IsCoherent :
      (a : Option String) (r : Option Text) (ttl : Option ℕ) (s : Manager)
      → IsCoherent s
      → IsCoherent (final (request_handoff h a r ttl s))
  unfolding request_handoff normalize_actor validate_reason
  request_handoff-IsCoherent a r ttl s c =
      grind (arith, expire_if_due-IsCoherent h s c, open_handoff-IsCoherent h)

  takeover-IsCoherent :
      (argument : TokenArgument) (s : Manager)
      → IsCoherent s
      → IsCoherent (final (takeover h argument s))
  unfolding takeover
  takeover-IsCoherent argument s c = grind (
    arith,
    expire_if_due-IsCoherent h s c,
    assert_user_request-IsCoherent h,
    take_control-IsCoherent h,
  )

  release-IsCoherent :
      (argument : TokenArgument) (s : Manager)
      → IsCoherent s
      → IsCoherent (final (release h argument s))
  unfolding release
  release-IsCoherent argument s c = grind (
    arith,
    expire_if_due-IsCoherent h s c,
    assert_user_request-IsCoherent h,
    give_back-IsCoherent h,
  )

  resume-IsCoherent :
      (a : Option String) (s : Manager) → IsCoherent s → IsCoherent (final (resume h a s))
  unfolding resume normalize_actor
  resume-IsCoherent a s c =
      grind (arith, expire_if_due-IsCoherent h s c, return_to_agent-IsCoherent h)

  recover_expired-IsCoherent :
      (a : Option String) (b : Bool) (s : Manager)
      → IsCoherent s
      → IsCoherent (final (recover_expired h a b s))
  unfolding recover_expired
  recover_expired-IsCoherent a b s c = grind (
    arith,
    expire_if_due-IsCoherent h s c,
    assert_user_request-IsCoherent h,
    recover-IsCoherent h,
  )

  assert_agent_control-IsCoherent :
      (s : Manager) → IsCoherent s → IsCoherent (final (assert_agent_control h s))
  unfolding assert_agent_control require_agent_control
  assert_agent_control-IsCoherent s c = grind (arith, expire_if_due-IsCoherent h s c)

  assert_user_control-IsCoherent :
      (token : Text) (s : Manager)
      → IsCoherent s
      → IsCoherent (final (assert_user_control h token s))
  unfolding assert_user_control require_user_control assert_token
  assert_user_control-IsCoherent token s c = grind (arith, expire_if_due-IsCoherent h s c)

  assert_can_act-IsCoherent :
      (a : Actor) (token : Option Text) (s : Manager)
      → IsCoherent s
      → IsCoherent (final (assert_can_act h a token s))
  unfolding assert_can_act
  assert_can_act-IsCoherent Actor.agent token s c = assert_agent_control-IsCoherent s c
  assert_can_act-IsCoherent Actor.user none s c = c
  assert_can_act-IsCoherent Actor.user (some token) s c = assert_user_control-IsCoherent token s c
  assert_can_act-IsCoherent Actor.system token s c = c

  can_user_act-IsCoherent :
      (token : Option Text) (s : Manager)
      → IsCoherent s
      → IsCoherent (final (can_user_act h token s))
  unfolding can_user_act
  can_user_act-IsCoherent none s c = c
  can_user_act-IsCoherent (some token) s c = grind (arith, assert_user_control-IsCoherent token s c)

  -- One event keeps the fields coherent, whether its call returns or throws.
  step-IsCoherent : (e : Event) (s : Manager) → IsCoherent s → IsCoherent (step h e s)
  unfolding step
  step-IsCoherent calls_status s c = status-IsCoherent s c
  step-IsCoherent calls_expire_if_due s c = expire_if_due-IsCoherent h s c
  step-IsCoherent calls_dispose s c = dispose-IsCoherent s
  step-IsCoherent (calls_handoff actor reason ttl) s c =
      request_handoff-IsCoherent actor reason ttl s c
  step-IsCoherent (calls_takeover argument) s c = takeover-IsCoherent argument s c
  step-IsCoherent (calls_release argument) s c = release-IsCoherent argument s c
  step-IsCoherent (calls_resume actor) s c = resume-IsCoherent actor s c
  step-IsCoherent (calls_recover_expired actor confirmed) s c =
      recover_expired-IsCoherent actor confirmed s c
  step-IsCoherent (calls_assert_can_act actor token) s c = assert_can_act-IsCoherent actor token s c
  step-IsCoherent (calls_can_user_act token) s c = can_user_act-IsCoherent token s c
  step-IsCoherent (timer_fires generation) s c = expire_lease-IsCoherent h generation s c

  run-IsCoherent : (es : List Event) (s : Manager) → IsCoherent s → IsCoherent (run h es s)
  unfolding run
  run-IsCoherent [] s c = c
  run-IsCoherent (e ∷ es) s c = run-IsCoherent es (step h e s) (step-IsCoherent e s c)

-- What the constructor makes, if it returns.
abbrev Created : Outcome LeaseError Manager (Unit {0}) → Type 0
Created (throws e s) = Unit
Created (returns _ s) =
    IsCoherent s × (0 < s.ttl_ms) × (s.ttl_ms ≤ s.max_ttl_ms) × (s.max_ttl_ms ≤ 2_147_000_000)

create-Created : (h : Host) (ttl most bytes : ℕ) → Created (create h ttl most bytes)
unfolding create constructor_checks validate_duration read_now
create-Created h ttl most bytes = ground arith

-- In every run of a manager that the constructor made, control state, owner and current lease fit
-- the handoff state: the agent owns control exactly without a handoff, the user exactly in an
-- active one, and a pending or active handoff has the lease of the newest generation.
pub run-create-IsCoherent :
    (h : Host) (ttl most bytes : ℕ) (s : Manager) (es : List Event)
    → create h ttl most bytes ≡ returns tt s
    → IsCoherent (run h es s)
run-create-IsCoherent h ttl most bytes s es e =
    let made : Created (returns tt s) = subst Created e (create-Created h ttl most bytes) in
    run-IsCoherent h es s made.0

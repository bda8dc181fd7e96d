-- ===== src/ControlLease/Transitions.antt =====
-- Which calls leave a manager within a set of handoff states.
use Prim.Native.String.{String}
use browser_profile_studio.Prelude.{
  nat_eq, string_eq, pair_eq, Text, ℕ, ◌≡◌, Bool, true, Option, none, some, arith,
}
use browser_profile_studio.Prelude.Method.{final}
use browser_profile_studio.ControlLease.State.{
  Actor, HandoffState, pending, active, expired, LeaseRecord, Manager, Host, validate_duration,
  validate_reason, normalize_actor,
}
use browser_profile_studio.ControlLease.Lease.{
  read_now, issue_token, mark_expired, expire_now, expire_lease, expire_due, expire_if_due,
  assert_token,
}
use browser_profile_studio.ControlLease.Calls.{
  TokenArgument, status, open_handoff, request_handoff, claim, assert_user_request, repeat_claim,
  take_control, takeover,
}
use browser_profile_studio.ControlLease.Guards.{
  require_agent_control, assert_agent_control, require_user_control, assert_user_control,
  assert_can_act, can_user_act, dispose,
}

-- A set of handoff states that holds PENDING, ACTIVE and EXPIRED.
module _ (h : Host) (p : HandoffState → Bool) (on_pending : p pending ≡ true)
    (on_active : p active ≡ true) (on_expired : p expired ≡ true) where
  abbrev Stays : Manager → Type 0
  Stays s = p s.handoff_state ≡ true

  pub mark_expired-Stays : (s : Manager) → Stays (final (mark_expired h s))
  unfolding mark_expired read_now
  mark_expired-Stays s = ground arith

  pub expire_now-Stays :
      (l : LeaseRecord) (s : Manager) → Stays s → Stays (final (expire_now h l s))
  unfolding expire_now read_now
  expire_now-Stays l s w = grind (arith, mark_expired-Stays)

  pub expire_lease-Stays : (g : ℕ) (s : Manager) → Stays s → Stays (final (expire_lease h g s))
  unfolding expire_lease
  expire_lease-Stays g s w = grind (arith, expire_now-Stays)

  pub expire_due-Stays :
      (l : LeaseRecord) (s : Manager) → Stays s → Stays (final (expire_due h l s))
  unfolding expire_due read_now
  expire_due-Stays l s w = grind (arith, expire_lease-Stays)

  pub expire_if_due-Stays : (s : Manager) → Stays s → Stays (final (expire_if_due h s))
  unfolding expire_if_due
  expire_if_due-Stays s w = grind (arith, expire_due-Stays)

  pub assert_user_request-Stays :
      (a : Option String) (b : Bool) (s : Manager)
      → Stays s
      → Stays (final (assert_user_request h a b s))
  unfolding assert_user_request normalize_actor
  assert_user_request-Stays none b s c = ground arith
  assert_user_request-Stays (some a) b s c = ground arith

  pub take_control-Stays :
      (token : Text) (s : Manager) → Stays s → Stays (final (take_control h token s))
  unfolding take_control repeat_claim claim assert_token read_now
  take_control-Stays token s c = ground arith

  pub open_handoff-Stays :
      (ttl : Option ℕ) (s : Manager) → Stays s → Stays (final (open_handoff h ttl s))
  unfolding open_handoff validate_duration read_now issue_token
  open_handoff-Stays ttl s c = ground arith

  pub status-Stays : (s : Manager) → Stays s → Stays (final (status h s))
  unfolding status
  status-Stays s c = grind (arith, expire_if_due-Stays s c)

  pub dispose-Stays : (s : Manager) → Stays (final (dispose h s))
  unfolding dispose read_now
  dispose-Stays s = ground arith

  pub request_handoff-Stays :
      (a : Option String) (r : Option Text) (ttl : Option ℕ) (s : Manager)
      → Stays s
      → Stays (final (request_handoff h a r ttl s))
  unfolding request_handoff normalize_actor validate_reason
  request_handoff-Stays a r ttl s c = grind (arith, expire_if_due-Stays s c, open_handoff-Stays)

  pub takeover-Stays :
      (argument : TokenArgument) (s : Manager) → Stays s → Stays (final (takeover h argument s))
  unfolding takeover
  takeover-Stays argument s c =
      grind (arith, expire_if_due-Stays s c, assert_user_request-Stays, take_control-Stays)

  pub assert_can_act-Stays :
      (a : Actor) (token : Option Text) (s : Manager)
      → Stays s
      → Stays (final (assert_can_act h a token s))
  unfolding assert_can_act assert_agent_control require_agent_control assert_user_control
      require_user_control assert_token
  assert_can_act-Stays Actor.agent token s c = grind (arith, expire_if_due-Stays s c)
  assert_can_act-Stays Actor.user none s c = c
  assert_can_act-Stays Actor.user (some token) s c = grind (arith, expire_if_due-Stays s c)
  assert_can_act-Stays Actor.system token s c = c

  pub can_user_act-Stays :
      (token : Option Text) (s : Manager) → Stays s → Stays (final (can_user_act h token s))
  unfolding can_user_act assert_user_control require_user_control assert_token
  can_user_act-Stays none s c = c
  can_user_act-Stays (some token) s c = grind (arith, expire_if_due-Stays s c)

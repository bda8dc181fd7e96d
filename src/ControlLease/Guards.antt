-- ===== src/ControlLease/Guards.antt =====
-- Resuming, recovering, disposing, and the guards that callers ask before a write.
use Prim.Native.String.{String}
use browser_profile_studio.Prelude.{
  if◌then◌else◌, nat_eq, string_eq, pair_eq, Text, ℕ, Bool, true, false, not, ◌&&◌, ◌||◌, Option,
  none, some,
}
use browser_profile_studio.Prelude.Method.{
  returns, throws, ◌>>=◌, ◌>>◌, return, throw, fields, modify, throw_if,
}
use browser_profile_studio.ControlLease.State.{
  Actor, Owner, nobody, agent_controlled, inactive, no_handoff, released, expired, Manager, Host,
  Status, is_agent_controlled, is_user_controlled, is_none, is_pending, is_active, is_released,
  is_expired, is_agent, invalid_arg, bad_state, expired_error, takeover_error, Call,
  normalize_actor,
}
use browser_profile_studio.ControlLease.Lease.{
  clear_expiry_timer, clear_digest, status_unsafe, read_now, expire_if_due, assert_token,
}
use browser_profile_studio.ControlLease.Calls.{status, assert_user_request, stamp_release}

abbrev pub enter_agent_controlled : Manager → Manager
enter_agent_controlled s = record s {
  control_state = agent_controlled;
  owner = Owner.agent;
  handoff_state = no_handoff;
  released_at = none;
  expired_at = none;
}

unfoldable pub return_to_agent : Call Status
return_to_agent = do
  s ← fields
  throw_if (is_active s.handoff_state || is_user_controlled s.control_state) takeover_error
  throw_if (is_expired s.handoff_state) expired_error
  throw_if (is_pending s.handoff_state) bad_state
  throw_if (is_none s.handoff_state && not (is_agent_controlled s.control_state)) bad_state
  throw_if (not (is_none s.handoff_state || is_released s.handoff_state)) bad_state
  modify (λ t. if is_released t.handoff_state then enter_agent_controlled t else t)
  t ← fields
  return (status_unsafe t)

-- What `recoverExpired` sets before it reads the clock for `releasedAt`.
abbrev pub enter_recovered : Manager → Manager
enter_recovered s = record s {
  control_state = inactive;
  owner = nobody;
  handoff_state = released;
  current_lease = none;
}

-- What `dispose` sets before it reads the clock for `expiredAt`.
abbrev pub enter_disposed : Manager → Manager
enter_disposed s = record (clear_digest (clear_expiry_timer s)) {
  current_lease = none;
  control_state = inactive;
  owner = nobody;
  handoff_state = expired;
}

abbrev pub stamp_disposal : ℕ → Manager → Manager
stamp_disposal now s = record s { expired_at = some now }

unfoldable pub require_agent_control : Call (Unit {0})
require_agent_control = do
  s ← fields
  throw_if (is_expired s.handoff_state) expired_error
  throw_if (is_active s.handoff_state || is_user_controlled s.control_state) takeover_error
  throw_if (not (is_none s.handoff_state) || not (is_agent_controlled s.control_state)) bad_state

module _ (h : Host) where
  unfoldable pub resume : Option String → Call Status
  resume actor = do
    expire_if_due h
    who ← normalize_actor actor Actor.agent
    throw_if (not (is_agent who)) bad_state
    return_to_agent

  unfoldable pub recover : Call Status
  recover = do
    s ← fields
    throw_if (not (is_expired s.handoff_state)) bad_state
    modify enter_recovered
    now ← read_now h
    modify (stamp_release h now)
    t ← fields
    return (status_unsafe t)

  unfoldable pub recover_expired : Option String → Bool → Call Status
  recover_expired actor confirmed = do
    expire_if_due h
    assert_user_request h actor confirmed
    recover

  unfoldable pub assert_agent_control : Call (Unit {0})
  assert_agent_control = do expire_if_due h; require_agent_control

  unfoldable pub require_user_control : Text → Call (Unit {0})
  require_user_control token = do
    s ← fields
    throw_if (is_expired s.handoff_state) expired_error
    throw_if (not (is_active s.handoff_state) || not (is_user_controlled s.control_state)) bad_state
    assert_token h token

  unfoldable pub assert_user_control : Text → Call (Unit {0})
  assert_user_control token = do expire_if_due h; require_user_control token

  unfoldable pub assert_can_act : Actor → Option Text → Call (Unit {0})
  assert_can_act Actor.agent token = assert_agent_control
  assert_can_act Actor.user none = throw (invalid_arg "leaseToken")
  assert_can_act Actor.user (some token) = assert_user_control token
  assert_can_act Actor.system token = throw bad_state

  unfoldable pub can_agent_act : Call Bool
  can_agent_act = do s ← status h; return s.agent_write_allowed

  -- Whatever is thrown, the answer is `false`.
  unfoldable pub can_user_act : Option Text → Call Bool
  can_user_act none s = returns false s
  can_user_act (some token) s = elim (assert_user_control token s) [
    | returns _ t ↦ returns true t
    | throws _ t ↦ returns false t
  ]

  unfoldable pub is_hard_stop : Call Bool
  is_hard_stop = do s ← status h; return s.hard_stop

  unfoldable pub dispose : Call (Unit {0})
  dispose = do modify enter_disposed; now ← read_now h; modify (stamp_disposal now)

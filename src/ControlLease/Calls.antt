-- ===== src/ControlLease/Calls.antt =====
-- The public methods of ControlLeaseManager, and the calls that a run of the program makes.
use Prim.Native.String.{String}
use mathlib.Core.Option.{get_or}
use browser_profile_studio.Prelude.{
  ltb, if◌then◌else◌, nat_eq, string_eq, pair_eq, Text, ℕ, suc, ◌+◌, Bool, false, not, ◌||◌, Option,
  none, some, List,
}
use browser_profile_studio.Prelude.Method.{
  Outcome, returns, throws, ◌>>=◌, ◌>>◌, return, throw, fields, modify, throw_if,
}
use browser_profile_studio.ControlLease.State.{
  Actor, Owner, nobody, agent_controlled, user_controlled, inactive, HandoffState, no_handoff,
  pending, active, released, expired, user_active, LeaseError, Manager, Host, Status,
  is_user_controlled, is_pending, is_active, is_released, is_expired, is_agent, is_user, is_defined,
  invalid_arg, bad_state, expired_error, takeover_error, Call, validate_duration, validate_reason,
  normalize_actor,
}
use browser_profile_studio.ControlLease.Lease.{
  clear_expiry_timer, clear_digest, schedule_expiry, status_unsafe, read_now, issue_token,
  expire_if_due, matches_token, assert_token,
}

pub record TokenRequest : Type 0 where
  pub actor : Option String
  pub lease_token : Text
  pub user_confirmed : Bool

-- The two ways to call `takeover` and `release`.
pub data TokenArgument : Type 0 where
  request : TokenRequest → TokenArgument
  positional : Text → Option Bool → TokenArgument

unfoldable pub normalize_token_request : TokenArgument → TokenRequest
normalize_token_request (request r) = r
normalize_token_request (positional token confirmation) = record {
  actor = none;
  lease_token = token;
  user_confirmed = get_or confirmation false;
}

abbrev pub blank : ℕ → ℕ → ℕ → Manager
blank ttl max_ttl bytes = record {
  ttl_ms = ttl;
  max_ttl_ms = max_ttl;
  token_bytes = bytes;
  control_state = agent_controlled;
  handoff_state = no_handoff;
  owner = Owner.agent;
  current_lease = none;
  expiry_timer = none;
  next_generation = 0;
  released_at = none;
  expired_at = none;
  last_issued_at = none;
  last_activated_at = none;
  last_expires_at = none;
  reads = 0;
  draws = 0;
}

unfoldable pub constructor_checks : Host → Call (Unit {0})
unfolding validate_duration read_now
constructor_checks h = do
  s ← fields
  validate_duration s.max_ttl_ms "maxTtlMs"
  validate_duration s.ttl_ms "ttlMs"
  throw_if (ltb s.max_ttl_ms s.ttl_ms) (invalid_arg "ttlMs")
  throw_if (ltb s.token_bytes 16 || ltb 128 s.token_bytes) (invalid_arg "tokenBytes")
  read_now h
  return tt

-- The constructor, after its arguments are resolved to their defaults.
unfoldable pub create : Host → ℕ → ℕ → ℕ → Outcome LeaseError Manager (Unit {0})
unfolding constructor_checks
create h ttl max_ttl bytes = constructor_checks h (blank ttl max_ttl bytes)

module _ (h : Host) where
  unfoldable pub status : Call Status
  status = do expire_if_due h; s ← fields; return (status_unsafe s)

  -- What `requestHandoff` sets once its checks have passed.
  abbrev pub enter_pending : ℕ → ℕ → List ℕ → Manager → Manager
  enter_pending issued ttl digest s = schedule_expiry (suc s.next_generation) ttl (record s {
    next_generation = suc s.next_generation;
    current_lease = some (record {
      generation = suc s.next_generation;
      digest = digest;
      issued_at = issued;
      expires_at = issued + ttl;
      activated_at = none;
    });
    last_issued_at = some issued;
    last_activated_at = none;
    last_expires_at = some (issued + ttl);
    control_state = inactive;
    owner = nobody;
    handoff_state = pending;
    released_at = none;
    expired_at = none;
  })

  unfoldable pub open_handoff : Option ℕ → Call (Status × Text)
  open_handoff ttl = do
    s ← fields
    throw_if (is_active s.handoff_state || is_user_controlled s.control_state) takeover_error
    throw_if (is_pending s.handoff_state) bad_state
    throw_if (is_released s.handoff_state) bad_state
    ttl_ms ← validate_duration (get_or ttl s.ttl_ms) "ttlMs"
    throw_if (ltb s.max_ttl_ms ttl_ms) (invalid_arg "ttlMs")
    issued ← read_now h
    token ← issue_token h
    modify (enter_pending issued ttl_ms token.1)
    t ← fields
    return (status_unsafe t, token.0)

  unfoldable pub request_handoff : Option String → Option Text → Option ℕ → Call (Status × Text)
  request_handoff actor reason ttl = do
    expire_if_due h
    who ← normalize_actor actor Actor.agent
    throw_if (not (is_agent who)) bad_state
    validate_reason reason
    open_handoff ttl

  abbrev pub enter_active : ℕ → Manager → Manager
  enter_active now s = record s {
    current_lease = elim s.current_lease [
      | none ↦ none
      | some lease ↦ some (record lease { activated_at = some now })
    ];
    last_activated_at = some now;
    control_state = user_controlled;
    owner = Owner.user;
    handoff_state = active;
  }

  -- The rest of `takeover` in state PENDING.
  unfoldable pub claim : Text → Call Status
  claim token = do
    assert_token h token
    now ← read_now h
    s ← fields
    throw_if (not (is_defined s.current_lease)) bad_state
    modify (enter_active now)
    t ← fields
    return (status_unsafe t)

  -- The user's request is confirmed and made by the user.
  unfoldable pub assert_user_request : Option String → Bool → Call (Unit {0})
  assert_user_request actor confirmed = do
    who ← normalize_actor actor Actor.user
    throw_if (not confirmed) (invalid_arg "userConfirmed")
    throw_if (not (is_user who)) bad_state

  -- An active user may repeat the call; another token does not dislodge that user.
  unfoldable pub repeat_claim : Text → Call Status
  repeat_claim token s =
      if matches_token h token s then returns (status_unsafe s) s else throws takeover_error s

  unfoldable pub take_control_in : HandoffState → Text → Call Status
  take_control_in expired token = throw expired_error
  take_control_in no_handoff token = throw bad_state
  take_control_in released token = throw bad_state
  take_control_in active token = repeat_claim token
  take_control_in pending token = claim token
  take_control_in user_active token = claim token

  unfoldable pub take_control : Text → Call Status
  unfolding take_control_in
  take_control token s = take_control_in s.handoff_state token s

  unfoldable pub takeover : TokenArgument → Call Status
  takeover argument = do
    let r = normalize_token_request argument
    expire_if_due h
    assert_user_request r.actor r.user_confirmed
    take_control r.lease_token

  -- What `release` sets before it reads the clock for `releasedAt`.
  abbrev pub enter_released : Manager → Manager
  enter_released s = record (clear_digest (clear_expiry_timer s)) {
    current_lease = none;
    control_state = inactive;
    owner = nobody;
    handoff_state = released;
  }

  abbrev pub stamp_release : ℕ → Manager → Manager
  stamp_release now s = record s { released_at = some now; expired_at = none }

  unfoldable pub give_back : Text → Call Status
  give_back token = do
    s ← fields
    throw_if (is_expired s.handoff_state) expired_error
    throw_if (not (is_active s.handoff_state)) bad_state
    assert_token h token
    modify enter_released
    now ← read_now h
    modify (stamp_release now)
    t ← fields
    return (status_unsafe t)

  unfoldable pub release : TokenArgument → Call Status
  release argument = do
    let r = normalize_token_request argument
    expire_if_due h
    assert_user_request r.actor r.user_confirmed
    give_back r.lease_token

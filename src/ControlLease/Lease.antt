-- ===== src/ControlLease/Lease.antt =====
-- The private methods of ControlLeaseManager: clock, tokens, timers, expiry and status.
use browser_profile_studio.Prelude.{
  ltb, if◌then◌else◌, ◌==◌, nat_eq, string_eq, pair_eq, list_beq, length, Text, ℕ, ◌+◌, ◌-◌, Bool,
  true, false, not, ◌&&◌, ◌||◌, Option, none, some, List, map,
}
use browser_profile_studio.Prelude.Method.{returns, throws, ◌>>=◌, ◌>>◌, return, modify, throw_if}
use browser_profile_studio.ControlLease.State.{
  nobody, inactive, HandoffState, expired, LeaseRecord, Timer, Manager, Host, Status,
  is_agent_controlled, is_user_controlled, is_none, is_pending, is_active, is_expired, agent_owns,
  user_owns, is_defined, invalid_arg, Call, matches_token_shape,
}

abbrev pub clear_expiry_timer : Manager → Manager
clear_expiry_timer s = record s { expiry_timer = none }

-- `digest.fill(0)`
abbrev pub zero_digest : LeaseRecord → LeaseRecord
zero_digest lease = record lease { digest = map (λ _. 0) lease.digest }

abbrev pub clear_digest : Manager → Manager
clear_digest s = record s {
  current_lease = elim s.current_lease [ none ↦ none | some l ↦ some (zero_digest l) ];
}

abbrev pub arm : Timer → Manager → Manager
arm timer s = record s { expiry_timer = some timer }

abbrev pub schedule_expiry : ℕ → ℕ → Manager → Manager
schedule_expiry generation ttl s =
    arm (record { generation = generation; delay = ttl }) (clear_expiry_timer s)

abbrev pub agent_may_write : Manager → Bool
agent_may_write s =
    is_agent_controlled s.control_state && is_none s.handoff_state && agent_owns s.owner

abbrev pub is_leased : HandoffState → Bool
is_leased state = is_pending state || is_active state

-- The timestamps of the current lease, or after an expiry those of the last one.
abbrev pub lease_time :
    Option LeaseRecord → HandoffState → (LeaseRecord → Option ℕ) → Option ℕ → Option ℕ
lease_time (some lease) state current last = current lease
lease_time none state current last = if is_expired state then last else none

unfoldable pub status_unsafe : Manager → Status
status_unsafe s = record {
  control_state = s.control_state;
  owner = s.owner;
  handoff_state = s.handoff_state;
  hard_stop = not (agent_may_write s);
  agent_write_allowed = agent_may_write s;
  user_control_active =
      is_user_controlled s.control_state && is_active s.handoff_state && user_owns s.owner;
  lease_active = is_defined s.current_lease && is_leased s.handoff_state;
  issued_at = lease_time s.current_lease s.handoff_state (λ l. some l.issued_at) s.last_issued_at;
  activated_at =
      lease_time s.current_lease s.handoff_state (λ l. l.activated_at) s.last_activated_at;
  expires_at =
      lease_time s.current_lease s.handoff_state (λ l. some l.expires_at) s.last_expires_at;
  released_at = s.released_at;
  expired_at = s.expired_at;
}

-- What `expireLease` sets before it reads the clock for `expiredAt`.
abbrev pub enter_expired : Manager → Manager
enter_expired s = record (clear_digest (clear_expiry_timer s)) {
  control_state = inactive;
  owner = nobody;
  handoff_state = expired;
}

abbrev pub rearm : LeaseRecord → ℕ → Manager → Manager
rearm lease now = arm (record { generation = lease.generation; delay = lease.expires_at - now })

abbrev pub stamp_expiry : ℕ → Manager → Manager
stamp_expiry now s = record s { expired_at = some now; released_at = none }

module _ (h : Host) where
  unfoldable pub read_now : Call ℕ
  read_now s =
      let s' : Manager = record s { reads = s.reads + 1 } in
      elim (h.clock s.reads) [ none ↦ throws (invalid_arg "clock") s' | some now ↦ returns now s' ]

  -- The token and its digest.
  unfoldable pub issue_token : Call (Text × List ℕ)
  issue_token s =
      let s' : Manager = record s { draws = s.draws + 1 } in
      elim (h.random_token s.draws s.token_bytes) [
        | none ↦ throws (invalid_arg "randomToken") s'
        | some value ↦
            if matches_token_shape value
            then returns (value, h.sha256 value) s'
            else throws (invalid_arg "randomToken") s'
      ]

  unfoldable pub mark_expired : Call (Unit {0})
  mark_expired = do modify enter_expired; now ← read_now; modify (stamp_expiry now)

  unfoldable pub expire_now : LeaseRecord → Call (Unit {0})
  expire_now lease = do
    now ← read_now
    elim (ltb now lease.expires_at) [ true ↦ modify (rearm lease now) | false ↦ mark_expired ]

  -- Timers can fire early: then the timer is armed again.
  unfoldable pub expire_lease : ℕ → Call (Unit {0})
  expire_lease generation s = elim s.current_lease [
    | none ↦ returns tt s
    | some lease ↦
        if not (lease.generation == generation) || is_expired s.handoff_state
        then returns tt s
        else expire_now lease s
  ]

  unfoldable pub expire_due : LeaseRecord → Call Bool
  expire_due lease = do
    now ← read_now
    elim (ltb now lease.expires_at) [
      | true ↦ return false
      | false ↦ expire_lease lease.generation >> return true
    ]

  unfoldable pub expire_if_due : Call Bool
  expire_if_due s = elim s.current_lease [
    | none ↦ returns false s
    | some lease ↦ if is_leased s.handoff_state then expire_due lease s else returns false s
  ]

  unfoldable pub matches_token : Text → Manager → Bool
  matches_token token s = elim s.current_lease [
    | none ↦ false
    | some lease ↦ ltb 0 (length token) && list_beq (h.sha256 token) lease.digest
  ]

  unfoldable pub assert_token : Text → Call (Unit {0})
  assert_token token s =
      throw_if (not (matches_token_shape token && matches_token token s)) (invalid_arg "leaseToken")
        s

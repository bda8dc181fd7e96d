-- ===== src/ControlLease/Expiry.antt =====
-- A lease that has run out is worth nothing, and the whole cycle of a handoff.
use Prim.Native.String.{String}
use browser_profile_studio.Prelude.{
  string_eq, nat_eq, bool_eq, pair_eq, Text, text_eq, ℕ, ◌+◌, ◌≤◌, ◌≡◌, refl, sym, subst, true,
  Option, none, some, arith,
}
use browser_profile_studio.Prelude.Method.{Outcome, returns, throws, final}
use browser_profile_studio.ControlLease.State.{
  Actor, nobody, inactive, expired, ErrorCode, human_handoff_expired, LeaseError, LeaseRecord,
  Manager, Host, normalize_actor,
}
use browser_profile_studio.ControlLease.Lease.{
  is_leased, read_now, mark_expired, expire_now, expire_lease, expire_due, expire_if_due,
}
use browser_profile_studio.ControlLease.Calls.{
  TokenArgument, normalize_token_request, assert_user_request, take_control, takeover, give_back,
  release,
}
use browser_profile_studio.ControlLease.Guards.{
  return_to_agent, require_agent_control, resume, assert_agent_control, require_user_control,
  assert_user_control, assert_can_act,
}

-- The clock always answers, and never goes back from one reading to the next.
abbrev pub IsSteady : Host → Type 0
IsSteady h =
    (n : ℕ) → (t : ℕ) × (u : ℕ) × (h.clock n ≡ some t) × (h.clock (n + 1) ≡ some u) × (t ≤ u)

-- The actor that a caller names, if any, is that one.
abbrev pub Names : String → Option String → Type 0
Names actor none = Unit
Names actor (some value) = value ≡ actor

-- The user's side of a request is in order.
abbrev pub IsUserRequest : TokenArgument → Type 0
IsUserRequest argument =
    Names "user" (normalize_token_request argument).actor
    × ((normalize_token_request argument).user_confirmed ≡ true)

normalize_user :
    (actor : Option String) (s : Manager)
    → Names "user" actor
    → normalize_actor actor Actor.user s ≡ returns Actor.user s
unfolding normalize_actor
normalize_user none s h = refl
normalize_user (some value) s h =
    subst (λ v. normalize_actor (some v) Actor.user s ≡ returns Actor.user s) (sym h) refl

normalize_agent :
    (actor : Option String) (s : Manager)
    → Names "agent" actor
    → normalize_actor actor Actor.agent s ≡ returns Actor.agent s
unfolding normalize_actor
normalize_agent none s h = refl
normalize_agent (some value) s h =
    subst (λ v. normalize_actor (some v) Actor.agent s ≡ returns Actor.agent s) (sym h) refl

-- The call throws that error, and leaves the handoff expired.
abbrev pub RefusedExpired : {A : Type 0} → ErrorCode → Outcome LeaseError Manager A → Type 0
RefusedExpired c (returns a t) = ⊥
RefusedExpired c (throws e t) = (e.code ≡ c) × (t.handoff_state ≡ expired) × (t.owner ≡ nobody)

abbrev ExpiresNow : {A : Type 0} → Outcome LeaseError Manager A → Type 0
ExpiresNow (returns b t) =
    (t.handoff_state ≡ expired) × (t.owner ≡ nobody) × (t.control_state ≡ inactive)
ExpiresNow (throws e t) = ⊥

module _ (h : Host) (steady : IsSteady h) where
  mark_expired-ExpiresNow : (s : Manager) → ExpiresNow (mark_expired h s)
  unfolding mark_expired read_now
  mark_expired-ExpiresNow s = ground (arith, steady s.reads)

  expire_if_due-ExpiresNow :
      (s : Manager) (l : LeaseRecord) (now : ℕ)
      → s.current_lease ≡ some l
      → is_leased s.handoff_state ≡ true
      → h.clock s.reads ≡ some now
      → l.expires_at ≤ now
      → ExpiresNow (expire_if_due h s)
  unfolding expire_if_due expire_due expire_lease expire_now read_now
  expire_if_due-ExpiresNow s l now e d r due =
      ground (arith, steady s.reads, mark_expired-ExpiresNow (record s { reads = s.reads + 1 + 1 }))

  takeover-late :
      (argument : TokenArgument) (s : Manager) (l : LeaseRecord) (now : ℕ)
      → IsUserRequest argument
      → s.current_lease ≡ some l
      → is_leased s.handoff_state ≡ true
      → h.clock s.reads ≡ some now
      → l.expires_at ≤ now
      → RefusedExpired human_handoff_expired (takeover h argument s)
  unfolding takeover assert_user_request take_control
  takeover-late argument s l now u e d r due = ground (
    arith,
    expire_if_due-ExpiresNow s l now e d r due,
    normalize_user (normalize_token_request argument).actor (final (expire_if_due h s)) u.0,
  )

  release-late :
      (argument : TokenArgument) (s : Manager) (l : LeaseRecord) (now : ℕ)
      → IsUserRequest argument
      → s.current_lease ≡ some l
      → is_leased s.handoff_state ≡ true
      → h.clock s.reads ≡ some now
      → l.expires_at ≤ now
      → RefusedExpired human_handoff_expired (release h argument s)
  unfolding release assert_user_request give_back
  release-late argument s l now u e d r due = ground (
    arith,
    expire_if_due-ExpiresNow s l now e d r due,
    normalize_user (normalize_token_request argument).actor (final (expire_if_due h s)) u.0,
  )

  assert_can_act-late :
      (token : Text) (by : Option Text) (actor : Option String) (s : Manager) (l : LeaseRecord)
      (now : ℕ)
      → Names "agent" actor
      → s.current_lease ≡ some l
      → is_leased s.handoff_state ≡ true
      → h.clock s.reads ≡ some now
      → l.expires_at ≤ now
      → RefusedExpired human_handoff_expired (assert_can_act h Actor.user (some token) s)
        × RefusedExpired human_handoff_expired (assert_can_act h Actor.agent by s)
        × RefusedExpired human_handoff_expired (resume h actor s)
  unfolding assert_can_act assert_user_control require_user_control assert_agent_control
      require_agent_control resume return_to_agent
  assert_can_act-late token by actor s l now named e d r due = ground (
    arith,
    expire_if_due-ExpiresNow s l now e d r due,
    normalize_agent actor (final (expire_if_due h s)) named,
  )

  -- With a clock that always answers and never goes back: once its reading has reached the end of a pending or active
  -- lease, `takeover` and `release` by a request that is confirmed and names the user or no actor,
  -- the write guard for the user with a token and for the agent, and `resume` by the agent or by no
  -- named actor are all refused with HUMAN_HANDOFF_EXPIRED, whatever the token, and leave the
  -- handoff expired and without an owner.
  pub late_lease-refused :
      (argument : TokenArgument) (token : Text) (by : Option Text) (actor : Option String)
      (s : Manager) (l : LeaseRecord) (now : ℕ)
      → IsUserRequest argument
      → Names "agent" actor
      → s.current_lease ≡ some l
      → is_leased s.handoff_state ≡ true
      → h.clock s.reads ≡ some now
      → l.expires_at ≤ now
      → RefusedExpired human_handoff_expired (takeover h argument s)
        × RefusedExpired human_handoff_expired (release h argument s)
        × RefusedExpired human_handoff_expired (assert_can_act h Actor.user (some token) s)
        × RefusedExpired human_handoff_expired (assert_can_act h Actor.agent by s)
        × RefusedExpired human_handoff_expired (resume h actor s)
  late_lease-refused argument token by actor s l now u named e d r due =
      let (by_user, by_agent, again) = assert_can_act-late token by actor s l now named e d r due in
      (
        takeover-late argument s l now u e d r due,
        release-late argument s l now u e d r due,
        by_user,
        by_agent,
        again,
      )

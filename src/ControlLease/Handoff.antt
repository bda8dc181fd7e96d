-- ===== src/ControlLease/Handoff.antt =====
-- The completed handoff: from the agent to the user and back.
use browser_profile_studio.Prelude.{
  nat_eq, string_eq, pair_eq, list_beq_iff, Text, ℕ, ◌+◌, ◌≤◌, ◌<◌, ◌≡◌, refl, true, false, Option,
  none, some, List, [], ◌∷◌, arith,
}
use browser_profile_studio.Prelude.Method.{returns}
use browser_profile_studio.ControlLease.State.{
  Owner, user_controlled, inactive, no_handoff, pending, active, released, LeaseRecord, Manager,
  Host, validate_duration, validate_reason, normalize_actor, matches_token_shape,
}
use browser_profile_studio.ControlLease.Lease.{
  agent_may_write, is_leased, read_now, issue_token, expire_due, expire_if_due, matches_token,
  assert_token,
}
use browser_profile_studio.ControlLease.Calls.{
  positional, normalize_token_request, open_handoff, request_handoff, claim, assert_user_request,
  take_control, takeover, give_back, release,
}
use browser_profile_studio.ControlLease.Guards.{return_to_agent, resume}
use browser_profile_studio.ControlLease.Run.{
  Event, calls_handoff, calls_takeover, calls_release, calls_resume, step, run,
}
use browser_profile_studio.ControlLease.Coherence.{IsCoherent}
use browser_profile_studio.ControlLease.Grants.{expire_if_due-none}

-- The four calls of a completed handoff.
abbrev pub cycle : Text → List Event
cycle token =
    calls_handoff none none none
    ∷ calls_takeover (positional token (some true))
    ∷ calls_release (positional token (some true))
    ∷ calls_resume none
    ∷ []

-- Its first two.
abbrev pub before_release : Text → List Event
before_release token =
    calls_handoff none none none ∷ calls_takeover (positional token (some true)) ∷ []

-- The five readings of the clock that the cycle makes, all of them before the lease ends.
abbrev pub InTime : Host → ℕ → ℕ → Type 0
InTime h reads ttl =
    (a : ℕ) × (b : ℕ) × (c : ℕ) × (d : ℕ) × (e : ℕ) × (h.clock reads ≡ some a)
    × (h.clock (reads + 1) ≡ some b)
    × (h.clock (reads + 1 + 1) ≡ some c)
    × (h.clock (reads + 1 + 1 + 1) ≡ some d)
    × (h.clock (reads + 1 + 1 + 1 + 1) ≡ some e)
    × (b < a + ttl)
    × (d < a + ttl)

-- The current lease opens with that token's digest, and ends then.
abbrev LeaseIs : Option LeaseRecord → List ℕ → ℕ → Type 0
LeaseIs none digest ends = ⊥
LeaseIs (some l) digest ends = (l.digest ≡ digest) × (l.expires_at ≡ ends)

module _ (h : Host) (token : Text) (shape : matches_token_shape token ≡ true) where
  handoff_step :
      (s : Manager) (now : ℕ)
      → s.handoff_state ≡ no_handoff
      → IsCoherent s
      → 0 < s.ttl_ms
      → s.ttl_ms ≤ s.max_ttl_ms
      → s.ttl_ms ≤ 2_147_000_000
      → h.random_token s.draws s.token_bytes ≡ some token
      → h.clock s.reads ≡ some now
      → let t = step h (calls_handoff none none none) s in
        (t.handoff_state ≡ pending)
        × LeaseIs t.current_lease (h.sha256 token) (now + s.ttl_ms)
        × (t.reads ≡ s.reads + 1)
  unfolding step request_handoff normalize_actor validate_reason open_handoff validate_duration
      read_now issue_token
  handoff_step s now e c lo hi top r k = ground (arith, expire_if_due-none h s e c)

  matches_itself :
      (s : Manager) (ends : ℕ)
      → LeaseIs s.current_lease (h.sha256 token) ends
      → matches_token h token s ≡ true
  unfolding matches_token matches_token_shape
  matches_itself s ends l =
      ground (arith, shape, (list_beq_iff (h.sha256 token) (h.sha256 token)).1 refl)

  not_due :
      (s : Manager) (ends now : ℕ)
      → is_leased s.handoff_state ≡ true
      → LeaseIs s.current_lease (h.sha256 token) ends
      → h.clock s.reads ≡ some now
      → now < ends
      → expire_if_due h s ≡ returns false (record s { reads = s.reads + 1 })
  unfolding expire_if_due expire_due read_now
  not_due s ends now d l k b = ground arith

  takeover_step :
      (s : Manager) (ends now claimed : ℕ)
      → s.handoff_state ≡ pending
      → LeaseIs s.current_lease (h.sha256 token) ends
      → h.clock s.reads ≡ some now
      → now < ends
      → h.clock (s.reads + 1) ≡ some claimed
      → let t = step h (calls_takeover (positional token (some true))) s in
        (t.handoff_state ≡ active)
        × (t.control_state ≡ user_controlled)
        × (t.owner ≡ Owner.user)
        × LeaseIs t.current_lease (h.sha256 token) ends
        × (t.reads ≡ s.reads + 1 + 1)
  unfolding step takeover normalize_token_request assert_user_request normalize_actor take_control
      claim assert_token read_now
  takeover_step s ends now claimed e l k b k2 = ground (
    arith,
    shape,
    not_due s ends now (rw e) l k b,
    matches_itself (record s { reads = s.reads + 1 }) ends l,
  )

  release_step :
      (s : Manager) (ends now given : ℕ)
      → s.handoff_state ≡ active
      → LeaseIs s.current_lease (h.sha256 token) ends
      → h.clock s.reads ≡ some now
      → now < ends
      → h.clock (s.reads + 1) ≡ some given
      → let t = step h (calls_release (positional token (some true))) s in
        (t.handoff_state ≡ released) × (t.control_state ≡ inactive) × (t.current_lease ≡ none)
  unfolding step release normalize_token_request assert_user_request normalize_actor give_back
      assert_token read_now
  release_step s ends now given e l k b k2 = ground (
    arith,
    shape,
    not_due s ends now (rw e) l k b,
    matches_itself (record s { reads = s.reads + 1 }) ends l,
  )

  resume_step :
      (s : Manager)
      → s.handoff_state ≡ released
      → s.control_state ≡ inactive
      → s.current_lease ≡ none
      → let t = step h (calls_resume none) s in
        (t.handoff_state ≡ no_handoff) × (t.owner ≡ Owner.agent) × (agent_may_write t ≡ true)
  unfolding step resume normalize_actor return_to_agent expire_if_due
  resume_step s e c l = ground arith

  -- From the agent's control a handoff, a takeover and a release with the granted token and a
  -- resume all succeed if the clock reaches the end of the lease at none of the checks: after the
  -- takeover the user is the owner, and after the resume the agent may write again.
  pub cycle_completes :
      (s : Manager)
      → IsCoherent s
      → s.handoff_state ≡ no_handoff
      → 0 < s.ttl_ms
      → s.ttl_ms ≤ s.max_ttl_ms
      → s.ttl_ms ≤ 2_147_000_000
      → h.random_token s.draws s.token_bytes ≡ some token
      → InTime h s.reads s.ttl_ms
      → ((run h (before_release token) s).owner ≡ Owner.user)
        × (agent_may_write (run h (cycle token) s) ≡ true)
  unfolding run
  cycle_completes s c e lo hi top r (ta, tb, tc, td, te, ra, rb, rc, rd, re, before, after) =
      let (p1, l1, n1) = handoff_step s ta e c lo hi top r ra in
      let s1 : Manager = step h (calls_handoff none none none) s in
      let (p2, u2, o2, l2, n2) =
        takeover_step s1 (ta + s.ttl_ms) tb tc p1 l1 (rw n1 rb) before (rw n1 rc) in
      let s2 : Manager = step h (calls_takeover (positional token (some true))) s1 in
      let (p3, c3, l3) =
        release_step s2 (ta + s.ttl_ms) td te p2 l2 (rw (n2, n1) rd) after (rw (n2, n1) re) in
      (o2, (resume_step _ p3 c3 l3).2)

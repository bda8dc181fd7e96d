-- ===== src/ControlLease/Grants.antt =====
-- What a handoff grants, and whom the write guard lets pass.
use Prim.Native.String.{String}
use browser_profile_studio.Prelude.{
  nat_eq, string_eq, pair_eq, Text, ℕ, ◌+◌, ◌≤◌, ◌<◌, ◌≡◌, refl, ◌↔◌, ◌⊎◌, inl, inr, true, false,
  Option, none, some, arith,
}
use browser_profile_studio.Prelude.Method.{Outcome, returns, throws, final}
use browser_profile_studio.ControlLease.Transitions.{expire_if_due-Stays}
use browser_profile_studio.ControlLease.Authority.{is_handed_over}
use browser_profile_studio.ControlLease.State.{
  Actor, HandoffState, no_handoff, LeaseError, Manager, Host, Status, validate_duration,
  validate_reason, normalize_actor, matches_token_shape,
}
use browser_profile_studio.ControlLease.Lease.{
  agent_may_write, status_unsafe, read_now, issue_token, mark_expired, expire_now, expire_lease,
  expire_due, expire_if_due,
}
use browser_profile_studio.ControlLease.Calls.{open_handoff, request_handoff}
use browser_profile_studio.ControlLease.Guards.{
  require_agent_control, assert_agent_control, assert_can_act,
}
use browser_profile_studio.ControlLease.Coherence.{IsCoherent}

abbrev pub Returned : {A : Type 0} → Outcome LeaseError Manager A → Type 0
Returned (returns a t) = Unit
Returned (throws e t) = ⊥

-- The times of a grant: it ends after it is issued, by the maximum at most.
abbrev pub GrantTimes : ℕ → Option ℕ → Option ℕ → Type 0
GrantTimes most (some issued) (some ends) = (issued < ends) × (ends ≤ issued + most)
GrantTimes most _ _ = ⊥

-- What a handoff returns, if it returns.
abbrev pub GrantsWell : ℕ → Outcome LeaseError Manager (Status × Text) → Type 0
GrantsWell most (throws e t) = Unit
GrantsWell most (returns (g, token) t) =
    GrantTimes most g.issued_at g.expires_at
    × (g.hard_stop ≡ true)
    × (g.user_control_active ≡ false)
    × (g.lease_active ≡ true)
    × (matches_token_shape token ≡ true)

module _ (h : Host) where
  open_handoff-GrantsWell :
      (ttl : Option ℕ) (s : Manager) → GrantsWell s.max_ttl_ms (open_handoff h ttl s)
  unfolding open_handoff validate_duration read_now issue_token status_unsafe
  open_handoff-GrantsWell ttl s = ground arith

  expire_if_due-max_ttl_ms : (s : Manager) → (final (expire_if_due h s)).max_ttl_ms ≡ s.max_ttl_ms
  unfolding expire_if_due expire_due expire_lease expire_now mark_expired read_now
  expire_if_due-max_ttl_ms s = ground arith

  -- A handoff that is granted ends after it begins and at most the configured maximum later, its
  -- token has an acceptable shape, and its status is a hard stop that does not give the user
  -- control.
  pub request_handoff-GrantsWell :
      (a : Option String) (r : Option Text) (ttl : Option ℕ) (s : Manager)
      → GrantsWell s.max_ttl_ms (request_handoff h a r ttl s)
  unfolding request_handoff normalize_actor validate_reason
  request_handoff-GrantsWell a r ttl s =
      grind (arith, expire_if_due-max_ttl_ms s, open_handoff-GrantsWell ttl)

  pub expire_if_due-none :
      (s : Manager)
      → s.handoff_state ≡ no_handoff
      → IsCoherent s
      → expire_if_due h s ≡ returns false s
  unfolding expire_if_due
  expire_if_due-none s e c = ground arith

  refused_while_handed_over :
      (s : Manager)
      → is_handed_over s.handoff_state ≡ true
      → ¬ Returned (assert_can_act h Actor.agent none s)
  unfolding assert_can_act assert_agent_control require_agent_control
  refused_while_handed_over s w =
      ground (arith, expire_if_due-Stays h is_handed_over refl refl refl s w)

  passes_unless_handed_over :
      (s : Manager)
      → s.handoff_state ≡ no_handoff
      → IsCoherent s
      → Returned (assert_can_act h Actor.agent none s) × (agent_may_write s ≡ true)
  unfolding assert_can_act assert_agent_control require_agent_control
  passes_unless_handed_over s e c = ground (arith, expire_if_due-none s e c)

  handoff_cases : (x : HandoffState) → (x ≡ no_handoff) ⊎ (is_handed_over x ≡ true)
  handoff_cases x = ground arith

  -- On a coherent manager the write guard lets the agent pass exactly when the agent may write,
  -- which is when no handoff has begun.
  pub assert_agent_control_iff :
      (s : Manager)
      → IsCoherent s
      → Returned (assert_can_act h Actor.agent none s) ↔ (agent_may_write s ≡ true)
  assert_agent_control_iff s c = elim (handoff_cases s.handoff_state) [
    | inl e ↦
        let (passes, writes) = passes_unless_handed_over s e c in ((λ _. writes), (λ _. passes))
    | inr w ↦ ((λ r. absurd (refused_while_handed_over s w r)), (λ a. ground arith))
  ]

-- ===== src/ControlLease/Coherence.antt =====
-- The fields of a manager always fit its handoff state.
use browser_profile_studio.Prelude.{
  nat_eq, string_eq, pair_eq, Text, ℕ, ◌≡◌, Bool, true, false, Option, none, some, arith,
}
use browser_profile_studio.Prelude.Method.{final}
use browser_profile_studio.ControlLease.State.{
  Owner, nobody, ControlState, agent_controlled, user_controlled, inactive, HandoffState,
  no_handoff, pending, active, released, expired, user_active, LeaseRecord, Manager, Host,
  is_defined, validate_duration, normalize_actor,
}
use browser_profile_studio.ControlLease.Calls.{
  open_handoff, claim, assert_user_request, repeat_claim, take_control, give_back,
}
use browser_profile_studio.ControlLease.Guards.{return_to_agent, recover}
use Prim.Native.String.{String}
use browser_profile_studio.ControlLease.Lease.{
  read_now, issue_token, mark_expired, expire_now, expire_lease, expire_due, expire_if_due,
  assert_token,
}

-- The lease in force: that of the newest generation, ending when the manager noted.
abbrev pub Holds : Option LeaseRecord → ℕ → Option ℕ → Bool → Type 0
Holds none generation last claimed = ⊥
Holds (some l) generation last claimed =
    (l.generation ≡ generation) × (last ≡ some l.expires_at) × (is_defined l.activated_at ≡ claimed)

abbrev pub Fits : HandoffState → ControlState → Owner → Option LeaseRecord → ℕ → Option ℕ → Type 0
Fits no_handoff c o l g e = (c ≡ agent_controlled) × (o ≡ Owner.agent) × (l ≡ none)
Fits pending c o l g e = (c ≡ inactive) × (o ≡ nobody) × Holds l g e false
Fits active c o l g e = (c ≡ user_controlled) × (o ≡ Owner.user) × Holds l g e true
Fits released c o l g e = (c ≡ inactive) × (o ≡ nobody) × (l ≡ none)
Fits expired c o l g e = (c ≡ inactive) × (o ≡ nobody)
Fits user_active c o l g e = ⊥

abbrev pub IsCoherent : Manager → Type 0
IsCoherent s =
    Fits s.handoff_state s.control_state s.owner s.current_lease s.next_generation s.last_expires_at

module _ (h : Host) where
  pub mark_expired-IsCoherent : (s : Manager) → IsCoherent (final (mark_expired h s))
  unfolding mark_expired read_now
  mark_expired-IsCoherent s = ground arith

  pub expire_now-IsCoherent :
      (l : LeaseRecord) (s : Manager) → IsCoherent s → IsCoherent (final (expire_now h l s))
  unfolding expire_now read_now
  expire_now-IsCoherent l s c = grind (arith, mark_expired-IsCoherent)

  pub expire_lease-IsCoherent :
      (g : ℕ) (s : Manager) → IsCoherent s → IsCoherent (final (expire_lease h g s))
  unfolding expire_lease
  expire_lease-IsCoherent g s c = grind (arith, expire_now-IsCoherent)

  pub expire_due-IsCoherent :
      (l : LeaseRecord) (s : Manager) → IsCoherent s → IsCoherent (final (expire_due h l s))
  unfolding expire_due read_now
  expire_due-IsCoherent l s c = grind (arith, expire_lease-IsCoherent)

  pub expire_if_due-IsCoherent :
      (s : Manager) → IsCoherent s → IsCoherent (final (expire_if_due h s))
  unfolding expire_if_due
  expire_if_due-IsCoherent s c = grind (arith, expire_due-IsCoherent)

  pub assert_user_request-IsCoherent :
      (a : Option String) (b : Bool) (s : Manager)
      → IsCoherent s
      → IsCoherent (final (assert_user_request h a b s))
  unfolding assert_user_request normalize_actor
  assert_user_request-IsCoherent none b s c = ground arith
  assert_user_request-IsCoherent (some a) b s c = ground arith

  pub claim-IsCoherent :
      (token : Text) (s : Manager)
      → s.handoff_state ≡ pending
      → IsCoherent s
      → IsCoherent (final (claim h token s))
  unfolding claim assert_token read_now
  claim-IsCoherent token s e c = ground arith

  pub take_control-IsCoherent :
      (token : Text) (s : Manager) → IsCoherent s → IsCoherent (final (take_control h token s))
  unfolding take_control repeat_claim
  take_control-IsCoherent token s c = ground (arith, claim-IsCoherent token s)

  pub open_handoff-IsCoherent :
      (ttl : Option ℕ) (s : Manager) → IsCoherent s → IsCoherent (final (open_handoff h ttl s))
  unfolding open_handoff validate_duration read_now issue_token
  open_handoff-IsCoherent ttl s c = ground arith

  pub give_back-IsCoherent :
      (token : Text) (s : Manager) → IsCoherent s → IsCoherent (final (give_back h token s))
  unfolding give_back assert_token read_now
  give_back-IsCoherent token s c = ground arith

  pub recover-IsCoherent : (s : Manager) → IsCoherent s → IsCoherent (final (recover h s))
  unfolding recover read_now
  recover-IsCoherent s c = ground arith

  pub return_to_agent-IsCoherent :
      (s : Manager) → IsCoherent s → IsCoherent (final (return_to_agent s))
  unfolding return_to_agent
  return_to_agent-IsCoherent s c = ground arith

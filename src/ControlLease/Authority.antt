-- ===== src/ControlLease/Authority.antt =====
-- Who can move control: what has to be called before the agent may write again.
use Prim.Native.String.{String}
use browser_profile_studio.Prelude.{
  Bool-cases, nat_eq, string_eq, pair_eq, any, ◌≡◌, refl, ◌⊎◌, inl, inr, Bool, true, false, not,
  Option, List, [], ◌∷◌, arith,
}
use browser_profile_studio.Prelude.Method.{final}
use browser_profile_studio.ControlLease.State.{
  HandoffState, no_handoff, released, Manager, Host, is_none, normalize_actor,
}
use browser_profile_studio.ControlLease.Lease.{agent_may_write, read_now, assert_token}
use browser_profile_studio.ControlLease.Calls.{
  TokenArgument, normalize_token_request, assert_user_request, give_back, release,
}
use browser_profile_studio.ControlLease.Guards.{return_to_agent, resume, recover, recover_expired}
use browser_profile_studio.ControlLease.Run.{
  Event, calls_status, calls_expire_if_due, calls_dispose, calls_handoff, calls_takeover,
  calls_release, calls_resume, calls_recover_expired, calls_assert_can_act, calls_can_user_act,
  timer_fires, step, run,
}
use browser_profile_studio.ControlLease.Transitions.{
  expire_lease-Stays, expire_if_due-Stays, status-Stays, dispose-Stays, request_handoff-Stays,
  takeover-Stays, assert_can_act-Stays, can_user_act-Stays,
}

-- Calls by which a user confirms that control goes back.
abbrev pub confirms_return : Event → Bool
confirms_return (calls_release argument) = (normalize_token_request argument).user_confirmed
confirms_return (calls_recover_expired actor confirmed) = confirmed
confirms_return _ = false

abbrev pub is_resume : Event → Bool
is_resume (calls_resume actor) = true
is_resume _ = false

-- In these states the agent neither has control nor has been given it back.
abbrev pub is_withheld : HandoffState → Bool
is_withheld no_handoff = false
is_withheld released = false
is_withheld _ = true

abbrev pub is_handed_over : HandoffState → Bool
is_handed_over state = not (is_none state)

-- The events hold a confirmation by a user, and a later `resume`.
abbrev pub ConfirmedThenResumed : List Event → Type 0
ConfirmedThenResumed [] = ⊥
ConfirmedThenResumed (e ∷ es) =
    ((confirms_return e ≡ true) × (any is_resume es ≡ true)) ⊎ ConfirmedThenResumed es

module _ (h : Host) where
  resume-withheld :
      (a : Option String) (s : Manager)
      → is_withheld s.handoff_state ≡ true
      → is_withheld (final (resume h a s)).handoff_state ≡ true
  unfolding resume normalize_actor return_to_agent
  resume-withheld a s w = ground (arith, expire_if_due-Stays h is_withheld refl refl refl s w)

  release-withheld :
      (argument : TokenArgument) (s : Manager)
      → (normalize_token_request argument).user_confirmed ≡ false
      → is_withheld s.handoff_state ≡ true
      → is_withheld (final (release h argument s)).handoff_state ≡ true
  unfolding release assert_user_request normalize_actor
  release-withheld argument s u w =
      ground (arith, expire_if_due-Stays h is_withheld refl refl refl s w)

  recover_expired-withheld :
      (a : Option String) (s : Manager)
      → is_withheld s.handoff_state ≡ true
      → is_withheld (final (recover_expired h a false s)).handoff_state ≡ true
  unfolding recover_expired assert_user_request normalize_actor
  recover_expired-withheld a s w =
      ground (arith, expire_if_due-Stays h is_withheld refl refl refl s w)

  release-handed_over :
      (argument : TokenArgument) (s : Manager)
      → is_handed_over s.handoff_state ≡ true
      → is_handed_over (final (release h argument s)).handoff_state ≡ true
  unfolding release assert_user_request normalize_actor give_back assert_token read_now
  release-handed_over argument s w =
      ground (arith, expire_if_due-Stays h is_handed_over refl refl refl s w)

  recover_expired-handed_over :
      (a : Option String) (b : Bool) (s : Manager)
      → is_handed_over s.handoff_state ≡ true
      → is_handed_over (final (recover_expired h a b s)).handoff_state ≡ true
  unfolding recover_expired assert_user_request normalize_actor recover read_now
  recover_expired-handed_over a b s w =
      ground (arith, expire_if_due-Stays h is_handed_over refl refl refl s w)

  -- No event without a user's confirmation gives control back.
  step-withheld :
      (e : Event) (s : Manager)
      → confirms_return e ≡ false
      → is_withheld s.handoff_state ≡ true
      → is_withheld (step h e s).handoff_state ≡ true
  unfolding step
  step-withheld calls_status s u w = status-Stays h is_withheld refl refl refl s w
  step-withheld calls_expire_if_due s u w = expire_if_due-Stays h is_withheld refl refl refl s w
  step-withheld calls_dispose s u w = dispose-Stays h is_withheld refl refl refl s
  step-withheld (calls_handoff actor reason ttl) s u w =
      request_handoff-Stays h is_withheld refl refl refl actor reason ttl s w
  step-withheld (calls_takeover argument) s u w =
      takeover-Stays h is_withheld refl refl refl argument s w
  step-withheld (calls_release argument) s u w = release-withheld argument s u w
  step-withheld (calls_resume actor) s u w = resume-withheld actor s w
  step-withheld (calls_recover_expired actor confirmed) s u w =
      rw u (recover_expired-withheld actor s w)
  step-withheld (calls_assert_can_act actor token) s u w =
      assert_can_act-Stays h is_withheld refl refl refl actor token s w
  step-withheld (calls_can_user_act token) s u w =
      can_user_act-Stays h is_withheld refl refl refl token s w
  step-withheld (timer_fires generation) s u w =
      expire_lease-Stays h is_withheld refl refl refl generation s w

  -- No event but `resume` ends a handoff.
  step-handed_over :
      (e : Event) (s : Manager)
      → is_resume e ≡ false
      → is_handed_over s.handoff_state ≡ true
      → is_handed_over (step h e s).handoff_state ≡ true
  unfolding step
  step-handed_over calls_status s u w = status-Stays h is_handed_over refl refl refl s w
  step-handed_over calls_expire_if_due s u w =
      expire_if_due-Stays h is_handed_over refl refl refl s w
  step-handed_over calls_dispose s u w = dispose-Stays h is_handed_over refl refl refl s
  step-handed_over (calls_handoff actor reason ttl) s u w =
      request_handoff-Stays h is_handed_over refl refl refl actor reason ttl s w
  step-handed_over (calls_takeover argument) s u w =
      takeover-Stays h is_handed_over refl refl refl argument s w
  step-handed_over (calls_release argument) s u w = release-handed_over argument s w
  step-handed_over (calls_resume actor) s u w = cc
  step-handed_over (calls_recover_expired actor confirmed) s u w =
      recover_expired-handed_over actor confirmed s w
  step-handed_over (calls_assert_can_act actor token) s u w =
      assert_can_act-Stays h is_handed_over refl refl refl actor token s w
  step-handed_over (calls_can_user_act token) s u w =
      can_user_act-Stays h is_handed_over refl refl refl token s w
  step-handed_over (timer_fires generation) s u w =
      expire_lease-Stays h is_handed_over refl refl refl generation s w

  run-resumed :
      (es : List Event) (s : Manager)
      → is_handed_over s.handoff_state ≡ true
      → agent_may_write (run h es s) ≡ true
      → any is_resume es ≡ true
  unfolding run
  run-resumed [] s w a = ground arith
  run-resumed (e ∷ es) s w a = elim (Bool-cases (is_resume e)) [
    | inl y ↦ rw y
    | inr n ↦ rw n (run-resumed es (step h e s) (step-handed_over e s n w) a)
  ]

  not_resume : (e : Event) → confirms_return e ≡ true → is_resume e ≡ false
  not_resume (calls_resume actor) y = cc
  not_resume _ y = refl

  withheld-handed_over : (x : HandoffState) → is_withheld x ≡ true → is_handed_over x ≡ true
  withheld-handed_over x w = ground arith

  -- While a handoff is pending, active or expired, no sequence of calls and timers lets the agent
  -- write again unless a user confirms the return and a `resume` follows that confirmation.
  pub agent_regains_only_confirmed :
      (es : List Event) (s : Manager)
      → is_withheld s.handoff_state ≡ true
      → agent_may_write (run h es s) ≡ true
      → ConfirmedThenResumed es
  unfolding run
  agent_regains_only_confirmed [] s w a = ground arith
  agent_regains_only_confirmed (e ∷ es) s w a = elim (Bool-cases (confirms_return e)) [
    | inl y ↦ inl (
      y,
      run-resumed es (step h e s)
          (step-handed_over e s (not_resume e y) (withheld-handed_over s.handoff_state w)) a,
    )
    | inr n ↦ inr (agent_regains_only_confirmed es (step h e s) (step-withheld e s n w) a)
  ]

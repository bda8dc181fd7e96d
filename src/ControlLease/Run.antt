-- ===== src/ControlLease/Run.antt =====
-- A run of a ControlLeaseManager: calls of its methods, and timers that fire, in any order.
use Prim.Native.String.{String}
use browser_profile_studio.Prelude.{
  nat_eq, string_eq, pair_eq, Text, ℕ, Bool, Option, List, [], ◌∷◌,
}
use browser_profile_studio.Prelude.Method.{final}
use browser_profile_studio.ControlLease.State.{Actor, Manager, Host}
use browser_profile_studio.ControlLease.Lease.{expire_lease, expire_if_due}
use browser_profile_studio.ControlLease.Calls.{
  TokenArgument, status, request_handoff, takeover, release,
}
use browser_profile_studio.ControlLease.Guards.{
  resume, recover_expired, assert_can_act, can_user_act, dispose,
}

-- `timer_fires` may come at any time and for any generation, also one that is over.
pub data Event : Type 0 where
  calls_status calls_expire_if_due calls_dispose : Event
  calls_handoff : Option String → Option Text → Option ℕ → Event
  calls_takeover calls_release : TokenArgument → Event
  calls_resume : Option String → Event
  calls_recover_expired : Option String → Bool → Event
  calls_assert_can_act : Actor → Option Text → Event
  calls_can_user_act : Option Text → Event
  timer_fires : ℕ → Event

module _ (h : Host) where
  -- What one event leaves, whether it returns or throws.
  unfoldable pub step : Event → Manager → Manager
  step calls_status s = final (status h s)
  step calls_expire_if_due s = final (expire_if_due h s)
  step calls_dispose s = final (dispose h s)
  step (calls_handoff actor reason ttl) s = final (request_handoff h actor reason ttl s)
  step (calls_takeover argument) s = final (takeover h argument s)
  step (calls_release argument) s = final (release h argument s)
  step (calls_resume actor) s = final (resume h actor s)
  step (calls_recover_expired actor confirmed) s = final (recover_expired h actor confirmed s)
  step (calls_assert_can_act actor token) s = final (assert_can_act h actor token s)
  step (calls_can_user_act token) s = final (can_user_act h token s)
  step (timer_fires generation) s = final (expire_lease h generation s)

  unfoldable pub run : List Event → Manager → Manager
  run [] s = s
  run (e ∷ es) s = run es (step e s)

-- ===== src/ProfileLease/Tests.antt =====
-- Runs and instances of the theorems about the profile leases.
use Prim.Native.String.{String}
use browser_profile_studio.Prelude.{
  string_eq, nat_eq, pair_eq, All, Text, text_eq, ℕ, ◌≡◌, refl, ◌≢◌, some, List, [], ◌∷◌, arith,
}
use browser_profile_studio.Prelude.Map.{get, set, delete}
use browser_profile_studio.Prelude.Method.{returns, throws}
use browser_profile_studio.ProfileLease.{
  lease_already_acquired, LeaseRecord, Leases, no_leases, lease_key, set_lease, own, lease_of,
  acquire, renew, release, expire, run_timer,
}
use browser_profile_studio.ProfileLease.Fencing.{
  Event, acquires, releases, shuts_down, runs_timer, run, WhileHeld,
}
use browser_profile_studio.ProfileLease.Ownership.{Returned, acquired_lease-exclusive, lease_ends}

abbrev tenant : Text
tenant = 116 ∷ []

abbrev profile : Text
profile = 112 ∷ []

-- After manager 1 has got the lease at time 0 for 30 seconds.
abbrev leased : Leases
leased = own 1 (116 ∷ 58 ∷ 112 ∷ []) "a" (set_lease 30_000 1 0 (116 ∷ 58 ∷ 112 ∷ []) "a" no_leases)

first_acquire :
    acquire 30_000 1 0 "a" tenant profile no_leases ≡ returns (lease_of 30_000 0 profile "a") leased
unfolding acquire get set lease_key
first_acquire = refl

abbrev meanwhile : List (ℕ × Event)
meanwhile =
    (10, acquires 30_000 2 "b" tenant profile)
    ∷ (20, releases 2 "b" tenant profile)
    ∷ (25, acquires 5_000 2 "c" tenant (113 ∷ []))
    ∷ (40, runs_timer 0)
    ∷ (50, shuts_down 2)
    ∷ []

other_b : ◌≢◌ {A = String} "b" "a"
other_b = ground (arith, string_eq.equal_iff "b" "a")

other_c : ◌≢◌ {A = String} "c" "a"
other_c = ground (arith, string_eq.equal_iff "c" "a")

meanwhile_spares : All (WhileHeld 1 "a" 30_000) meanwhile
meanwhile_spares = (
  (omega arith, other_b),
  (
    (omega arith, other_b),
    ((omega arith, other_c), ((omega arith, tt), ((omega arith, λ same. omega arith), tt))),
  ),
)

acquired_lease-exclusive_example :
    (acquire 30_000 2 29_999 "d" tenant profile (run meanwhile leased)
      ≡ throws lease_already_acquired (run meanwhile leased))
    × Returned (renew 30_000 1 29_999 "a" tenant profile (run meanwhile leased))
acquired_lease-exclusive_example =
    acquired_lease-exclusive 30_000 1 0 "a" tenant profile no_leases leased
      (lease_of 30_000 0 profile "a") (tt, tt) first_acquire meanwhile meanwhile_spares 29_999
      (omega arith) 30_000 2 "d"

abbrev stored : LeaseRecord
stored = record { token = "a"; expires_at = 30_000; timeout = 0 }

stored_lease : get (lease_key tenant profile) leased.memory_leases ≡ some stored
unfolding lease_key get set
stored_lease = refl

lease_ends_example :
    Returned (acquire 30_000 2 10 "d" tenant profile (release 1 "a" tenant profile leased))
lease_ends_example =
    (lease_ends tenant profile stored leased stored_lease 30_000 2 1 10 "d" "b" other_b).0

-- The timer ends the lease when it is due, and not before.
timer_ends_lease :
    (run_timer 0 29_999 leased ≡ leased) × ((run_timer 0 30_000 leased).memory_leases ≡ [])
unfolding run_timer expire get set delete
timer_ends_lease = (refl, refl)

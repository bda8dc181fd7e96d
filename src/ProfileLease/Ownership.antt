-- ===== src/ProfileLease/Ownership.antt =====
-- What a caller of src/distributed/profile-lease.ts may rely on from `acquire` on.
use Prim.Native.String.{String}
use browser_profile_studio.Prelude.{
  ltb, leb, Bool-cases, Option-cases, string_eq, nat_eq, pair_eq, list_beq_iff, All, Text, text_eq,
  ℕ, ◌+◌, ◌≤◌, ◌<◌, ◌≡◌, refl, sym, ap, subst, ◌≢◌, inl, inr, true, false, some, List, [], ◌∷◌,
  arith,
}
use browser_profile_studio.Prelude.Map.{Map, get, get-set_self, get-delete, All-set, All-delete}
use browser_profile_studio.Prelude.Method.{Outcome, returns, throws}
use browser_profile_studio.ProfileLease.{
  LeaseError, lease_already_acquired, ProfileLease, LeaseRecord, Timeout, Leases, lease_key,
  clear_timeout, set_lease, own, acquire, renew, release,
}
use browser_profile_studio.ProfileLease.Held.{IsHeld, TimerSpares, OwnerSpares, Held, no_lease}
use browser_profile_studio.ProfileLease.Fencing.{Event, run, WhileHeld, run-Held}

-- No timer and no manager has the token yet.
abbrev pub TimerIsOther : String → ℕ × Timeout → Type 0
TimerIsOther token (_, timer) = timer.token ≢ token

abbrev pub OwnerIsOther : String → (ℕ × Text) × String → Type 0
OwnerIsOther token (_, t) = t ≢ token

abbrev pub IsFresh : String → Leases → Type 0
IsFresh token s = All (TimerIsOther token) s.timers × All (OwnerIsOther token) s.owned_leases

abbrev pub Returned : {E S A : Type 0} → Outcome E S A → Type 0
Returned (returns a s) = Unit
Returned (throws e s) = ⊥

module _ (me : ℕ) (token : String) (key : Text) (end : ℕ) where
  timers_spare :
      (ts : Map ℕ Timeout) → All (TimerIsOther token) ts → All (TimerSpares me token key end) ts
  timers_spare [] h = tt
  timers_spare ((n, timer) ∷ ts) h = (λ same its. absurd (h.0 its), timers_spare ts h.1)

  owners_spare :
      (os : Map (ℕ × Text) String)
      → All (OwnerIsOther token) os
      → All (OwnerSpares me token key end) os
  owners_spare [] h = tt
  owners_spare ((m, t) ∷ os) h = (λ its. absurd (h.0 its), owners_spare os h.1)

  abbrev HeldAfter : Outcome LeaseError Leases ProfileLease → Type 0
  HeldAfter (returns lease t) = Held me token key end t
  HeldAfter (throws e t) = Unit

module _ (ttl me now : ℕ) (token : String) (tenant profile : Text) where
  abbrev key : Text
  key = lease_key tenant profile

  own-Held :
      (s : Leases)
      → IsFresh token s
      → Held me token key (now + ttl) (own me key token (set_lease ttl me now key token s))
  own-Held s fresh =
      let leases = s.memory_leases in
      let lease : LeaseRecord = record {
        token = token;
        expires_at = now + ttl;
        timeout = s.next_timer;
      } in
      record {
        held =
            subst (IsHeld me token key (now + ttl)) (sym (get-set_self key lease leases))
              (refl, omega arith);
        timed =
            All-set (TimerSpares me token key (now + ttl)) s.next_timer _ s.timers
              (λ j is same its. omega arith)
              (timers_spare me token key (now + ttl) s.timers fresh.0);
        owners =
            All-set (OwnerSpares me token key (now + ttl)) (me, key) token s.owned_leases
              (λ j is its. ap (λ q. q.0) is)
              (owners_spare me token key (now + ttl) s.owned_leases fresh.1);
      }

  acquire-HeldAfter :
      (s : Leases)
      → IsFresh token s
      → HeldAfter me token key (now + ttl) (acquire ttl me now token tenant profile s)
  unfolding acquire
  acquire-HeldAfter s fresh = elim (Option-cases (get key s.memory_leases)) [
    | inl missing ↦ rw (missing, HeldAfter, acquire) (own-Held s fresh)
    | inr (lease, found) ↦ elim (Bool-cases (ltb now lease.expires_at)) [
      | inl live ↦ rw (found, live, HeldAfter, acquire) tt
      | inr late ↦
          let cleared = All-delete (TimerIsOther token) lease.timeout s.timers fresh.0 in
          rw (found, late, HeldAfter, acquire)
            (own-Held (clear_timeout lease.timeout s) (cleared, fresh.1))
    ]
  ]

module _ (me : ℕ) (token : String) (tenant profile : Text) (end : ℕ) (s : Leases) (now : ℕ)
    (early : now < end) where
  acquire-refused :
      (ttl m : ℕ) (t : String)
      → Held me token (lease_key tenant profile) end s
      → acquire ttl m now t tenant profile s ≡ throws lease_already_acquired s
  unfolding acquire
  acquire-refused ttl m t h = elim (Option-cases (get (lease_key tenant profile) s.memory_leases)) [
    | inl missing ↦ absurd (
        no_lease me token (lease_key tenant profile) end (lease_key tenant profile) s h missing
          refl)
    | inr (lease, found) ↦
        let kept = subst (IsHeld me token (lease_key tenant profile) end) found h.held in
        let live : ltb now lease.expires_at ≡ true = ground (arith, kept.1) in
        rw (found, live, acquire) refl
  ]

  renew-Returned :
      (ttl : ℕ)
      → Held me token (lease_key tenant profile) end s
      → Returned (renew ttl me now token tenant profile s)
  unfolding renew
  renew-Returned ttl h = elim (Option-cases (get (lease_key tenant profile) s.memory_leases)) [
    | inl missing ↦ absurd (
        no_lease me token (lease_key tenant profile) end (lease_key tenant profile) s h missing
          refl)
    | inr (lease, found) ↦
        let kept = subst (IsHeld me token (lease_key tenant profile) end) found h.held in
        let live : leb lease.expires_at now ≡ false = ground (arith, kept.1) in
        let same = (string_eq.equal_iff lease.token token).1 kept.0 in
        rw (found, live, same, Returned, renew) tt
  ]

-- Once `acquire` has returned a lease for a token that no timer and no manager had, then until the
-- lease's end, whatever other calls, shutdowns of other managers and timers happen before, every
-- `acquire` of the profile throws LEASE_ALREADY_ACQUIRED and changes nothing, and the holder's
-- `renew` returns.
pub acquired_lease-exclusive :
    (ttl me now : ℕ) (token : String) (tenant profile : Text) (s t : Leases) (lease : ProfileLease)
    → IsFresh token s
    → acquire ttl me now token tenant profile s ≡ returns lease t
    → (events : List (ℕ × Event)) → All (WhileHeld me token (now + ttl)) events
    → (later : ℕ) → later < now + ttl
    → (new_ttl m : ℕ) (other : String)
    → (acquire new_ttl m later other tenant profile (run events t)
        ≡ throws lease_already_acquired (run events t))
      × Returned (renew new_ttl me later token tenant profile (run events t))
acquired_lease-exclusive ttl me now token tenant profile s t lease fresh granted events spared later
      early new_ttl m other =
    let key = lease_key tenant profile in
    let held =
      subst (HeldAfter me token key (now + ttl)) granted
        (acquire-HeldAfter ttl me now token tenant profile s fresh) in
    let kept = run-Held me token key (now + ttl) events t spared held in
    (
      acquire-refused me token tenant profile (now + ttl) (run events t) later early new_ttl m other
          kept,
      renew-Returned me token tenant profile (now + ttl) (run events t) later early new_ttl kept,
    )

-- Whoever has a lease of the profile in the process: after its release with the lease's token, or
-- at or after its end, the next `acquire` returns, and a release with another token leaves every
-- stored lease and every timer as it was.
pub lease_ends :
    (tenant profile : Text) (lease : LeaseRecord) (s : Leases)
    → get (lease_key tenant profile) s.memory_leases ≡ some lease
    → (ttl me m now : ℕ) (token other : String) → (other ≢ lease.token)
    → Returned (acquire ttl me now token tenant profile (release m lease.token tenant profile s))
      × (lease.expires_at ≤ now → Returned (acquire ttl me now token tenant profile s))
      × ((release m other tenant profile s).memory_leases ≡ s.memory_leases)
      × ((release m other tenant profile s).timers ≡ s.timers)
unfolding acquire release
lease_ends tenant profile lease s found ttl me m now token other differs = ground (
  arith,
  found,
  string_eq.equal_iff lease.token other,
  string_eq.equal_iff lease.token lease.token,
  get-delete (lease_key tenant profile) (lease_key tenant profile) s.memory_leases,
  list_beq_iff (lease_key tenant profile) (lease_key tenant profile),
)

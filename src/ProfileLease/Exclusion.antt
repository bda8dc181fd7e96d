-- ===== src/ProfileLease/Exclusion.antt =====
-- A profile's lease is exclusive: until it ends, nobody else gets one, whatever the managers do.
use Prim.Native.String.{String}
use browser_profile_studio.Prelude.{
  ltb, leb, Bool-cases, Option-cases, string_eq, nat_eq, ◌==◌, pair_eq, Text, text_eq, ℕ, ◌<◌, ◌≡◌,
  sym, ap, ◌∙◌, subst, ◌≢◌, inl, inr, arith,
}
use browser_profile_studio.Prelude.Map.{get, All-delete}
use browser_profile_studio.Prelude.Method.{final}
use browser_profile_studio.ProfileLease.{
  Timeout, Leases, lease_key, clear_timeout, delete_lease, disown, acquire, renew, release, give_up,
  expire,
}
use browser_profile_studio.ProfileLease.Held.{
  IsHeld, OwnerSpares, Held, delete_other-IsHeld, other_token, ended_lease, no_lease,
  clear_timeout-Held, disown-Held, delete_lease-Held, set_lease-Held, grant-Held, forget-Held,
}

module _ (me : ℕ) (token : String) (key : Text) (end : ℕ) (s : Leases)
    (h : Held me token key end s) where
  pub acquire-Held :
      (ttl m now : ℕ) (t : String) (tenant profile : Text)
      → now < end
      → t ≢ token
      → Held me token key end (final (acquire ttl m now t tenant profile s))
  unfolding acquire
  acquire-Held ttl m now t tenant profile early new =
      let k = lease_key tenant profile in
      elim (Option-cases (get k s.memory_leases)) [
        | inl missing ↦
            let other = no_lease me token key end k s h missing in
            rw (missing, final, acquire) (grant-Held me token key end ttl m now k t s other new h)
        | inr (lease, found) ↦ elim (Bool-cases (ltb now lease.expires_at)) [
          | inl live ↦ rw (found, live, final, acquire) h
          | inr late ↦
              let other = ended_lease me token key end k s now h found early (ground arith) in
              let u = clear_timeout lease.timeout s in
              let cleared = clear_timeout-Held me token key end lease.timeout s h in
              rw (found, late, final, acquire)
                (grant-Held me token key end ttl m now k t u other new cleared)
        ]
      ]

  pub renew-Held :
      (ttl m now : ℕ) (t : String) (tenant profile : Text)
      → now < end
      → t ≢ token
      → Held me token key end (final (renew ttl m now t tenant profile s))
  unfolding renew
  renew-Held ttl m now t tenant profile early new =
      let k = lease_key tenant profile in
      elim (Option-cases (get k s.memory_leases)) [
        | inl missing ↦ rw (missing, final, renew) (disown-Held me token key end m k s h)
        | inr (lease, found) ↦ elim (Bool-cases (leb lease.expires_at now)) [
          | inl late ↦
              let other = ended_lease me token key end k s now h found early (ground arith) in
              let u = clear_timeout lease.timeout s in
              let cleared = clear_timeout-Held me token key end lease.timeout s h in
              rw (found, late, final, renew)
                (disown-Held me token key end m k (delete_lease k u)
                  (delete_lease-Held me token key end k u other cleared))
          | inr live ↦ elim (Bool-cases (lease.token == t)) [
            | inl same ↦
                let mine = (string_eq.equal_iff lease.token t).0 same in
                let other = other_token me token key end k s h found (λ is. new (sym mine ∙ is)) in
                let u = clear_timeout lease.timeout s in
                let cleared = clear_timeout-Held me token key end lease.timeout s h in
                rw (found, live, same, final, renew)
                  (set_lease-Held me token key end ttl m now k t u other new cleared)
            | inr different ↦ rw (found, live, different, final, renew) h
          ]
        ]
      ]

  pub give_up-Held : (k : Text) (t : String) → t ≢ token → Held me token key end (give_up k t s)
  unfolding give_up
  give_up-Held k t new = elim (Option-cases (get k s.memory_leases)) [
    | inl missing ↦ rw (missing, give_up) h
    | inr (lease, found) ↦ elim (Bool-cases (lease.token == t)) [
      | inl same ↦
          let mine = (string_eq.equal_iff lease.token t).0 same in
          let other = other_token me token key end k s h found (λ is. new (sym mine ∙ is)) in
          rw (found, same, give_up) (forget-Held me token key end k lease.timeout s other h)
      | inr different ↦ rw (found, different, give_up) h
    ]
  ]

  pub release-Held :
      (m : ℕ) (t : String) (tenant profile : Text)
      → t ≢ token
      → Held me token key end (release m t tenant profile s)
  unfolding release
  release-Held m t tenant profile new =
      let k = lease_key tenant profile in
      let left = disown-Held me token key end m k s h in
      elim (Option-cases (get k s.memory_leases)) [
        | inl missing ↦ rw (missing, release) left
        | inr (lease, found) ↦ elim (Bool-cases (lease.token == t)) [
          | inl same ↦
              let mine = (string_eq.equal_iff lease.token t).0 same in
              let other = other_token me token key end k s h found (λ is. new (sym mine ∙ is)) in
              rw (found, same, release)
                (forget-Held me token key end k lease.timeout (disown m k s) other left)
          | inr different ↦ rw (found, different, release) left
        ]
      ]

  pub expire-Held :
      (timer : Timeout)
      → (timer.key ≡ key → timer.token ≢ token)
      → Held me token key end (expire timer s)
  unfolding expire
  expire-Held timer spared = record {
    held = elim (Option-cases (get timer.key s.memory_leases)) [
      | inl missing ↦ rw (missing, expire) h.held
      | inr (lease, found) ↦ elim (Bool-cases (lease.token == timer.token)) [
        | inl same ↦
            let its = (string_eq.equal_iff lease.token timer.token).0 same in
            let other : timer.key ≢ key = λ is. spared is (
              sym its
              ∙ (subst (IsHeld me token key end) (ap (λ j. get j s.memory_leases) (sym is) ∙ found)
                  h.held).0) in
            rw (found, same, expire)
              (delete_other-IsHeld me token key end timer.key s.memory_leases other h.held)
        | inr different ↦ rw (found, different, expire) h.held
      ]
    ];
    timed = h.timed;
    owners = elim (Option-cases (get (timer.manager, timer.key) s.owned_leases)) [
      | inl missing ↦ rw (missing, expire) h.owners
      | inr (t, found) ↦ elim (Bool-cases (t == timer.token)) [
        | inl same ↦
            rw (found, same, expire)
              (All-delete (OwnerSpares me token key end) (timer.manager, timer.key) s.owned_leases
                h.owners)
        | inr different ↦ rw (found, different, expire) h.owners
      ]
    ];
  }

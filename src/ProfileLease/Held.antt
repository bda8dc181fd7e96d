-- ===== src/ProfileLease/Held.antt =====
-- What keeps a lease of `src/distributed/profile-lease.ts` in place until its end, and how the
-- parts of the managers' operations preserve it.
use Prim.Native.String.{String}
use browser_profile_studio.Prelude.{
  string_eq, nat_eq, pair_eq, list_beq_iff, All, Text, text_eq, ℕ, ◌≤◌, ◌<◌, ◌≡◌, sym, ap, ◌∙◌,
  subst, ◌≢◌, Option, none, some, arith,
}
use browser_profile_studio.Prelude.Map.{
  Map, get, set, delete, get-set_ne, get-delete, All-set, All-delete,
}
use browser_profile_studio.ProfileLease.{
  LeaseRecord, Timeout, Leases, clear_timeout, delete_lease, disown, set_lease, own,
}

module _ (me : ℕ) (token : String) where
  module _ (key : Text) (end : ℕ) where
    abbrev pub IsHeld : Option LeaseRecord → Type 0
    IsHeld none = ⊥
    IsHeld (some lease) = (lease.token ≡ token) × (end ≤ lease.expires_at)

    abbrev pub TimerSpares : ℕ × Timeout → Type 0
    TimerSpares (_, timer) = timer.key ≡ key → timer.token ≡ token → end ≤ timer.due

    abbrev pub OwnerSpares : (ℕ × Text) × String → Type 0
    OwnerSpares ((m, _), t) = t ≡ token → m ≡ me

    -- The lease is there, and no timer before its end and no other manager would delete it.
    pub record Holds (leases : Map Text LeaseRecord) (owned : Map (ℕ × Text) String)
        (timers : Map ℕ Timeout) : Type 0 where
      pub held : IsHeld (get key leases)
      pub timed : All TimerSpares timers
      pub owners : All OwnerSpares owned

    abbrev pub Held : Leases → Type 0
    Held s = Holds s.memory_leases s.owned_leases s.timers

    pub set_other-IsHeld :
        (k : Text) (lease : LeaseRecord) (leases : Map Text LeaseRecord)
        → k ≢ key
        → IsHeld (get key leases)
        → IsHeld (get key (set k lease leases))
    set_other-IsHeld k lease leases other held =
        subst IsHeld (sym (get-set_ne key k lease leases (ground (arith, list_beq_iff k key)))) held

    pub delete_other-IsHeld :
        (k : Text) (leases : Map Text LeaseRecord)
        → k ≢ key
        → IsHeld (get key leases)
        → IsHeld (get key (delete k leases))
    delete_other-IsHeld k leases other held =
        subst IsHeld (sym (ground (arith, list_beq_iff k key, get-delete key k leases))) held

    pub other_token :
        (k : Text) (s : Leases) {lease : LeaseRecord}
        → Held s
        → get k s.memory_leases ≡ some lease
        → lease.token ≢ token
        → k ≢ key
    other_token k s h found other same =
        other (subst IsHeld (ap (λ j. get j s.memory_leases) (sym same) ∙ found) h.held).0

    pub ended_lease :
        (k : Text) (s : Leases) {lease : LeaseRecord} (now : ℕ)
        → Held s
        → get k s.memory_leases ≡ some lease
        → now < end
        → lease.expires_at ≤ now
        → k ≢ key
    ended_lease k s {lease} now h found early late same =
        let kept = subst IsHeld (ap (λ j. get j s.memory_leases) (sym same) ∙ found) h.held in
        omega (arith, kept.1)

    pub no_lease : (k : Text) (s : Leases) → Held s → get k s.memory_leases ≡ none → k ≢ key
    no_lease k s h missing same =
        subst IsHeld (ap (λ j. get j s.memory_leases) (sym same) ∙ missing) h.held

    pub clear_timeout-Held : (timeout : ℕ) (s : Leases) → Held s → Held (clear_timeout timeout s)
    clear_timeout-Held timeout s h = record {
      held = h.held;
      timed = All-delete TimerSpares timeout s.timers h.timed;
      owners = h.owners;
    }

    pub disown-Held : (m : ℕ) (k : Text) (s : Leases) → Held s → Held (disown m k s)
    disown-Held m k s h = record {
      held = h.held;
      timed = h.timed;
      owners = All-delete OwnerSpares (m, k) s.owned_leases h.owners;
    }

    pub delete_lease-Held : (k : Text) (s : Leases) → k ≢ key → Held s → Held (delete_lease k s)
    delete_lease-Held k s other h = record {
      held = delete_other-IsHeld k s.memory_leases other h.held;
      timed = h.timed;
      owners = h.owners;
    }

    pub set_lease-Held :
        (ttl m now : ℕ) (k : Text) (t : String) (s : Leases)
        → k ≢ key
        → t ≢ token
        → Held s
        → Held (set_lease ttl m now k t s)
    set_lease-Held ttl m now k t s other new h = record {
      held = set_other-IsHeld k _ s.memory_leases other h.held;
      timed =
          All-set TimerSpares s.next_timer _ s.timers (λ j is elsewhere same. absurd (new same))
            h.timed;
      owners = h.owners;
    }

    pub own-Held :
        (m : ℕ) (k : Text) (t : String) (s : Leases) → t ≢ token → Held s → Held (own m k t s)
    own-Held m k t s new h = record {
      held = h.held;
      timed = h.timed;
      owners =
          All-set OwnerSpares (m, k) t s.owned_leases (λ j is same. absurd (new same)) h.owners;
    }

    -- What `acquire` does to a free profile.
    pub grant-Held :
        (ttl m now : ℕ) (k : Text) (t : String) (s : Leases)
        → k ≢ key
        → t ≢ token
        → Held s
        → Held (own m k t (set_lease ttl m now k t s))
    grant-Held ttl m now k t s other new h =
        own-Held m k t (set_lease ttl m now k t s) new (set_lease-Held ttl m now k t s other new h)

    -- What the deletion of a lease and its timer does.
    pub forget-Held :
        (k : Text) (timeout : ℕ) (s : Leases)
        → k ≢ key
        → Held s
        → Held (delete_lease k (clear_timeout timeout s))
    forget-Held k timeout s other h =
        delete_lease-Held k (clear_timeout timeout s) other (clear_timeout-Held timeout s h)

-- ===== src/ProfileLease/Fencing.antt =====
-- src/distributed/profile-lease.ts in use: the managers' calls and the timers of a process, in any
-- order.
use Prim.Native.String.{String}
use browser_profile_studio.Prelude.{
  ltb, Bool-cases, Option-cases, string_eq, nat_eq, ◌==◌, pair_eq, All, All-select, Text, text_eq,
  ℕ, ◌≤◌, ◌<◌, sym, ◌∙◌, ◌≢◌, inl, inr, List, [], ◌∷◌, arith,
}
use browser_profile_studio.Prelude.Map.{Map, get, All-get}
use browser_profile_studio.Prelude.Method.{final}
use browser_profile_studio.ProfileLease.{
  Leases, clear_timeout, acquire, renew, release, give_up, give_up_all, is_other, shutdown,
  run_timer,
}
use browser_profile_studio.ProfileLease.Held.{TimerSpares, OwnerSpares, Held, clear_timeout-Held}
use browser_profile_studio.ProfileLease.Exclusion.{
  acquire-Held, renew-Held, give_up-Held, release-Held, expire-Held,
}

-- What happens to the leases: a call of a manager, or the run of a timer.
pub data Event : Type 0 where
  acquires renews : ℕ → ℕ → String → Text → Text → Event
  releases : ℕ → String → Text → Text → Event
  shuts_down runs_timer : ℕ → Event

unfoldable pub step : ℕ → Event → Leases → Leases
step now (acquires ttl m token tenant profile) s = final (acquire ttl m now token tenant profile s)
step now (renews ttl m token tenant profile) s = final (renew ttl m now token tenant profile s)
step now (releases m token tenant profile) s = release m token tenant profile s
step now (shuts_down m) s = shutdown m s
step now (runs_timer timeout) s = run_timer timeout now s

unfoldable pub run : List (ℕ × Event) → Leases → Leases
run [] s = s
run ((now, event) ∷ events) s = run events (step now event s)

-- The event is not a call with the token, nor the shutdown of the manager that holds it.
abbrev pub Spares : ℕ → String → Event → Type 0
Spares me token (acquires ttl m t tenant profile) = t ≢ token
Spares me token (renews ttl m t tenant profile) = t ≢ token
Spares me token (releases m t tenant profile) = t ≢ token
Spares me token (shuts_down m) = m ≢ me
Spares me token (runs_timer timeout) = Unit

-- The events happen before the end of a lease, and none is of its holder.
abbrev pub WhileHeld : ℕ → String → ℕ → ℕ × Event → Type 0
WhileHeld me token end (now, event) = (now < end) × Spares me token event

module _ (me : ℕ) (token : String) (key : Text) (end : ℕ) where
  give_up_all-Held :
      (m : ℕ) (owned : Map (ℕ × Text) String) (s : Leases)
      → m ≢ me
      → All (OwnerSpares me token key end) owned
      → Held me token key end s
      → Held me token key end (give_up_all m owned s)
  unfolding give_up_all
  give_up_all-Held m [] s other o h = h
  give_up_all-Held m (((x, k), t) ∷ owned) s other o h = elim (Bool-cases (x == m)) [
    | inl his ↦
        let new : t ≢ token = λ same. other (sym ((nat_eq.equal_iff x m).0 his) ∙ o.0 same) in
        rw (his, give_up_all)
          (give_up_all-Held m owned (give_up k t s) other o.1
            (give_up-Held me token key end s h k t new))
    | inr not_his ↦ rw (not_his, give_up_all) (give_up_all-Held m owned s other o.1 h)
  ]

  shutdown-Held :
      (m : ℕ) (s : Leases) → m ≢ me → Held me token key end s → Held me token key end (shutdown m s)
  unfolding shutdown
  shutdown-Held m s other h =
      let left = give_up_all-Held m s.owned_leases s other h.owners h in
      record {
        held = left.held;
        timed = left.timed;
        owners =
            All-select (OwnerSpares me token key end) (is_other m)
              (give_up_all m s.owned_leases s).owned_leases left.owners;
      }

  run_timer-Held :
      (timeout now : ℕ) (s : Leases)
      → now < end
      → Held me token key end s
      → Held me token key end (run_timer timeout now s)
  unfolding run_timer
  run_timer-Held timeout now s early h = elim (Option-cases (get timeout s.timers)) [
    | inl missing ↦ rw (missing, run_timer) h
    | inr (timer, found) ↦ elim (Bool-cases (ltb now timer.due)) [
      | inl soon ↦ rw (found, soon, run_timer) h
      | inr due ↦
          let spares =
            All-get (TimerSpares me token key end) timeout timer s.timers found h.timed in
          let past : timer.due ≤ now = ground arith in
          rw (found, due, run_timer)
            (expire-Held me token key end (clear_timeout timeout s)
              (clear_timeout-Held me token key end timeout s h) timer
              (λ same its. omega (arith, spares.2 same its)))
    ]
  ]

  step-Held :
      (now : ℕ) (event : Event) (s : Leases)
      → WhileHeld me token end (now, event)
      → Held me token key end s
      → Held me token key end (step now event s)
  unfolding step
  step-Held now (acquires ttl m t tenant profile) s w h =
      acquire-Held me token key end s h ttl m now t tenant profile w.0 w.1
  step-Held now (renews ttl m t tenant profile) s w h =
      renew-Held me token key end s h ttl m now t tenant profile w.0 w.1
  step-Held now (releases m t tenant profile) s w h =
      release-Held me token key end s h m t tenant profile w.1
  step-Held now (shuts_down m) s w h = shutdown-Held m s w.1 h
  step-Held now (runs_timer timeout) s w h = run_timer-Held timeout now s w.0 h

  pub run-Held :
      (events : List (ℕ × Event)) (s : Leases)
      → All (WhileHeld me token end) events
      → Held me token key end s
      → Held me token key end (run events s)
  unfolding run
  run-Held [] s w h = h
  run-Held ((now, event) ∷ events) s w h =
      run-Held events (step now event s) w.1 (step-Held now event s w.0 h)

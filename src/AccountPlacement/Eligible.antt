-- ===== src/AccountPlacement/Eligible.antt =====
-- src/distributed/account-placement.ts: the worker that a new placement names.
use mathlib.Core.Option.{some-injective}
use browser_profile_studio.Prelude.{
  leb, Bool-cases, Option-cases, string_eq, nat_eq, bool_eq, ◌==◌, pair_eq, list_beq_iff, any,
  select, In, any-In, Text, text_eq, ℕ, ◌+◌, ◌≤◌, ◌<◌, ◌≡◌, refl, subst, ◌⊎◌, inl, inr, Bool, true,
  ◌&&◌, Option, none, some, List, [], ◌∷◌, arith,
}
use browser_profile_studio.Prelude.Map.{get}
use browser_profile_studio.AccountPlacement.Scope.{Result, ok, error, max_safe_integer}
use browser_profile_studio.AccountPlacement.Worker.{WorkerNode, Workers}
use browser_profile_studio.AccountPlacement.Store.{
  AccountPlacementRecord, Versioned, version_of, Result-cases,
}
use browser_profile_studio.AccountPlacement.Acquire.{
  Decision, keeps, places, is_of_tenant, is_alive, is_available, is_in_namespace, nodes,
  candidates_of, validate_placement_record, select_worker, selection_key, place, is_current,
  is_locked, replace, place_first, decide,
}
use browser_profile_studio.AccountPlacement.Selection.{
  select_everything, is_named, select_worker-passes, selected-available,
}

module _ (precedes : Text → Text → Bool) (timeout : ℕ) where
  -- The worker serves the tenant, or the tenant `*` and so all of them, and its heartbeat is at most the
  -- timeout ago.
  abbrev pub Serves : Text → ℕ → WorkerNode → Type 0
  Serves tenant now w =
      ((w.tenant_id ≡ 42 ∷ []) ⊎ (w.tenant_id ≡ tenant)) × (now ≤ w.last_heartbeat + timeout)

  -- The worker that a new record names.
  abbrev pub IsPlacedOn : Text → ℕ → AccountPlacementRecord → WorkerNode → Type 0
  IsPlacedOn tenant now next w =
      Serves tenant now w
      × (w.load < w.capacity)
      × (w.id ≡ next.worker_id)
      × (w.storage_namespace ≡ next.storage_namespace)

  serving :
      (tenant : Text) (now : ℕ) (w : WorkerNode)
      → is_of_tenant tenant w && is_alive timeout now w ≡ true
      → Serves tenant now w
  serving tenant now w h =
      ground (arith, h, list_beq_iff w.tenant_id (42 ∷ []), list_beq_iff w.tenant_id tenant)

  placed-IsPlacedOn :
      (tenant : Text) (now : ℕ) (next : AccountPlacementRecord) (ws : List WorkerNode)
      → any (λ w. is_available timeout now tenant w && is_named next w) ws ≡ true
      → (w : WorkerNode) × In w ws × IsPlacedOn tenant now next w
  placed-IsPlacedOn tenant now next ws there =
      let (w, among, fit) =
        any-In (λ w. is_available timeout now tenant w && is_named next w) ws there in
      (
        w,
        among,
        (
          serving tenant now w (ground arith),
          ground (arith, fit),
          (list_beq_iff w.id next.worker_id).0 (ground (arith, fit)),
          (list_beq_iff w.storage_namespace next.storage_namespace).0 (ground (arith, fit)),
        ),
      )

  -- What a decision says of the workers, the account's last placement and the namespace asked for.
  abbrev pub IsFit :
      Text → Text → Option Text → ℕ → Workers → Option Versioned → Result Decision → Type 0
  IsFit tenant account required now workers current (ok (places t a version next)) =
      ((w : WorkerNode) × In w (nodes workers) × IsPlacedOn tenant now next w)
      × (t ≡ tenant)
      × (a ≡ account)
      × (version ≡ version_of current)
      × ((namespace : Text) → required ≡ some namespace → next.storage_namespace ≡ namespace)
  IsFit tenant account required now workers current (ok (keeps worker generation)) =
      (w : WorkerNode) × (get worker workers ≡ some w) × Serves tenant now w
  IsFit tenant account required now workers current (error e) = Unit

  place-IsFit :
      (tenant account : Text) (required : Option Text) (now : ℕ) (workers : Workers)
      (current : Option Versioned) (generation : ℕ) (namespace : WorkerNode → Text)
      (q : WorkerNode → Bool)
      → ((w : WorkerNode) → q w ≡ true → w.storage_namespace ≡ namespace w)
      → ((w : WorkerNode) (n : Text) → required ≡ some n → namespace w ≡ n)
      → IsFit tenant account required now workers current (
          place precedes timeout tenant account
            (version_of current)
            generation
            namespace
            (select q (candidates_of timeout now tenant workers)))
  unfolding place candidates_of
  place-IsFit tenant account required now workers current generation namespace q within asked =
      let candidates = select q (candidates_of timeout now tenant workers) in
      let key = selection_key precedes timeout tenant account in
      elim (Option-cases (select_worker precedes timeout candidates key)) [
        | inl missing ↦ rw (missing, IsFit, place) tt
        | inr (w, found) ↦ elim (Bool-cases (leb generation max_safe_integer)) [
          | inr exhausted ↦ rw (found, exhausted, IsFit, place) tt
          | inl fits ↦
              let passes =
                select_worker-passes precedes timeout q (candidates_of timeout now tenant workers)
                  key w found in
              rw (found, fits, IsFit, place)
                (
                  placed-IsPlacedOn tenant now
                      (record {
                        worker_id = w.id;
                        storage_namespace = namespace w;
                        generation = generation;
                      })
                      (nodes workers)
                      (selected-available precedes timeout q
                        (λ v. v.id == w.id && v.storage_namespace == namespace w) now tenant workers
                        key w found
                        (ground (
                          arith,
                          list_beq_iff w.id w.id,
                          list_beq_iff w.storage_namespace (namespace w),
                          within w passes,
                        ))),
                  refl,
                  refl,
                  refl,
                  asked w,
                )
        ]
      ]

  current_worker :
      (tenant : Text) (now : ℕ) (workers : Workers) (value : AccountPlacementRecord)
      → is_current precedes timeout now tenant value.storage_namespace (get value.worker_id workers)
        ≡ true
      → (w : WorkerNode) × (get value.worker_id workers ≡ some w) × Serves tenant now w
  current_worker tenant now workers value kept = elim (Option-cases (get value.worker_id workers)) [
    | inl missing ↦ absurd (ground (arith, missing, kept))
    | inr (w, found) ↦ (w, found, serving tenant now w (ground (arith, found, kept)))
  ]

  replace-IsFit :
      (tenant account : Text) (required : Option Text) (now : ℕ) (workers : Workers)
      (current : Versioned) (value : AccountPlacementRecord)
      → IsFit tenant account required now workers
          (some current)
          (replace precedes timeout tenant account required now workers current.version value)
  unfolding replace
  replace-IsFit tenant account required now workers current value =
      let namespace = value.storage_namespace in
      elim (Bool-cases (is_locked precedes timeout namespace required)) [
        | inl locked ↦ rw (locked, IsFit, replace) tt
        | inr free ↦
            elim (Bool-cases
              (is_current precedes timeout now tenant namespace (get value.worker_id workers))) [
                | inl kept ↦
                    rw (free, kept, IsFit, replace) (current_worker tenant now workers value kept)
                | inr lost ↦
                    rw (free, lost, replace)
                      (place-IsFit tenant account required now workers (some current)
                        (value.generation + 1) (λ _. namespace) (is_in_namespace namespace)
                        (λ w h. (list_beq_iff w.storage_namespace namespace).0 h)
                        (λ w n asked. ground (arith, free, asked, list_beq_iff namespace n)))
              ]
      ]

  -- On every branch of `acquirePlacement` up to its write: if it keeps the worker that the account
  -- has, then it knows that worker, which is one of the tenant or of the tenant `*`, and whose
  -- heartbeat is at most the timeout ago. If it places the account anew, then the record names a
  -- known worker of the tenant or of `*`, with such a heartbeat, a load below its capacity and the
  -- record's namespace; the write is for the tenant and the account and expects the version that
  -- was read; and a namespace that was asked for is the record's. Of an error nothing is said.
  pub decide-IsFit :
      (tenant account : Text) (required : Option Text) (now : ℕ) (workers : Workers)
      (current : Option Versioned)
      → IsFit tenant account required now workers current
          (decide precedes timeout tenant account required now workers current)
  unfolding decide place_first
  decide-IsFit tenant account none now workers none =
      let free = candidates_of timeout now tenant workers in
      subst
        (λ ws.
          IsFit tenant account none now workers none
            (place precedes timeout tenant account 0 1 (λ worker. worker.storage_namespace) ws))
        (select_everything free)
        (place-IsFit tenant account none now workers none 1 (λ w. w.storage_namespace) (λ w. true)
          (λ w h. refl) (λ w n asked. absurd (ground arith)))
  decide-IsFit tenant account (some namespace) now workers none =
      place-IsFit tenant account (some namespace) now workers none 1 (λ _. namespace)
        (is_in_namespace namespace) (λ w h. (list_beq_iff w.storage_namespace namespace).0 h)
        (λ w n asked. some-injective namespace n asked)
  decide-IsFit tenant account required now workers (some current) =
      elim (Result-cases (validate_placement_record current.placement)) [
        | inl (value, valid) ↦
            rw (valid, decide) (replace-IsFit tenant account required now workers current value)
        | inr (e, corrupt) ↦ rw (corrupt, IsFit, decide) tt
      ]

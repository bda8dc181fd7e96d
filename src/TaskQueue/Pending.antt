-- ===== src/TaskQueue/Pending.antt =====
-- src/distributed/queue-adapter.ts hands a queued task out once: no key waits twice, and what
-- `dequeueTask` takes no longer waits.
use browser_profile_studio.Prelude.{
  Bool-cases, string_eq, nat_eq, bool_eq, ◌==◌, pair_beq_iff, pair_eq, select, Text, text_eq, ◌≡◌,
  refl, subst, ◌⊎◌, inl, inr, Bool, true, false, not, ◌||◌, Option, none, some, List, [], ◌∷◌, ◌++◌,
  arith,
}
use browser_profile_studio.Prelude.Map.{Map, get}
use browser_profile_studio.TaskQueue.Task.{TaskState, TaskRecord, is_waiting}
use browser_profile_studio.TaskQueue.Queue.{
  Key, includes, requeue, Visit, drop_entry, skip_entry, take_entry, visit, scan,
}

abbrev pub Unique : List Key → Type 0
Unique [] = Unit
Unique (k ∷ keys) = (includes k keys ≡ false) × Unique keys

includes-snoc :
    (j k : Key) (keys : List Key) → includes j (keys ++ k ∷ []) ≡ includes j keys || k == j
includes-snoc j k [] = ground arith
includes-snoc j k (i ∷ keys) = ground (arith, includes-snoc j k keys)

snoc-Unique :
    (k : Key) (keys : List Key) → includes k keys ≡ false → Unique keys → Unique (keys ++ k ∷ [])
snoc-Unique k [] new u = (refl, tt)
snoc-Unique k (i ∷ keys) new u = (
  ground (arith, includes-snoc i k keys, pair_beq_iff i k, pair_beq_iff k i),
  snoc-Unique k keys (ground arith) u.1,
)

includes-select :
    (p : Key → Bool) (j : Key) (keys : List Key)
    → includes j keys ≡ false
    → includes j (select p keys) ≡ false
includes-select p j [] h = refl
includes-select p j (k ∷ keys) h = ground (arith, includes-select p j keys)

pub select-Unique : (p : Key → Bool) (keys : List Key) → Unique keys → Unique (select p keys)
select-Unique p [] u = tt
select-Unique p (k ∷ keys) u = elim (Bool-cases (p k)) [
  | inl kept ↦ rw kept (includes-select p k keys u.0, select-Unique p keys u.1)
  | inr left ↦ rw left (select-Unique p keys u.1)
]

pub requeue-Unique :
    (k : Key) (state : TaskState) (keys : List Key) → Unique keys → Unique (requeue k state keys)
unfolding requeue
requeue-Unique k state keys u = elim (Bool-cases (is_waiting state)) [
  | inl waits ↦ elim (Bool-cases (includes k keys)) [
    | inl there ↦ rw (waits, there) u
    | inr new ↦ rw (waits, new) (snoc-Unique k keys new u)
  ]
  | inr done ↦ rw done (select-Unique (λ j. not (j == k)) keys u)
]

pub Visit-cases :
    (v : Visit)
    → (v ≡ drop_entry) ⊎ (v ≡ skip_entry) ⊎ ((task : TaskRecord) × (v ≡ take_entry task))
Visit-cases drop_entry = inl refl
Visit-cases skip_entry = inr (inl refl)
Visit-cases (take_entry task) = inr (inr (task, refl))

module _ (worker tenant : Text) (tasks : Map Key TaskRecord) where
  -- What a search through the queue leaves of a key that is not in it, and of the one it takes.
  scan-includes :
      (j : Key) (keys : List Key)
      → includes j keys ≡ false
      → includes j (scan worker tenant tasks keys).0 ≡ false
  unfolding scan
  scan-includes j [] h = refl
  scan-includes j (k ∷ keys) h = ground (arith, scan-includes j keys)

  pub scan-Unique : (keys : List Key) → Unique keys → Unique (scan worker tenant tasks keys).0
  unfolding scan
  scan-Unique [] u = tt
  scan-Unique (k ∷ keys) u = ground (arith, scan-Unique keys u.1, scan-includes k keys u.0)

  -- The key is taken out of the queue, with its task.
  abbrev pub IsTaken : List Key → List Key × Option (Key × TaskRecord) → Type 0
  IsTaken keys (left, none) = Unit
  IsTaken keys (left, some (k, task)) =
      (includes k left ≡ false) × (includes k keys ≡ true) × (get k tasks ≡ some task)

  kept-IsTaken :
      (k : Key) (keys : List Key) (found : List Key × Option (Key × TaskRecord))
      → includes k keys ≡ false
      → IsTaken keys found
      → IsTaken (k ∷ keys) (k ∷ found.0, found.1)
  kept-IsTaken k keys (left, none) new h = tt
  kept-IsTaken k keys (left, some (j, task)) new h = (
    elim (Bool-cases (k == j)) [
      | inl same ↦
          let is = (pair_beq_iff k j).0 same in
          absurd (ground (arith, h.1, subst (λ i. includes i keys ≡ false) is new))
      | inr other ↦ ground (arith, other, h.0)
    ],
    ground (arith, h.1),
    h.2,
  )

  dropped-IsTaken :
      (k : Key) (keys : List Key) (found : List Key × Option (Key × TaskRecord))
      → IsTaken keys found
      → IsTaken (k ∷ keys) found
  dropped-IsTaken k keys (left, none) h = tt
  dropped-IsTaken k keys (left, some (j, task)) h = (h.0, ground (arith, h.1), h.2)

  visit-take_entry :
      (stored : Option TaskRecord) (task : TaskRecord)
      → visit worker stored ≡ take_entry task
      → stored ≡ some task
  unfolding visit
  visit-take_entry none task h = ground arith
  visit-take_entry (some other) task h = ground (arith, h)

  pub scan-IsTaken : (keys : List Key) → Unique keys → IsTaken keys (scan worker tenant tasks keys)
  unfolding scan
  scan-IsTaken [] u = tt
  scan-IsTaken (k ∷ keys) u =
      let rest = scan worker tenant tasks keys in
      let found = scan-IsTaken keys u.1 in
      let kept = kept-IsTaken k keys rest u.0 found in
      elim (Bool-cases (k.0 == tenant)) [
        | inr foreign ↦ rw (foreign, scan) kept
        | inl own ↦ elim (Visit-cases (visit worker (get k tasks))) [
          | inl dropped ↦ rw (own, dropped, scan) (dropped-IsTaken k keys rest found)
          | inr (inl skipped) ↦ rw (own, skipped, scan) kept
          | inr (inr (task, taken)) ↦
              rw (own, taken, scan)
                (u.0, ground (arith, pair_beq_iff k k), visit-take_entry (get k tasks) task taken)
        ]
      ]

-- ===== src/TaskQueue/Loop.antt =====
-- src/distributed/queue-adapter.ts: the loop of `dequeueTask` as it is written, with its restarts,
-- and that it ends with what `scan` of Queue.antt returns.
use mathlib.Core.List.{append-nil, append_assoc}
use browser_profile_studio.Prelude.{
  if◌then◌else◌, Bool-cases, string_eq, nat_eq, bool_eq, ◌==◌, pair_eq, length, length-append, Text,
  text_eq, ℕ, zero, suc, ◌+◌, ◌≤◌, ◌<◌, ◌≡◌, refl, sym, ap, ◌∙◌, inl, inr, Option, none, some, List,
  [], ◌∷◌, ◌++◌, arith,
}
use browser_profile_studio.Prelude.Map.{Map, get}
use browser_profile_studio.TaskQueue.Task.{TaskRecord}
use browser_profile_studio.TaskQueue.Pending.{Visit-cases}
use browser_profile_studio.TaskQueue.Queue.{
  Key, Visit, drop_entry, skip_entry, take_entry, visit, scan,
}

-- What `findIndex` and the loop do at an entry: an entry of another tenant is passed over.
unfoldable pub look : Text → Text → Map Key TaskRecord → Key → Visit
look worker tenant tasks key = if key.0 == tenant then visit worker (get key tasks) else skip_entry

-- The queue is cut before `queueIndex`: `before` has the entries that the search has passed, in
-- their order. Once an entry is spliced out, the search starts at the first entry again. `none`
-- means that the fuel ran out.
unfoldable pub dequeue_loop :
    ℕ
    → Text
    → Text
    → Map Key TaskRecord
    → List Key
    → List Key
    → Option (List Key × Option (Key × TaskRecord))
dequeue_loop zero worker tenant tasks before keys = none
dequeue_loop (suc fuel) worker tenant tasks before [] = some (before, none)
dequeue_loop (suc fuel) worker tenant tasks before (key ∷ keys) =
    elim (look worker tenant tasks key) [
      | drop_entry ↦ dequeue_loop fuel worker tenant tasks [] (before ++ keys)
      | skip_entry ↦ dequeue_loop fuel worker tenant tasks (before ++ key ∷ []) keys
      | take_entry task ↦ some (before ++ keys, some (key, task))
    ]

-- The steps of all the searches through a queue of `n` entries that loses one before each.
abbrev pub restarts : ℕ → ℕ
restarts zero = 0
restarts (suc n) = suc n + restarts n

abbrev pub enough_fuel : ℕ → ℕ
enough_fuel n = suc (n + restarts n)

restarts-suc : (n m : ℕ) → n ≡ suc m → restarts n ≡ suc m + restarts m
restarts-suc n m h = ap restarts h

module _ (worker tenant : Text) (tasks : Map Key TaskRecord) where
  -- The search passes every entry.
  abbrev IsPassed : List Key → Type 0
  IsPassed [] = Unit
  IsPassed (k ∷ keys) = (look worker tenant tasks k ≡ skip_entry) × IsPassed keys

  snoc-IsPassed :
      (before : List Key) (k : Key)
      → IsPassed before
      → look worker tenant tasks k ≡ skip_entry
      → IsPassed (before ++ k ∷ [])
  snoc-IsPassed [] k p h = (h, tt)
  snoc-IsPassed (j ∷ before) k p h = (p.0, snoc-IsPassed before k p.1 h)

  -- `scan` by what the loop does at the first entry.
  abbrev scanned : Key → List Key → Visit → List Key × Option (Key × TaskRecord)
  scanned k keys drop_entry = scan worker tenant tasks keys
  scanned k keys skip_entry =
      (k ∷ (scan worker tenant tasks keys).0, (scan worker tenant tasks keys).1)
  scanned k keys (take_entry task) = (keys, some (k, task))

  scan-look :
      (k : Key) (keys : List Key)
      → scan worker tenant tasks (k ∷ keys) ≡ scanned k keys (look worker tenant tasks k)
  unfolding scan look
  scan-look k keys = elim (Bool-cases (k.0 == tenant)) [
    | inl own ↦ elim (Visit-cases (visit worker (get k tasks))) [
      | inl dropped ↦ rw (own, dropped) refl
      | inr (inl skipped) ↦ rw (own, skipped) refl
      | inr (inr (task, taken)) ↦ rw (own, taken) refl
    ]
    | inr foreign ↦ rw foreign refl
  ]

  scan-passed :
      (before keys : List Key)
      → IsPassed before
      → scan worker tenant tasks (before ++ keys)
        ≡ (before ++ (scan worker tenant tasks keys).0, (scan worker tenant tasks keys).1)
  scan-passed [] keys p = refl
  scan-passed (k ∷ before) keys p =
      rw (scan-look k (before ++ keys), p.0, scan-passed before keys p.1) refl

  scan-passed_all :
      (before : List Key)
      → IsPassed before
      → scan worker tenant tasks (before ++ []) ≡ (before, none)
  unfolding scan
  scan-passed_all before p = scan-passed before [] p ∙ ap (λ l. (l, none)) (append-nil before)

  pub dequeue_loop-passed :
      (fuel : ℕ) (before keys : List Key)
      → IsPassed before
      → length keys + restarts (length (before ++ keys)) < fuel
      → dequeue_loop fuel worker tenant tasks before keys
        ≡ some (scan worker tenant tasks (before ++ keys))
  unfolding dequeue_loop
  dequeue_loop-passed zero before keys p h = absurd (omega arith)
  dequeue_loop-passed (suc fuel) before [] p h = ap some (sym (scan-passed_all before p))
  dequeue_loop-passed (suc fuel) before (k ∷ keys) p h =
      elim (Visit-cases (look worker tenant tasks k)) [
        | inl dropped ↦
            rw (dropped, dequeue_loop, scan-passed before (k ∷ keys) p, scan-look k keys, dropped)
              (dequeue_loop-passed fuel [] (before ++ keys) tt (
                  omega (
                    arith,
                    h,
                    length-append before keys,
                    restarts-suc (length (before ++ k ∷ keys)) (length (before ++ keys))
                        (omega (arith, length-append before keys, length-append before (k ∷ keys))),
                  ))
                ∙ ap some (scan-passed before keys p))
        | inr (inl skipped) ↦
            rw (skipped, dequeue_loop, sym (append_assoc before (k ∷ []) keys))
              (dequeue_loop-passed fuel (before ++ k ∷ []) keys (snoc-IsPassed before k p skipped)
                (rw (append_assoc before (k ∷ []) keys) (omega (arith, h))))
        | inr (inr (task, taken)) ↦
            rw (taken, dequeue_loop, scan-passed before (k ∷ keys) p, scan-look k keys, taken) refl
      ]

  -- With fuel for every search the loop of `dequeueTask` ends, whatever it drops and passes over,
  -- and it leaves the entries and finds the task that one pass over the queue does.
  pub dequeue_loop-scan :
      (keys : List Key) (fuel : ℕ)
      → enough_fuel (length keys) ≤ fuel
      → dequeue_loop fuel worker tenant tasks [] keys ≡ some (scan worker tenant tasks keys)
  dequeue_loop-scan keys fuel h = dequeue_loop-passed fuel [] keys tt (omega (arith, h))

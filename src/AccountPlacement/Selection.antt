-- ===== src/AccountPlacement/Selection.antt =====
-- src/distributed/account-placement.ts: what passes the filters, the sort and the choice of a worker.
use browser_profile_studio.Prelude.{
  Bool-cases, string_eq, nat_eq, ◌==◌, pair_eq, length, get_elem?, any, select, Text, text_eq, ℕ,
  zero, suc, ◌%◌, ◌≡◌, refl, sym, ap, ◌∙◌, inl, inr, Bool, true, false, not, ◌&&◌, ◌||◌, some, List,
  [], ◌∷◌, arith,
}
use browser_profile_studio.AccountPlacement.Worker.{WorkerNode, Workers}
use browser_profile_studio.AccountPlacement.Store.{AccountPlacementRecord}
use browser_profile_studio.AccountPlacement.Acquire.{
  fnv_offset, hash_from, is_available, nodes, candidates_of, insert_worker, sort_workers,
  select_worker,
}

pub any-select :
    (p q : WorkerNode → Bool) (ws : List WorkerNode)
    → any p (select q ws) ≡ any (λ w. q w && p w) ws
any-select p q [] = refl
any-select p q (w ∷ ws) = ground (arith, any-select p q ws)

any-get_elem? :
    (p : WorkerNode → Bool) (ws : List WorkerNode) (n : ℕ) (w : WorkerNode)
    → get_elem? ws n ≡ some w
    → p w ≡ true
    → any p ws ≡ true
any-get_elem? p [] n w found h = absurd (ground arith)
any-get_elem? p (v ∷ ws) zero w found h = ground arith
any-get_elem? p (v ∷ ws) (suc n) w found h = ground (arith, any-get_elem? p ws n w found h)

any-false :
    (p : WorkerNode → Bool) (ws : List WorkerNode)
    → ((w : WorkerNode) → p w ≡ false)
    → any p ws ≡ false
any-false p [] h = refl
any-false p (w ∷ ws) h = ground (arith, h w, any-false p ws h)

any_mono :
    (p q : WorkerNode → Bool) (ws : List WorkerNode)
    → ((w : WorkerNode) → p w ≡ true → q w ≡ true)
    → any p ws ≡ true
    → any q ws ≡ true
any_mono p q [] h there = absurd (ground arith)
any_mono p q (w ∷ ws) h there = elim (Bool-cases (p w)) [
  | inl here ↦ ground (arith, h w here)
  | inr elsewhere ↦ ground (arith, any_mono p q ws h, elsewhere)
]

pub select_everything : (ws : List WorkerNode) → select (λ w. true) ws ≡ ws
select_everything [] = refl
select_everything (w ∷ ws) = ap (λ rest. w ∷ rest) (select_everything ws)

-- The worker has the record's id and lives in its namespace.
abbrev pub is_named : AccountPlacementRecord → WorkerNode → Bool
is_named next worker =
    worker.id == next.worker_id && worker.storage_namespace == next.storage_namespace

module _ (precedes : Text → Text → Bool) (timeout : ℕ) where
  any-insert_worker :
      (p : WorkerNode → Bool) (w : WorkerNode) (ws : List WorkerNode)
      → any p (insert_worker precedes timeout w ws) ≡ p w || any p ws
  unfolding insert_worker
  any-insert_worker p w [] = refl
  any-insert_worker p w (v ∷ ws) = ground (arith, any-insert_worker p w ws)

  any-sort_workers :
      (p : WorkerNode → Bool) (ws : List WorkerNode)
      → any p (sort_workers precedes timeout ws) ≡ any p ws
  unfolding sort_workers
  any-sort_workers p [] = refl
  any-sort_workers p (w ∷ ws) =
      ground
        (arith, any-insert_worker p w (sort_workers precedes timeout ws), any-sort_workers p ws)

  pub any-select_worker :
      (p : WorkerNode → Bool) (ws : List WorkerNode) (key : Text) (w : WorkerNode)
      → select_worker precedes timeout ws key ≡ some w
      → p w ≡ true
      → any p ws ≡ true
  unfolding select_worker
  any-select_worker p ws key w found h =
      sym (any-sort_workers p ws)
      ∙ any-get_elem? p (sort_workers precedes timeout ws) (hash_from fnv_offset key % length ws) w
          found h

  -- A worker that is selected passes the filter.
  pub select_worker-passes :
      (q : WorkerNode → Bool) (ws : List WorkerNode) (key : Text) (w : WorkerNode)
      → select_worker precedes timeout (select q ws) key ≡ some w
      → q w ≡ true
  select_worker-passes q ws key w found = elim (Bool-cases (q w)) [
    | inl passes ↦ passes
    | inr fails ↦
        let p = λ (v : WorkerNode). not (q v) in
        let there = any-select_worker p (select q ws) key w found (ground arith) in
        let never = any-false (λ v. q v && not (q v)) ws (λ v. ground arith) in
        absurd (ground (arith, there, never, any-select p q ws))
  ]

  pub selected-available :
      (q named : WorkerNode → Bool) (now : ℕ) (tenant : Text) (workers : Workers) (key : Text)
      (w : WorkerNode)
      → select_worker precedes timeout (select q (candidates_of timeout now tenant workers)) key
        ≡ some w
      → named w ≡ true
      → any (λ v. is_available timeout now tenant v && named v) (nodes workers) ≡ true
  unfolding candidates_of
  selected-available q named now tenant workers key w found is =
      let free = select (is_available timeout now tenant) (nodes workers) in
      let chosen = any-select_worker named (select q free) key w found is in
      let passing = sym (any-select named q free) ∙ chosen in
      let available =
        sym (any-select (λ v. q v && named v) (is_available timeout now tenant) (nodes workers))
        ∙ passing in
      any_mono (λ v. is_available timeout now tenant v && (q v && named v))
        (λ v. is_available timeout now tenant v && named v) (nodes workers) (λ v both. ground arith)
        available

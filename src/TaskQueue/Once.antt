-- ===== src/TaskQueue/Once.antt =====
-- src/distributed/queue-adapter.ts: every entry of the queue is handed out at most once.
use Prim.Native.String.{String}
use browser_profile_studio.Prelude.{
  Bool-cases, string_eq, nat_eq, pair_eq, All, Text, text_eq, ℕ, ◌≡◌, refl, sym, ap, ◌∙◌, subst,
  inl, inr, false, Option, none, some, List, [], ◌∷◌,
}
use browser_profile_studio.Prelude.Map.{Map, get, set, get-set_self, All-set, All-get}
use browser_profile_studio.Prelude.Method.{Outcome, returns, throws, final}
use browser_profile_studio.TaskQueue.Task.{TaskRecord, is_tenant_id}
use browser_profile_studio.TaskQueue.Queue.{
  QueueError, Key, Queue, empty, Call, in_tenant, key_of, owns_lease, includes, enqueue_task,
  enqueue_batch, update_task, scan, leased_task, hand_out, dequeue_task,
}
use browser_profile_studio.TaskQueue.Leases.{
  Event, enqueues, updates, renews, enqueues_batch, dequeues, beats, claims, sees, marks, frees,
  step, run, Keeps, renew-Keeps, beat-Keeps, claim_urls-Keeps, is_url_seen-Keeps,
  mark_url_seen-Keeps, release_urls-Keeps,
}
use browser_profile_studio.TaskQueue.Pending.{
  Unique, requeue-Unique, scan-Unique, IsTaken, scan-IsTaken,
}

-- A record stands under its own key.
abbrev pub IsKeyed : Key × TaskRecord → Type 0
IsKeyed (k, task) = key_of task ≡ k

abbrev pub InOrder : Queue → Type 0
InOrder s = Unique s.pending_queue × All IsKeyed s.tasks

set-IsKeyed :
    (k : Key) (task : TaskRecord) (tasks : Map Key TaskRecord)
    → key_of task ≡ k
    → All IsKeyed tasks
    → All IsKeyed (set k task tasks)
set-IsKeyed k task tasks own h = All-set IsKeyed k task tasks (λ j same. own ∙ sym same) h

Keeps-InOrder : (s t : Queue) → Keeps s t → InOrder s → InOrder t
Keeps-InOrder s t (same_tasks, same_queue) h =
    (subst Unique (sym same_queue) h.0, subst (λ m. All IsKeyed m) (sym same_tasks) h.1)

in_tenant-InOrder :
    {A : Type 0} (tenant : Text) (rest : Text → Call A) (s : Queue)
    → InOrder s
    → ((t : Text) → InOrder (final (rest t s)))
    → InOrder (final (in_tenant tenant rest s))
unfolding in_tenant
in_tenant-InOrder tenant rest s h kept = elim (Bool-cases (is_tenant_id tenant)) [
  | inl valid ↦ rw (valid, final, in_tenant) (kept tenant)
  | inr bad ↦ rw (bad, final, in_tenant) h
]

enqueue_task-InOrder :
    (task : TaskRecord) (s : Queue) → InOrder s → InOrder (final (enqueue_task task s))
unfolding enqueue_task
enqueue_task-InOrder task s h =
    let k = key_of task in
    in_tenant-InOrder task.tenant_id _ s h (λ t.
      elim (Bool-cases (owns_lease (get k s.tasks) task)) [
        | inl owns ↦
            rw (owns, final)
              (
                requeue-Unique k task.task_state s.pending_queue h.0,
                set-IsKeyed k task s.tasks refl h.1,
              )
        | inr lost ↦ rw (lost, final) h
      ])

update_task-InOrder :
    (task : TaskRecord) (s : Queue) → InOrder s → InOrder (final (update_task task s))
unfolding update_task
update_task-InOrder task s h =
    let k = key_of task in
    in_tenant-InOrder task.tenant_id _ s h (λ t.
      elim (Bool-cases (owns_lease (get k s.tasks) task)) [
        | inl owns ↦ rw (owns, final) (h.0, set-IsKeyed k task s.tasks refl h.1)
        | inr lost ↦ rw (lost, final) h
      ])

-- What a handed out task leaves: its key does not wait, and its record is the one handed out.
abbrev pub IsHandedOut : ℕ → Text → String → Outcome QueueError Queue (Option TaskRecord) → Type 0
IsHandedOut now worker lease (returns (some task) t) =
    (includes (key_of task) t.pending_queue ≡ false)
    × (get (key_of task) t.tasks ≡ some task)
    × (task.lease_id ≡ some lease)
    × (task.worker_id ≡ some worker)
IsHandedOut now worker lease _ = Unit

hand_out-InOrder :
    (now : ℕ) (worker tenant : Text) (lease : String) (keys : List Key)
    (found : List Key × Option (Key × TaskRecord)) (s : Queue)
    → IsTaken worker tenant s.tasks keys found
    → Unique found.0
    → All IsKeyed s.tasks
    → InOrder (final (hand_out now worker lease found s))
      × IsHandedOut now worker lease (hand_out now worker lease found s)
hand_out-InOrder now worker tenant lease keys (left, none) s h u keyed = ((u, keyed), tt)
hand_out-InOrder now worker tenant lease keys (left, some (k, task)) s h u keyed =
    let (j, is, own) = All-get IsKeyed k task s.tasks h.2 keyed in
    let mine : key_of task ≡ k = own ∙ is in
    let leased = leased_task now worker lease task in
    (
      (u, set-IsKeyed k leased s.tasks mine keyed),
      (
        subst (λ i. includes i left ≡ false) (sym mine) h.0,
        ap (λ i. get i (set k leased s.tasks)) mine ∙ get-set_self k leased s.tasks,
        refl,
        refl,
      ),
    )

dequeue_task-InOrder :
    (now : ℕ) (lease : String) (worker tenant : Text) (s : Queue)
    → InOrder s
    → InOrder (final (dequeue_task now lease worker tenant s))
      × IsHandedOut now worker lease (dequeue_task now lease worker tenant s)
unfolding dequeue_task in_tenant
dequeue_task-InOrder now lease worker tenant s h = elim (Bool-cases (is_tenant_id tenant)) [
  | inl valid ↦
      rw (valid, final, dequeue_task, in_tenant)
        (hand_out-InOrder now worker tenant lease s.pending_queue
          (scan worker tenant s.tasks s.pending_queue) s
          (scan-IsTaken worker tenant s.tasks s.pending_queue h.0)
          (scan-Unique worker tenant s.tasks s.pending_queue h.0) h.1)
  | inr bad ↦ rw (bad, final, dequeue_task, in_tenant) (h, tt)
]

batch-InOrder :
    (o : Outcome QueueError Queue (Unit {0})) (next : Call (Unit {0}))
    → InOrder (final o)
    → ((t : Queue) → InOrder t → InOrder (final (next t)))
    → InOrder (final {S = Queue} (elim o [ returns _ t ↦ next t | throws e t ↦ throws e t ]))
batch-InOrder (returns _ t) next h kept = kept t h
batch-InOrder (throws e t) next h kept = h

enqueue_batch-InOrder :
    (tasks : List TaskRecord) (s : Queue) → InOrder s → InOrder (final (enqueue_batch tasks s))
unfolding enqueue_batch
enqueue_batch-InOrder [] s h = h
enqueue_batch-InOrder (task ∷ tasks) s h =
    batch-InOrder (enqueue_task task s) (enqueue_batch tasks) (enqueue_task-InOrder task s h)
      (enqueue_batch-InOrder tasks)

step-InOrder : (event : Event) (s : Queue) → InOrder s → InOrder (step event s)
unfolding step
step-InOrder (enqueues task) s h = enqueue_task-InOrder task s h
step-InOrder (updates task) s h = update_task-InOrder task s h
step-InOrder (enqueues_batch tasks) s h = enqueue_batch-InOrder tasks s h
step-InOrder (dequeues now lease worker tenant) s h =
    (dequeue_task-InOrder now lease worker tenant s h).0
step-InOrder (renews task) s h = Keeps-InOrder s (step (renews task) s) (renew-Keeps task s) h
step-InOrder (beats now worker) s h =
    Keeps-InOrder s (step (beats now worker) s) (beat-Keeps now worker s) h
step-InOrder (claims now urls ttl tenant) s h =
    Keeps-InOrder s (step (claims now urls ttl tenant) s) (claim_urls-Keeps now urls ttl tenant s) h
step-InOrder (sees now url tenant) s h =
    Keeps-InOrder s (step (sees now url tenant) s) (is_url_seen-Keeps now url tenant s) h
step-InOrder (marks now url ttl tenant) s h =
    Keeps-InOrder s (step (marks now url ttl tenant) s) (mark_url_seen-Keeps now url ttl tenant s) h
step-InOrder (frees urls tenant) s h =
    Keeps-InOrder s (step (frees urls tenant) s) (release_urls-Keeps urls tenant s) h

run-InOrder : (events : List Event) (s : Queue) → InOrder s → InOrder (run events s)
unfolding run
run-InOrder [] s h = h
run-InOrder (event ∷ events) s h = run-InOrder events (step event s) (step-InOrder event s h)

-- From the empty queue on, whatever calls but `close` are made: no key waits twice in the queue, every
-- record stands under its own tenant and id, and if the next `dequeueTask` hands a task out, then the
-- task's key waits no longer and its record is the one that was handed out, under the new lease and
-- the worker that asked.
pub run-IsHandedOut_once :
    (events : List Event) (now : ℕ) (lease : String) (worker tenant : Text)
    → InOrder (run events empty)
      × IsHandedOut now worker lease (dequeue_task now lease worker tenant (run events empty))
run-IsHandedOut_once events now lease worker tenant =
    let h = run-InOrder events empty (tt, tt) in
    (h, (dequeue_task-InOrder now lease worker tenant (run events empty) h).1)

-- ===== src/TaskQueue/Leases.antt =====
-- The calls of src/distributed/queue-adapter.ts in any order, and the lease under which a task's
-- record stands.
use Prim.Native.String.{String}
use browser_profile_studio.Prelude.{
  Bool-cases, string_eq, nat_eq, ◌==◌, pair_beq_iff, pair_eq, option_beq_iff, All, Text, text_eq, ℕ,
  ◌≡◌, refl, sym, ap, ◌∙◌, subst, ◌≢◌, inl, inr, true, Option, none, some, List, [], ◌∷◌, arith,
}
use browser_profile_studio.Prelude.Map.{Map, get, set, get-set_self, get-set_ne}
use browser_profile_studio.Prelude.Method.{Outcome, returns, throws, final}
use browser_profile_studio.TaskQueue.Task.{TaskRecord, is_tenant_id}
use browser_profile_studio.TaskQueue.Queue.{
  QueueError, WorkerNodeInfo, Key, Queue, Call, in_tenant, key_of, owns_lease, enqueue_task,
  enqueue_batch, update_task, scan, leased_task, hand_out, dequeue_task,
}
use browser_profile_studio.TaskQueue.Reads.{renew_task_lease, update_worker_heartbeat}
use browser_profile_studio.TaskQueue.Urls.{is_url_seen, claim_urls, release_urls, mark_url_seen}

-- A call of the adapter other than `close`, which drops every task.
pub data Event : Type 0 where
  enqueues updates renews : TaskRecord → Event
  enqueues_batch : List TaskRecord → Event
  dequeues : ℕ → String → Text → Text → Event
  beats : ℕ → WorkerNodeInfo → Event
  claims : ℕ → List Text → ℕ → Text → Event
  sees : ℕ → Text → Text → Event
  marks : ℕ → Text → ℕ → Text → Event
  frees : List Text → Text → Event

unfoldable pub step : Event → Queue → Queue
step (enqueues task) s = final (enqueue_task task s)
step (updates task) s = final (update_task task s)
step (renews task) s = final (renew_task_lease task s)
step (enqueues_batch tasks) s = final (enqueue_batch tasks s)
step (dequeues now lease worker tenant) s = final (dequeue_task now lease worker tenant s)
step (beats now worker) s = final (update_worker_heartbeat now worker s)
step (claims now urls ttl tenant) s = final (claim_urls now urls ttl tenant s)
step (sees now url tenant) s = final (is_url_seen now url tenant s)
step (marks now url ttl tenant) s = final (mark_url_seen now url ttl tenant s)
step (frees urls tenant) s = final (release_urls urls tenant s)

unfoldable pub run : List Event → Queue → Queue
run [] s = s
run (event ∷ events) s = run events (step event s)

-- No later lease gets the id of the old one again.
abbrev pub IssuesOther : String → Event → Type 0
IssuesOther old (dequeues now lease worker tenant) = lease ≢ old
IssuesOther old _ = Unit

-- The tasks and their order stay.
abbrev pub Keeps : Queue → Queue → Type 0
Keeps s t = (t.tasks ≡ s.tasks) × (t.pending_queue ≡ s.pending_queue)

pub renew-Keeps : (task : TaskRecord) (s : Queue) → Keeps s (final (renew_task_lease task s))
unfolding renew_task_lease in_tenant
renew-Keeps task s = ground arith

pub beat-Keeps :
    (now : ℕ) (worker : WorkerNodeInfo) (s : Queue)
    → Keeps s (final (update_worker_heartbeat now worker s))
unfolding update_worker_heartbeat in_tenant
beat-Keeps now worker s = ground arith

pub claim_urls-Keeps :
    (now : ℕ) (urls : List Text) (ttl : ℕ) (tenant : Text) (s : Queue)
    → Keeps s (final (claim_urls now urls ttl tenant s))
unfolding claim_urls in_tenant
claim_urls-Keeps now urls ttl tenant s = ground arith

pub is_url_seen-Keeps :
    (now : ℕ) (url tenant : Text) (s : Queue) → Keeps s (final (is_url_seen now url tenant s))
unfolding is_url_seen in_tenant
is_url_seen-Keeps now url tenant s = ground arith

pub mark_url_seen-Keeps :
    (now : ℕ) (url : Text) (ttl : ℕ) (tenant : Text) (s : Queue)
    → Keeps s (final (mark_url_seen now url ttl tenant s))
unfolding mark_url_seen in_tenant
mark_url_seen-Keeps now url ttl tenant s = ground arith

pub release_urls-Keeps :
    (urls : List Text) (tenant : Text) (s : Queue) → Keeps s (final (release_urls urls tenant s))
unfolding release_urls in_tenant
release_urls-Keeps [] tenant s = (refl, refl)
release_urls-Keeps (url ∷ urls) tenant s = ground arith

module _ (old : String) (key : Key) where
  abbrev pub IsSuperseded : Option TaskRecord → Type 0
  IsSuperseded none = ⊥
  IsSuperseded (some task) = (lease : String) × (task.lease_id ≡ some lease) × (lease ≢ old)

  abbrev pub Superseded : Map Key TaskRecord → Type 0
  Superseded tasks = IsSuperseded (get key tasks)

  owner-IsSuperseded :
      (existing : Option TaskRecord) (task : TaskRecord)
      → owns_lease existing task ≡ true
      → IsSuperseded existing
      → IsSuperseded (some task)
  unfolding owns_lease
  owner-IsSuperseded none task owns h = absurd h
  owner-IsSuperseded (some existing) task owns (lease, stored, new) =
      (lease, ground (arith, stored, owns, option_beq_iff task.lease_id (some lease)), new)

  set-Superseded :
      (k : Key) (task : TaskRecord) (tasks : Map Key TaskRecord)
      → (k ≡ key → IsSuperseded (some task))
      → Superseded tasks
      → Superseded (set k task tasks)
  set-Superseded k task tasks new h = elim (Bool-cases (k == key)) [
    | inl same ↦
        let is = (pair_beq_iff k key).0 same in
        subst IsSuperseded
          (sym (ap (λ j. get j (set k task tasks)) (sym is) ∙ get-set_self k task tasks)) (new is)
    | inr other ↦ subst IsSuperseded (sym (get-set_ne key k task tasks other)) h
  ]

  owned-Superseded :
      (task : TaskRecord) (tasks : Map Key TaskRecord)
      → owns_lease (get (key_of task) tasks) task ≡ true
      → Superseded tasks
      → Superseded (set (key_of task) task tasks)
  owned-Superseded task tasks owns h =
      set-Superseded (key_of task) task tasks
        (λ same.
          owner-IsSuperseded (get (key_of task) tasks) task owns
            (subst (λ j. IsSuperseded (get j tasks)) (sym same) h))
        h

  module _ (s : Queue) (h : Superseded s.tasks) where
    in_tenant-Superseded :
        {A : Type 0} (tenant : Text) (rest : Text → Call A)
        → ((t : Text) → Superseded (final (rest t s)).tasks)
        → Superseded (final (in_tenant tenant rest s)).tasks
    unfolding in_tenant
    in_tenant-Superseded tenant rest kept = elim (Bool-cases (is_tenant_id tenant)) [
      | inl valid ↦ rw (valid, final, in_tenant) (kept tenant)
      | inr bad ↦ rw (bad, final, in_tenant) h
    ]

    enqueue_task-Superseded : (task : TaskRecord) → Superseded (final (enqueue_task task s)).tasks
    unfolding enqueue_task
    enqueue_task-Superseded task = in_tenant-Superseded task.tenant_id _ (λ t.
        elim (Bool-cases (owns_lease (get (key_of task) s.tasks) task)) [
          | inl owns ↦ rw (owns, final) (owned-Superseded task s.tasks owns h)
          | inr lost ↦ rw (lost, final) h
        ])

    update_task-Superseded : (task : TaskRecord) → Superseded (final (update_task task s)).tasks
    unfolding update_task
    update_task-Superseded task = in_tenant-Superseded task.tenant_id _ (λ t.
        elim (Bool-cases (owns_lease (get (key_of task) s.tasks) task)) [
          | inl owns ↦ rw (owns, final) (owned-Superseded task s.tasks owns h)
          | inr lost ↦ rw (lost, final) h
        ])

    dequeue_task-Superseded :
        (now : ℕ) (lease : String) (worker tenant : Text)
        → lease ≢ old
        → Superseded (final (dequeue_task now lease worker tenant s)).tasks
    unfolding dequeue_task
    dequeue_task-Superseded now lease worker tenant new =
        in_tenant-Superseded tenant _ (λ t. handed (scan worker t s.tasks s.pending_queue))
      where
        handed :
            (found : List Key × Option (Key × TaskRecord))
            → Superseded (final (hand_out now worker lease found s)).tasks
        handed (keys, none) = h
        handed (keys, some (k, task)) =
            set-Superseded k (leased_task now worker lease task) s.tasks
              (λ same. (lease, refl, new)) h

  batch-Superseded :
      (o : Outcome QueueError Queue (Unit {0})) (next : Call (Unit {0}))
      → Superseded (final o).tasks
      → ((t : Queue) → Superseded t.tasks → Superseded (final (next t)).tasks)
      → Superseded
          (final {S = Queue} (elim o [ returns _ t ↦ next t | throws e t ↦ throws e t ])).tasks
  batch-Superseded (returns _ t) next h kept = kept t h
  batch-Superseded (throws e t) next h kept = h

  enqueue_batch-Superseded :
      (tasks : List TaskRecord) (s : Queue)
      → Superseded s.tasks
      → Superseded (final (enqueue_batch tasks s)).tasks
  unfolding enqueue_batch
  enqueue_batch-Superseded [] s h = h
  enqueue_batch-Superseded (task ∷ tasks) s h =
      batch-Superseded (enqueue_task task s) (enqueue_batch tasks)
        (enqueue_task-Superseded s h task) (enqueue_batch-Superseded tasks)

  step-Superseded :
      (event : Event) (s : Queue)
      → IssuesOther old event
      → Superseded s.tasks
      → Superseded (step event s).tasks
  unfolding step
  step-Superseded (enqueues task) s i h = enqueue_task-Superseded s h task
  step-Superseded (updates task) s i h = update_task-Superseded s h task
  step-Superseded (enqueues_batch tasks) s i h = enqueue_batch-Superseded tasks s h
  step-Superseded (dequeues now lease worker tenant) s i h =
      dequeue_task-Superseded s h now lease worker tenant i
  step-Superseded (renews task) s i h = subst Superseded (sym (renew-Keeps task s).0) h
  step-Superseded (beats now worker) s i h = subst Superseded (sym (beat-Keeps now worker s).0) h
  step-Superseded (claims now urls ttl tenant) s i h =
      subst Superseded (sym (claim_urls-Keeps now urls ttl tenant s).0) h
  step-Superseded (sees now url tenant) s i h =
      subst Superseded (sym (is_url_seen-Keeps now url tenant s).0) h
  step-Superseded (marks now url ttl tenant) s i h =
      subst Superseded (sym (mark_url_seen-Keeps now url ttl tenant s).0) h
  step-Superseded (frees urls tenant) s i h =
      subst Superseded (sym (release_urls-Keeps urls tenant s).0) h

  pub run-Superseded :
      (events : List Event) (s : Queue)
      → All (IssuesOther old) events
      → Superseded s.tasks
      → Superseded (run events s).tasks
  unfolding run
  run-Superseded [] s i h = h
  run-Superseded (event ∷ events) s i h =
      run-Superseded events (step event s) i.1 (step-Superseded event s i.0 h)

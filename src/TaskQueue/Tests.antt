-- ===== src/TaskQueue/Tests.antt =====
-- Runs and instances of the theorems about the task queue.
use Prim.Native.String.{String}
use browser_profile_studio.Prelude.{
  string_eq, nat_eq, bool_eq, pair_eq, Text, text_eq, ◌≡◌, refl, sym, subst, ◌≢◌, true, false, none,
  some, List, [], ◌∷◌, arith,
}
use browser_profile_studio.Prelude.Map.{Map, get, set}
use browser_profile_studio.Prelude.Method.{returns, throws, final}
use browser_profile_studio.TaskQueue.Task.{
  normal, fetch, pending, retrying, TaskRecord, is_alphanumeric, is_tenant_char, is_tenant_id,
}
use browser_profile_studio.TaskQueue.Queue.{
  task_lease_lost, Key, Queue, empty, in_tenant, owns_lease, requeue, enqueue_task, update_task,
  visit, scan, leased_task, dequeue_task,
}
use browser_profile_studio.TaskQueue.Loop.{look, dequeue_loop, enough_fuel, dequeue_loop-scan}
use browser_profile_studio.TaskQueue.Reads.{renew_task_lease}
use browser_profile_studio.TaskQueue.Urls.{set_all, claim_urls}
use browser_profile_studio.TaskQueue.Leases.{
  Event, enqueues, updates, dequeues, step, run, IsSuperseded, Superseded,
}
use browser_profile_studio.TaskQueue.Fencing.{stale_lease-refused}
use browser_profile_studio.TaskQueue.Once.{InOrder, IsHandedOut, run-IsHandedOut_once}

abbrev tenant : Text
tenant = 116 ∷ []

abbrev task_one : TaskRecord
task_one = record {
  id = 49 ∷ [];
  tenant_id = tenant;
  project_id = none;
  run_id = none;
  url = 117 ∷ [];
  mode = fetch;
  priority = normal;
  task_state = pending;
  retries = 0;
  worker_id = none;
  lease_id = none;
  created_at = 0;
  started_at = none;
  target_worker_id = none;
}

-- Queued twice, leased by worker `a`, queued by it for a retry.
abbrev first_lease : List Event
first_lease =
    enqueues task_one
    ∷ enqueues task_one
    ∷ dequeues 5 "first" (97 ∷ []) tenant
    ∷ enqueues (record task_one {
      task_state = retrying;
      worker_id = some (97 ∷ []);
      lease_id = some "first";
    })
    ∷ []

abbrev retried : List Event
retried = dequeues 9 "second" (98 ∷ []) tenant ∷ []

abbrev taken_over : Queue
taken_over = run retried (run first_lease empty)

abbrev of_first_lease : TaskRecord
of_first_lease = leased_task 5 (97 ∷ []) "first" task_one

taken_over_stored :
    (get (tenant, 49 ∷ []) taken_over.tasks ≡ some (leased_task 9 (98 ∷ []) "second" task_one))
    × (taken_over.pending_queue ≡ [])
unfolding run step enqueue_task dequeue_task in_tenant is_tenant_id is_tenant_char is_alphanumeric
    get set owns_lease requeue scan visit
taken_over_stored = (refl, refl)

second_is_new : ◌≢◌ {A = String} "second" "first"
second_is_new = ground (arith, string_eq.equal_iff "second" "first")

third_is_new : ◌≢◌ {A = String} "third" "first"
third_is_new = ground (arith, string_eq.equal_iff "third" "first")

superseded : Superseded "first" (tenant, 49 ∷ []) taken_over.tasks
superseded =
    subst (IsSuperseded "first" (tenant, 49 ∷ [])) (sym taken_over_stored.0)
      ("second", refl, second_is_new)

valid_tenant : is_tenant_id tenant ≡ true
unfolding is_tenant_id is_tenant_char is_alphanumeric
valid_tenant = refl

abbrev later : List Event
later =
    updates (leased_task 9 (98 ∷ []) "second" task_one) ∷ dequeues 20 "third" (97 ∷ []) tenant ∷ []

stale_lease-refused_example :
    (enqueue_task of_first_lease (run later taken_over)
      ≡ throws task_lease_lost (run later taken_over))
    × (update_task of_first_lease (run later taken_over)
        ≡ throws task_lease_lost (run later taken_over))
    × (renew_task_lease of_first_lease (run later taken_over)
        ≡ returns false (run later taken_over))
stale_lease-refused_example =
    stale_lease-refused "first" later taken_over of_first_lease superseded (tt, (third_is_new, tt))
      valid_tenant refl

run-IsHandedOut_once_example :
    InOrder (run first_lease empty)
    × IsHandedOut 9
        (98 ∷ [])
        "second"
        (dequeue_task 9 "second" (98 ∷ []) tenant (run first_lease empty))
run-IsHandedOut_once_example = run-IsHandedOut_once first_lease 9 "second" (98 ∷ []) tenant

-- A batch of claims is refused as a whole while one of its URLs is claimed.
claims_are_atomic :
    claim_urls 1_000
      ((118 ∷ []) ∷ (117 ∷ []) ∷ [])
      60
      tenant
      (final (claim_urls 0 ((117 ∷ []) ∷ []) 60 tenant empty))
    ≡ returns false (final (claim_urls 0 ((117 ∷ []) ∷ []) 60 tenant empty))
unfolding claim_urls in_tenant is_tenant_id is_tenant_char is_alphanumeric set_all get set
claims_are_atomic = refl

-- The first task waits for worker `b`, the second key has no task, the third task is for anybody.
abbrev waiting_tasks : Map Key TaskRecord
waiting_tasks =
    set (tenant, 49 ∷ []) task_one
      (set (tenant, 50 ∷ []) (record task_one { target_worker_id = some (98 ∷ []) }) empty.tasks)

abbrev waiting_keys : List Key
waiting_keys = (tenant, 50 ∷ []) ∷ (tenant, 57 ∷ []) ∷ (tenant, 49 ∷ []) ∷ []

loop_starts_again :
    dequeue_loop 5 (97 ∷ []) tenant waiting_tasks [] waiting_keys
    ≡ some ((tenant, 50 ∷ []) ∷ [], some ((tenant, 49 ∷ []), task_one))
unfolding dequeue_loop look visit set get
loop_starts_again = refl

dequeue_loop-scan_example :
    dequeue_loop (enough_fuel 3) (97 ∷ []) tenant waiting_tasks [] waiting_keys
    ≡ some (scan (97 ∷ []) tenant waiting_tasks waiting_keys)
dequeue_loop-scan_example =
    dequeue_loop-scan (97 ∷ []) tenant waiting_tasks waiting_keys (enough_fuel 3) (omega arith)

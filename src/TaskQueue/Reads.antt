-- ===== src/TaskQueue/Reads.antt =====
-- src/distributed/queue-adapter.ts: what is asked of the queue, the workers' heartbeats and the end.
use Prim.Native.String.{String}
use browser_profile_studio.Prelude.{
  if◌then◌else◌, string_eq, nat_eq, ◌==◌, pair_eq, option_beq, take, select, Text, text_eq, ℕ, Bool,
  true, false, not, ◌&&◌, Option, none, some, List, [], ◌∷◌,
}
use browser_profile_studio.Prelude.Map.{values, get, set}
use browser_profile_studio.Prelude.Method.{returns}
use browser_profile_studio.TaskQueue.Task.{
  TaskState, running, TaskRecord, TaskListFilter, unset_or, matches_task_filter,
}
use browser_profile_studio.TaskQueue.Queue.{WorkerNodeInfo, empty, Call, in_tenant, key_of}

abbrev pub is_running : TaskState → Bool
is_running running = true
is_running _ = false

abbrev pub is_text : Option Text → Bool
is_text none = false
is_text (some []) = false
is_text (some (c ∷ rest)) = true

abbrev pub is_lease : Option String → Bool
is_lease none = false
is_lease (some lease) = not (lease == "")

abbrev pub runs_under : TaskRecord → Option TaskRecord → Bool
runs_under task none = false
runs_under task (some existing) =
    is_running existing.task_state
    && option_beq existing.worker_id task.worker_id
    && option_beq existing.lease_id task.lease_id

unfoldable pub renew_task_lease : TaskRecord → Call Bool
renew_task_lease task s =
    if is_lease task.lease_id && is_text task.worker_id
    then in_tenant task.tenant_id (λ _ q. returns (runs_under task (get (key_of task) q.tasks)) q) s
    else returns false s

unfoldable pub get_task : Text → Text → Call (Option TaskRecord)
get_task task_id tenant s = in_tenant tenant (λ t q. returns (get (t, task_id) q.tasks) q) s

unfoldable pub list_tasks : ℕ → Text → Option TaskListFilter → Call (List TaskRecord)
list_tasks limit tenant filter s =
    in_tenant tenant
      (λ t. λ q.
        let own = select (λ task. task.tenant_id == t) (values q.tasks) in
        let wanted = select (λ task. unset_or filter (matches_task_filter task)) own in
        returns (take limit wanted) q)
      s

unfoldable pub update_worker_heartbeat : ℕ → WorkerNodeInfo → Call (Unit {0})
update_worker_heartbeat now worker s =
    in_tenant worker.tenant_id
      (λ t q. returns tt (record q {
        workers = set (t, worker.worker_id) (record worker { last_heartbeat = now }) q.workers;
      }))
      s

unfoldable pub list_workers : Text → Call (List WorkerNodeInfo)
list_workers tenant s =
    in_tenant tenant
      (λ t. λ q. returns (select (λ worker. worker.tenant_id == t) (values q.workers)) q) s

unfoldable pub close : Call (Unit {0})
close s = returns tt empty

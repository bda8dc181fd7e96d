-- ===== src/TaskQueue/Fencing.antt =====
-- Once a task has been leased anew, the worker of an older lease cannot change it: the lease id
-- fences its calls off, as src/distributed/queue-adapter.ts says.
use Prim.Native.String.{String}
use browser_profile_studio.Prelude.{
  string_eq, nat_eq, pair_eq, option_beq_iff, All, text_eq, ◌≡◌, true, false, Option, none, some,
  List, arith,
}
use browser_profile_studio.Prelude.Map.{get}
use browser_profile_studio.Prelude.Method.{returns, throws}
use browser_profile_studio.TaskQueue.Task.{TaskRecord, is_tenant_id}
use browser_profile_studio.TaskQueue.Queue.{
  task_lease_lost, Key, Queue, in_tenant, key_of, owns_lease, enqueue_task, update_task,
}
use browser_profile_studio.TaskQueue.Reads.{runs_under, renew_task_lease}
use browser_profile_studio.TaskQueue.Leases.{
  Event, run, IssuesOther, IsSuperseded, Superseded, run-Superseded,
}

not_owner :
    (old : String) (key : Key) (stored : Option TaskRecord) (task : TaskRecord)
    → IsSuperseded old key stored
    → task.lease_id ≡ some old
    → (owns_lease stored task ≡ false) × (runs_under task stored ≡ false)
unfolding owns_lease
not_owner old key none task h stale = absurd h
not_owner old key (some existing) task (lease, its, new) stale = ground (
  arith,
  its,
  new,
  stale,
  string_eq.equal_iff old lease,
  option_beq_iff task.lease_id (some lease),
  option_beq_iff existing.lease_id task.lease_id,
)

refused :
    (old : String) (task : TaskRecord) (t : Queue)
    → is_tenant_id task.tenant_id ≡ true
    → task.lease_id ≡ some old
    → Superseded old (key_of task) t.tasks
    → (enqueue_task task t ≡ throws task_lease_lost t)
      × (update_task task t ≡ throws task_lease_lost t)
      × (renew_task_lease task t ≡ returns false t)
unfolding enqueue_task update_task renew_task_lease in_tenant
refused old task t valid stale h =
    let (not_mine, not_run) =
      not_owner old (key_of task) (get (key_of task) t.tasks) task h stale in
    ground (arith, valid, not_mine, not_run)

-- The record of a task stands under a lease other than `old`. Then, whatever calls but `close`
-- follow, as long as no lease gets the id `old` again, a call with a record of the task that has the
-- lease id `old` is refused: `enqueueTask` and `updateTask` throw TASK_LEASE_LOST and change nothing,
-- and `renewTaskLease` does not renew.
pub stale_lease-refused :
    (old : String) (events : List Event) (s : Queue) (task : TaskRecord)
    → Superseded old (key_of task) s.tasks
    → All (IssuesOther old) events
    → is_tenant_id task.tenant_id ≡ true
    → task.lease_id ≡ some old
    → (enqueue_task task (run events s) ≡ throws task_lease_lost (run events s))
      × (update_task task (run events s) ≡ throws task_lease_lost (run events s))
      × (renew_task_lease task (run events s) ≡ returns false (run events s))
stale_lease-refused old events s task h others valid stale =
    refused old task (run events s) valid stale (run-Superseded old (key_of task) events s others h)

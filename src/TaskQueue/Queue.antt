-- ===== src/TaskQueue/Queue.antt =====
-- src/distributed/queue-adapter.ts: the tasks, their order and the workers.
use Prim.Native.String.{String}
use browser_profile_studio.Prelude.{
  if◌then◌else◌, string_eq, nat_eq, ◌==◌, pair_eq, option_beq, any, select, Text, text_eq, ℕ, Bool,
  true, false, not, ◌&&◌, Option, none, some, List, [], ◌∷◌, ◌++◌,
}
use browser_profile_studio.Prelude.Map.{Map, get, set}
use browser_profile_studio.Prelude.Method.{returns, throws, Method}
use browser_profile_studio.TaskQueue.Task.{TaskState, running, TaskRecord, is_waiting, is_tenant_id}

pub data QueueError : Type 0 where
  invalid_tenant_id task_lease_lost : QueueError

pub record WorkerNodeInfo : Type 0 where
  pub worker_id : Text
  pub tenant_id : Text
  pub capacity : ℕ
  pub active_tasks : ℕ
  pub healthy : Bool
  pub last_heartbeat : ℕ

abbrev pub Key : Type 0
Key = Text × Text

pub record Queue : Type 0 where
  pub tasks : Map Key TaskRecord
  pub pending_queue : List Key
  pub workers : Map Key WorkerNodeInfo
  pub seen_urls : Map Key ℕ

abbrev pub empty : Queue
empty = record { tasks = []; pending_queue = []; workers = []; seen_urls = [] }

abbrev pub Call : Type 0 → Type 0
Call A = Method QueueError Queue A

-- `normalizeTenantId`, before the rest of a method.
unfoldable pub in_tenant : {A : Type 0} → Text → (Text → Call A) → Call A
in_tenant tenant_id rest s = elim (is_tenant_id tenant_id) [
  | true ↦ rest tenant_id s
  | false ↦ throws invalid_tenant_id s
]

abbrev pub key_of : TaskRecord → Key
key_of task = (task.tenant_id, task.id)

-- The incoming record is of the lease that the stored one has, or the stored one has none.
unfoldable pub owns_lease : Option TaskRecord → TaskRecord → Bool
owns_lease none incoming = true
owns_lease (some existing) incoming = elim existing.lease_id [
  | none ↦ true
  | some lease ↦
      option_beq incoming.lease_id (some lease) && option_beq incoming.worker_id existing.worker_id
]

abbrev pub includes : Key → List Key → Bool
includes key keys = any (λ k. k == key) keys

abbrev pub remove_pending_key : Key → List Key → List Key
remove_pending_key key keys = select (λ k. not (k == key)) keys

unfoldable pub requeue : Key → TaskState → List Key → List Key
requeue key state keys =
    if is_waiting state
    then (if includes key keys then keys else keys ++ key ∷ [])
    else remove_pending_key key keys

abbrev pub store_task : TaskRecord → Queue → Queue
store_task task s = record s { tasks = set (key_of task) task s.tasks }

abbrev pub put_task : TaskRecord → Queue → Queue
put_task task s = record s {
  tasks = set (key_of task) task s.tasks;
  pending_queue = requeue (key_of task) task.task_state s.pending_queue;
}

unfoldable pub enqueue_task : TaskRecord → Call (Unit {0})
enqueue_task task s =
    in_tenant task.tenant_id
      (λ _. λ q.
        if owns_lease (get (key_of task) q.tasks) task
        then returns tt (put_task task q)
        else throws task_lease_lost q)
      s

unfoldable pub enqueue_batch : List TaskRecord → Call (Unit {0})
enqueue_batch [] s = returns tt s
enqueue_batch (task ∷ tasks) s = elim (enqueue_task task s) [
  | returns _ t ↦ enqueue_batch tasks t
  | throws e t ↦ throws e t
]

unfoldable pub update_task : TaskRecord → Call (Unit {0})
update_task task s =
    in_tenant task.tenant_id
      (λ _. λ q.
        if owns_lease (get (key_of task) q.tasks) task
        then returns tt (store_task task q)
        else throws task_lease_lost q)
      s

-- The task waits for another worker.
abbrev pub is_for_other : Text → Option Text → Bool
is_for_other worker none = false
is_for_other worker (some []) = false
is_for_other worker (some (c ∷ target)) = not ((c ∷ target) == worker)

-- What `dequeueTask` does at an entry of the tenant.
pub data Visit : Type 0 where
  drop_entry skip_entry : Visit
  take_entry : TaskRecord → Visit

unfoldable pub visit : Text → Option TaskRecord → Visit
visit worker none = drop_entry
visit worker (some task) =
    if not (is_waiting task.task_state)
    then drop_entry
    else if is_for_other worker task.target_worker_id
    then skip_entry
    else take_entry task

-- The loop of `dequeueTask`: the entries that are left, and the first task for the worker. After it
-- has dropped an entry the code looks from the first entry on again, where it finds only entries
-- that it has skipped and skips them again.
unfoldable pub scan :
    Text → Text → Map Key TaskRecord → List Key → List Key × Option (Key × TaskRecord)
scan worker tenant tasks [] = ([], none)
scan worker tenant tasks (key ∷ keys) =
    let rest = scan worker tenant tasks keys in
    if key.0 == tenant
    then elim (visit worker (get key tasks)) [
      | drop_entry ↦ rest
      | skip_entry ↦ (key ∷ rest.0, rest.1)
      | take_entry task ↦ (keys, some (key, task))
    ]
    else (key ∷ rest.0, rest.1)

abbrev pub leased_task : ℕ → Text → String → TaskRecord → TaskRecord
leased_task now worker lease task = record task {
  task_state = running;
  started_at = some now;
  worker_id = some worker;
  lease_id = some lease;
}

abbrev pub hand_out :
    ℕ → Text → String → List Key × Option (Key × TaskRecord) → Call (Option TaskRecord)
hand_out now worker lease (keys, none) s = returns none (record s { pending_queue = keys })
hand_out now worker lease (keys, some (key, task)) s =
    returns (some (leased_task now worker lease task)) (record s {
      tasks = set key (leased_task now worker lease task) s.tasks;
      pending_queue = keys;
    })

unfoldable pub dequeue_task : ℕ → String → Text → Text → Call (Option TaskRecord)
dequeue_task now lease worker tenant s =
    in_tenant tenant (λ t. λ q. hand_out now worker lease (scan worker t q.tasks q.pending_queue) q)
      s

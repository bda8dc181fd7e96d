-- ===== src/AccountPlacement/Worker.antt =====
-- src/distributed/account-placement.ts: the workers that the registry knows.
use browser_profile_studio.Prelude.{
  leb, if◌then◌else◌, string_eq, nat_eq, ◌==◌, pair_eq, any, select, Text, text_eq, ℕ, Bool, true,
  false, ◌&&◌, Option, none, some, List, [], ◌∷◌,
}
use browser_profile_studio.Prelude.Map.{Map, get, set, delete}
use browser_profile_studio.AccountPlacement.Scope.{
  invalid_capacity, invalid_load, Result, ok, error, ◌>>=◌, validate_scope,
  validate_storage_namespace, read_now,
}

pub record WorkerNode : Type 0 where
  pub id : Text
  pub tenant_id : Text
  pub capacity : ℕ
  pub load : ℕ
  pub storage_namespace : Text
  pub last_heartbeat : ℕ

-- What a worker reports. A field that is no nonnegative integer, or no finite time, is `none`.
pub record WorkerNodeInfo : Type 0 where
  pub worker_id : Text
  pub tenant_id : Text
  pub capacity : Option ℕ
  pub active_tasks : Option ℕ
  pub healthy : Bool
  pub last_heartbeat : Option ℕ
  pub storage_namespace : Option Text

abbrev pub Workers : Type 0
Workers = Map Text WorkerNode

unfoldable pub is_capacity : ℕ → Bool
is_capacity capacity = leb 1 capacity && leb capacity 10_000

abbrev pub node : Text → Text → ℕ → ℕ → Text → ℕ → WorkerNode
node id tenant_id capacity load storage_namespace last_heartbeat = record {
  id = id;
  tenant_id = tenant_id;
  capacity = capacity;
  load = load;
  storage_namespace = storage_namespace;
  last_heartbeat = last_heartbeat;
}

unfoldable pub register_worker : Text → ℕ → Text → Text → Option ℕ → Workers → Result Workers
register_worker id capacity storage_namespace tenant_id clock workers = do
  worker_id ← validate_scope id
  elim (is_capacity capacity) [
    | false ↦ error invalid_capacity
    | true ↦ do
      tenant ← validate_scope tenant_id
      namespace ← validate_storage_namespace storage_namespace
      now ← read_now clock
      ok (set worker_id (node worker_id tenant capacity 0 namespace now) workers)
  ]

unfoldable pub heartbeat : Text → Option ℕ → Workers → Result Workers
heartbeat worker_id clock workers = elim (get worker_id workers) [
  | none ↦ ok workers
  | some worker ↦ do
    now ← read_now clock
    ok (set worker_id (record worker { last_heartbeat = now }) workers)
]

-- `load` is `none` where it is no nonnegative integer.
unfoldable pub update_load : Text → Option ℕ → Workers → Result Workers
update_load worker_id none workers = error invalid_load
update_load worker_id (some load) workers = elim (get worker_id workers) [
  | none ↦ ok workers
  | some worker ↦ ok (set worker_id (record worker { load = load }) workers)
]

unfoldable pub remove_worker : Text → Workers → Workers
remove_worker worker_id workers = delete worker_id workers

-- `local:` and the worker's id.
abbrev pub local_namespace : Text → Text
local_namespace worker_id = 108 ∷ 111 ∷ 99 ∷ 97 ∷ 108 ∷ 58 ∷ worker_id

unfoldable pub namespace_of : Text → Option Text → Text
namespace_of worker_id none = local_namespace worker_id
namespace_of worker_id (some namespace) = namespace

-- The body of the `try` of `syncWorkers`.
unfoldable pub checked_node : WorkerNodeInfo → ℕ → ℕ → ℕ → Result WorkerNode
checked_node worker capacity tasks beat = do
  worker_id ← validate_scope worker.worker_id
  tenant ← validate_scope worker.tenant_id
  namespace ← validate_storage_namespace (namespace_of worker_id worker.storage_namespace)
  ok (node worker_id tenant capacity tasks namespace beat)

-- The node that a report stands for, where `syncWorkers` does not skip it.
unfoldable pub reported : WorkerNodeInfo → Option WorkerNode
reported worker = elim worker.capacity [
  | none ↦ none
  | some capacity ↦ elim worker.active_tasks [
    | none ↦ none
    | some tasks ↦ elim worker.last_heartbeat [
      | none ↦ none
      | some beat ↦
          if worker.healthy && is_capacity capacity
          then elim (checked_node worker capacity tasks beat) [ ok n ↦ some n | error e ↦ none ]
          else none
    ]
  ]
]

abbrev pub is_in : List Text → Text × WorkerNode → Bool
is_in incoming entry = any (λ id. id == entry.0) incoming

-- The loop over the reports, with the ids that are incoming so far.
unfoldable pub sync_all : List WorkerNodeInfo → List Text → Workers → List Text × Workers
sync_all [] incoming workers = (incoming, workers)
sync_all (report ∷ reports) incoming workers = elim (reported report) [
  | none ↦ sync_all reports incoming workers
  | some worker ↦ sync_all reports (worker.id ∷ incoming) (set worker.id worker workers)
]

unfoldable pub sync_workers : List WorkerNodeInfo → Workers → Workers
sync_workers reports workers =
    let (incoming, synced) = sync_all reports [] workers in select (is_in incoming) synced

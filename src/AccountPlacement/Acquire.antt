-- ===== src/AccountPlacement/Acquire.antt =====
-- src/distributed/account-placement.ts: `acquirePlacement`, up to its write and with it.
use Prim.Native.Nat.{bit_xor}
use browser_profile_studio.Prelude.{
  ltb, leb, if◌then◌else◌, string_eq, nat_eq, ◌==◌, pair_eq, length, get_elem?, select, Text,
  text_eq, ℕ, ◌+◌, ◌*◌, ◌%◌, ◌^◌, Bool, true, false, not, ◌&&◌, ◌||◌, Option, none, some, List, [],
  ◌∷◌, ◌++◌, map,
}
use browser_profile_studio.Prelude.Map.{get}
use browser_profile_studio.AccountPlacement.Scope.{
  corrupt_record, namespace_locked, no_workers, generation_exhausted, Result, ok, error, ◌>>=◌,
  max_safe_integer, validate_scope, validate_storage_namespace, read_now,
}
use browser_profile_studio.AccountPlacement.Worker.{WorkerNode, Workers}
use browser_profile_studio.AccountPlacement.Store.{AccountPlacementRecord, Versioned, SharedStore}

-- What `acquirePlacement` comes to before it writes: the worker that the account has, or a record
-- for `compareAndSet`, with the version that it expects.
pub data Decision : Type 0 where
  keeps : Text → ℕ → Decision
  places : Text → Text → ℕ → AccountPlacementRecord → Decision

abbrev pub fnv_offset : ℕ
fnv_offset = 2_166_136_261

abbrev pub fnv_prime : ℕ
fnv_prime = 16_777_619

-- On 32 bits; the key is short of UTF-16 code units.
unfoldable pub hash_from : ℕ → Text → ℕ
hash_from hash [] = hash
hash_from hash (c ∷ key) = hash_from (bit_xor hash c * fnv_prime % 2 ^ 32) key

abbrev pub is_of_tenant : Text → WorkerNode → Bool
is_of_tenant tenant worker = worker.tenant_id == (42 ∷ []) || worker.tenant_id == tenant

-- `now - lastHeartbeat <= heartbeatTimeoutMs`, where a heartbeat may lie in the future.
abbrev pub is_alive : ℕ → ℕ → WorkerNode → Bool
is_alive timeout now worker = leb now (worker.last_heartbeat + timeout)

abbrev pub is_available : ℕ → ℕ → Text → WorkerNode → Bool
is_available timeout now tenant worker =
    is_of_tenant tenant worker && is_alive timeout now worker && ltb worker.load worker.capacity

abbrev pub is_in_namespace : Text → WorkerNode → Bool
is_in_namespace namespace worker = worker.storage_namespace == namespace

abbrev pub nodes : Workers → List WorkerNode
nodes workers = map (λ entry. entry.1) workers

unfoldable pub candidates_of : ℕ → ℕ → Text → Workers → List WorkerNode
candidates_of timeout now tenant workers = select (is_available timeout now tenant) (nodes workers)

unfoldable pub validate_placement_record : AccountPlacementRecord → Result AccountPlacementRecord
validate_placement_record value =
    elim (leb 1 value.generation && leb value.generation max_safe_integer) [
      | true ↦ do
        worker_id ← validate_scope value.worker_id
        namespace ← validate_storage_namespace value.storage_namespace
        ok (record {
          worker_id = worker_id;
          storage_namespace = namespace;
          generation = value.generation;
        })
      | false ↦ error corrupt_record
    ]

unfoldable pub validate_required : Option Text → Result (Option Text)
validate_required none = ok none
validate_required (some namespace) = do
  normalized ← validate_storage_namespace namespace
  ok (some normalized)

-- `precedes a b` is `a.localeCompare(b) < 0`, and `timeout` is `heartbeatTimeoutMs`.
module _ (precedes : Text → Text → Bool) (timeout : ℕ) where
  unfoldable pub insert_worker : WorkerNode → List WorkerNode → List WorkerNode
  insert_worker worker [] = worker ∷ []
  insert_worker worker (other ∷ sorted) =
      let rest = insert_worker worker sorted in
      if precedes other.id worker.id then other ∷ rest else worker ∷ other ∷ sorted

  -- The stable sort by id.
  unfoldable pub sort_workers : List WorkerNode → List WorkerNode
  sort_workers [] = []
  sort_workers (worker ∷ workers) = insert_worker worker (sort_workers workers)

  unfoldable pub select_worker : List WorkerNode → Text → Option WorkerNode
  select_worker workers key =
      get_elem? (sort_workers workers) (hash_from fnv_offset key % length workers)

  -- The key `tenantId\0accountId`.
  abbrev pub selection_key : Text → Text → Text
  selection_key tenant account = tenant ++ 0 ∷ account

  unfoldable pub place :
      Text → Text → ℕ → ℕ → (WorkerNode → Text) → List WorkerNode → Result Decision
  place tenant account expected generation namespace candidates =
      elim (select_worker candidates (selection_key tenant account)) [
        | none ↦ error no_workers
        | some worker ↦
            if leb generation max_safe_integer
            then ok (
                places tenant account expected (record {
                  worker_id = worker.id;
                  storage_namespace = namespace worker;
                  generation = generation;
                }))
            else error generation_exhausted
      ]

  abbrev pub is_current : ℕ → Text → Text → Option WorkerNode → Bool
  is_current now tenant namespace none = false
  is_current now tenant namespace (some worker) =
      is_of_tenant tenant worker && is_in_namespace namespace worker && is_alive timeout now worker

  abbrev pub is_locked : Text → Option Text → Bool
  is_locked namespace none = false
  is_locked namespace (some required) = not (namespace == required)

  -- The account has a placement.
  unfoldable pub replace :
      Text → Text → Option Text → ℕ → Workers → ℕ → AccountPlacementRecord → Result Decision
  replace tenant account required now workers version value =
      if is_locked value.storage_namespace required
      then error namespace_locked
      else if is_current now tenant value.storage_namespace (get value.worker_id workers)
      then ok (keeps value.worker_id value.generation)
      else place tenant account version (value.generation + 1) (λ _. value.storage_namespace)
          (select (is_in_namespace value.storage_namespace)
            (candidates_of timeout now tenant workers))

  -- It has none yet.
  unfoldable pub place_first : Text → Text → Option Text → List WorkerNode → Result Decision
  place_first tenant account none candidates =
      place tenant account 0 1 (λ worker. worker.storage_namespace) candidates
  place_first tenant account (some namespace) candidates =
      place tenant account 0 1 (λ _. namespace) (select (is_in_namespace namespace) candidates)

  unfoldable pub decide :
      Text → Text → Option Text → ℕ → Workers → Option Versioned → Result Decision
  decide tenant account required now workers none =
      place_first tenant account required (candidates_of timeout now tenant workers)
  decide tenant account required now workers (some current) = do
    value ← validate_placement_record current.placement
    replace tenant account required now workers current.version value

  module _ {S : Type 0} (store : SharedStore S) where
    -- Up to the write.
    unfoldable pub prepare : Text → Text → Option Text → Option ℕ → Workers → S → Result Decision
    prepare tenant_input account_input required_input clock workers s = do
      tenant ← validate_scope tenant_input
      account ← validate_scope account_input
      required ← validate_required required_input
      current ← store.get_record tenant account s
      now ← read_now clock
      decide tenant account required now workers current

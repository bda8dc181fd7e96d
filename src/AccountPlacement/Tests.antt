-- ===== src/AccountPlacement/Tests.antt =====
-- Runs and instances of the theorems about placements.
use browser_profile_studio.Prelude.{
  ltb, string_eq, nat_eq, bool_eq, pair_eq, Text, text_eq, trim, ℕ, ◌≡◌, refl, Bool, none, some,
  List, [], ◌∷◌,
}
use browser_profile_studio.Prelude.Map.{get, set}
use browser_profile_studio.AccountPlacement.Scope.{
  Result, ok, error, validate_scope, is_alphanumeric, is_name_char, is_storage_namespace,
  validate_storage_namespace, read_now,
}
use browser_profile_studio.AccountPlacement.Worker.{Workers, node}
use browser_profile_studio.AccountPlacement.Store.{
  Memory, state_key, memory_get, set_at, memory_compare_and_set, stored_at, in_memory,
}
use browser_profile_studio.AccountPlacement.Acquire.{
  hash_from, candidates_of, validate_placement_record, validate_required, insert_worker,
  sort_workers, select_worker, place, replace, place_first, decide, prepare,
}
use browser_profile_studio.AccountPlacement.Commit.{commit}
use browser_profile_studio.AccountPlacement.Interleaving.{
  Event, begins, commits, System, begin, carry_out, step, run, Numbered, Since, run-generations,
}
use browser_profile_studio.AccountPlacement.Eligible.{IsFit, decide-IsFit}
use browser_profile_studio.AccountPlacement.Generations.{IsNumbered}

-- By the first code unit alone.
abbrev first_unit : Text → ℕ
first_unit [] = 0
first_unit (c ∷ rest) = c

abbrev precedes : Text → Text → Bool
precedes a b = ltb (first_unit a) (first_unit b)

abbrev tenant : Text
tenant = 116 ∷ []

abbrev account : Text
account = 97 ∷ []

abbrev namespace : Text
namespace = 110 ∷ []

abbrev two_workers : Workers
two_workers =
    (120 ∷ [], node (120 ∷ []) (42 ∷ []) 2 0 namespace 1_000)
    ∷ (121 ∷ [], node (121 ∷ []) tenant 2 2 namespace 1_000)
    ∷ []

-- `x` has gone, and `y` has room.
abbrev one_worker : Workers
one_worker = (121 ∷ [], node (121 ∷ []) tenant 2 0 namespace 90_000) ∷ []

abbrev interleaved : List Event
interleaved =
    begins tenant account none (some 1_000) two_workers
    ∷ begins tenant account none (some 1_000) two_workers
    ∷ commits 0
    ∷ commits 1
    ∷ []

abbrev failover : List Event
failover = begins tenant account none (some 90_000) one_worker ∷ commits 2 ∷ []

abbrev nothing : System Memory
nothing = record { stored = []; decided = [] }

abbrev system_run : List Event → System Memory → System Memory
system_run = run precedes 30_000 in_memory

-- Of two acquisitions that have read the same state one writes; then the other worker takes over.
interleaved_stored :
    ((system_run interleaved nothing).stored
      ≡ (
        (tenant, account),
        record {
          placement = record {
            worker_id = 120 ∷ [];
            storage_namespace = namespace;
            generation = 1;
          };
          version = 1;
        },
      )
        ∷ [])
    × ((system_run failover (system_run interleaved nothing)).stored
        ≡ (
          (tenant, account),
          record {
            placement = record {
              worker_id = 121 ∷ [];
              storage_namespace = namespace;
              generation = 2;
            };
            version = 2;
          },
        )
          ∷ [])
unfolding run step begin carry_out prepare commit decide place_first replace place select_worker
    sort_workers insert_worker hash_from candidates_of validate_placement_record validate_required
    read_now memory_get memory_compare_and_set set_at state_key validate_scope
    validate_storage_namespace is_storage_namespace is_alphanumeric is_name_char get set trim
interleaved_stored = (refl, refl)

nothing_stored : (key : Result (Text × Text)) → IsNumbered (stored_at key [])
unfolding get
nothing_stored (ok key) = tt
nothing_stored (error e) = tt

run-generations_example :
    Numbered precedes 30_000 in_memory (system_run interleaved nothing).stored
    × Since precedes 30_000 in_memory
        (system_run interleaved nothing).stored
        (system_run failover (system_run interleaved nothing)).stored
run-generations_example =
    run-generations precedes 30_000 in_memory interleaved failover nothing
      ((λ t a. nothing_stored (state_key t a)), tt)

decide-IsFit_example :
    IsFit precedes 30_000 tenant account
      (some namespace)
      1_000
      two_workers
      none
      (decide precedes 30_000 tenant account (some namespace) 1_000 two_workers none)
decide-IsFit_example =
    decide-IsFit precedes 30_000 tenant account (some namespace) 1_000 two_workers none

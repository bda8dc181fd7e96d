-- ===== src/AccountPlacement/Commit.antt =====
-- src/distributed/account-placement.ts: `acquirePlacement` with its write.
use browser_profile_studio.Prelude.{
  string_eq, nat_eq, pair_eq, Text, text_eq, ℕ, Bool, true, false, Option,
}
use browser_profile_studio.Prelude.Method.{Outcome, returns, throws}
use browser_profile_studio.AccountPlacement.Scope.{PlacementError, cas_conflict, ok, error}
use browser_profile_studio.AccountPlacement.Worker.{Workers}
use browser_profile_studio.AccountPlacement.Store.{SharedStore}
use browser_profile_studio.AccountPlacement.Acquire.{Decision, keeps, places, prepare}

module _ (precedes : Text → Text → Bool) (timeout : ℕ) {S : Type 0} (store : SharedStore S) where
  -- The write, if there is one to do.
  unfoldable pub commit : Decision → S → Outcome PlacementError S (Text × ℕ)
  commit (keeps worker generation) s = returns (worker, generation) s
  commit (places tenant account expected next) s =
      elim (store.compare_and_set tenant account expected next s) [
        | ok (written, t) ↦ elim written [
          | true ↦ returns (next.worker_id, next.generation) t
          | false ↦ throws cas_conflict t
        ]
        | error e ↦ throws e s
      ]

  unfoldable pub acquire_placement :
      Text → Text → Option Text → Option ℕ → Workers → S → Outcome PlacementError S (Text × ℕ)
  acquire_placement tenant account required clock workers s =
      elim (prepare precedes timeout store tenant account required clock workers s) [
        | ok decision ↦ commit decision s
        | error e ↦ throws e s
      ]

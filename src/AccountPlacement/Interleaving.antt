-- ===== src/AccountPlacement/Interleaving.antt =====
-- Placements of src/distributed/account-placement.ts under concurrent acquisitions: any number of
-- registries read the store, decide, and write, in any order.
use mathlib.Core.Option.{some-injective}
use browser_profile_studio.Prelude.{
  Bool-cases, Option-cases, string_eq, nat_eq, pair_eq, get_elem?, All, Text, text_eq, ℕ, zero, suc,
  ◌≡◌, subst, inl, inr, Bool, Option, none, some, List, [], ◌∷◌, ◌++◌, arith,
}
use browser_profile_studio.Prelude.Method.{final}
use browser_profile_studio.AccountPlacement.Scope.{Result, ok, error}
use browser_profile_studio.AccountPlacement.Worker.{Workers}
use browser_profile_studio.AccountPlacement.Store.{SharedStore, Result-cases}
use browser_profile_studio.AccountPlacement.Acquire.{Decision, keeps, places, prepare}
use browser_profile_studio.AccountPlacement.Commit.{commit}
use browser_profile_studio.AccountPlacement.Generations.{
  IsNumbered, GoesOn, IsSince, GoesOnIfOk, IsSince-refl, IsSince-trans, effect-IsSince,
  prepare-GoesOn,
}

-- An acquisition reads and decides, or the n-th decision is carried out. The workers and the clock
-- are those of the registry that acts.
pub data Event : Type 0 where
  begins : Text → Text → Option Text → Option ℕ → Workers → Event
  commits : ℕ → Event

pub record System (S : Type 0) : Type 0 where
  pub stored : S
  pub decided : List Decision

module _ (precedes : Text → Text → Bool) (timeout : ℕ) {S : Type 0} (store : SharedStore S) where
  unfoldable pub begin : Result Decision → System S → System S
  begin (ok decision) s = record s { decided = s.decided ++ decision ∷ [] }
  begin (error e) s = s

  unfoldable pub carry_out : Option Decision → System S → System S
  carry_out none s = s
  carry_out (some decision) s = record s {
    stored = final (commit precedes timeout store decision s.stored);
  }

  unfoldable pub step : Event → System S → System S
  step (begins tenant account required clock workers) s =
      begin (prepare precedes timeout store tenant account required clock workers s.stored) s
  step (commits n) s = carry_out (get_elem? s.decided n) s

  unfoldable pub run : List Event → System S → System S
  run [] s = s
  run (event ∷ events) s = run events (step event s)

  abbrev pub Numbered : S → Type 0
  Numbered s = (t a : Text) → IsNumbered (store.view t a s)

  abbrev pub Since : S → S → Type 0
  Since s t =
      (tenant account : Text) → IsSince (store.view tenant account s) (store.view tenant account t)

  -- Every placement is numbered, and every decision goes on from the version it has read.
  abbrev pub InOrder : System S → Type 0
  InOrder s = Numbered s.stored × All GoesOn s.decided

  All-append :
      (decisions : List Decision) (d : Decision)
      → All GoesOn decisions
      → GoesOn d
      → All GoesOn (decisions ++ d ∷ [])
  All-append [] d h new = (new, tt)
  All-append (x ∷ decisions) d h new = (h.0, All-append decisions d h.1 new)

  All-get_elem? :
      (decisions : List Decision) (n : ℕ) (d : Decision)
      → get_elem? decisions n ≡ some d
      → All GoesOn decisions
      → GoesOn d
  All-get_elem? [] n d found h = absurd (ground arith)
  All-get_elem? (x ∷ decisions) zero d found h = subst GoesOn (some-injective x d found) h.0
  All-get_elem? (x ∷ decisions) (suc n) d found h = All-get_elem? decisions n d found h.1

  commit-Numbered :
      (decision : Decision) (s : S)
      → GoesOn decision
      → Numbered s
      → Numbered (final (commit precedes timeout store decision s))
        × Since s (final (commit precedes timeout store decision s))
  unfolding commit
  commit-Numbered (keeps worker generation) s h n =
      (n, λ tenant account. IsSince-refl (store.view tenant account s))
  commit-Numbered (places tenant account expected next) s h n =
      elim (Result-cases (store.compare_and_set tenant account expected next s)) [
        | inr (e, failed) ↦ rw (failed, final, commit) (n, λ u a. IsSince-refl (store.view u a s))
        | inl ((written, t), done) ↦
            let effect : (u a : Text)
                → IsNumbered (store.view u a t) × IsSince (store.view u a s) (store.view u a t) =
              λ u a.
                effect-IsSince expected next (store.view u a s) (store.view u a t) h (n u a)
                  (store.sets tenant account expected next s done u a) in
            elim (Bool-cases written) [
              | inl won ↦
                  rw (done, won, final, commit) ((λ u a. (effect u a).0), (λ u a. (effect u a).1))
              | inr lost ↦
                  rw (done, lost, final, commit) ((λ u a. (effect u a).0), (λ u a. (effect u a).1))
            ]
      ]

  step-InOrder :
      (event : Event) (s : System S)
      → InOrder s
      → InOrder (step event s) × Since s.stored (step event s).stored
  unfolding step begin carry_out
  step-InOrder (begins tenant account required clock workers) s h =
      let goes_on =
        prepare-GoesOn precedes timeout store tenant account required clock workers s.stored h.0 in
      let same = λ (u a : Text). IsSince-refl (store.view u a s.stored) in
      elim (Result-cases
        (prepare precedes timeout store tenant account required clock workers s.stored)) [
          | inl (decision, decided) ↦
              rw (decided, step, begin)
                ((h.0, All-append s.decided decision h.1 (subst GoesOnIfOk decided goes_on)), same)
          | inr (e, failed) ↦ rw (failed, step, begin) (h, same)
        ]
  step-InOrder (commits n) s h = elim (Option-cases (get_elem? s.decided n)) [
    | inl missing ↦ rw (missing, step, carry_out) (h, λ u a. IsSince-refl (store.view u a s.stored))
    | inr (decision, found) ↦
        let after =
          commit-Numbered decision s.stored (All-get_elem? s.decided n decision found h.1) h.0 in
        rw (found, step, carry_out) ((after.0, h.1), after.1)
  ]

  -- From any store whose placements are numbered, as the empty one is: whatever acquisitions of
  -- whatever registries begin and write, in any interleaving, every placement's generation is the
  -- version of its record, and after further steps an account that has a placement still has one,
  -- with a generation that is not smaller, and with the same generation only if nothing of the
  -- placement has changed.
  pub run-generations :
      (earlier later : List Event) (s : System S)
      → InOrder s
      → Numbered (run earlier s).stored
        × Since (run earlier s).stored (run later (run earlier s)).stored
  unfolding run
  run-generations [] [] s h = (h.0, λ u a. IsSince-refl (store.view u a s.stored))
  run-generations [] (event ∷ later) s h =
      let after = step-InOrder event s h in
      let rest = run-generations [] later (step event s) after.0 in
      (
        h.0,
        λ u a.
            IsSince-trans (store.view u a s.stored) (store.view u a (step event s).stored) _
              (after.1 u a) (rest.1 u a),
      )
  run-generations (event ∷ earlier) later s h =
      run-generations earlier later (step event s) (step-InOrder event s h).0

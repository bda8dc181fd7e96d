-- ===== src/AccountPlacement/Generations.antt =====
-- src/distributed/account-placement.ts: what a decided placement and a write do to the generations.
use browser_profile_studio.Prelude.{
  Bool-cases, string_eq, nat_eq, pair_eq, select, Text, text_eq, ℕ, ◌+◌, ◌≤◌, ◌≡◌, refl, sym, ◌∙◌,
  subst, inl, inr, Bool, Option, none, some, List, arith,
}
use browser_profile_studio.Prelude.Map.{get}
use browser_profile_studio.AccountPlacement.Scope.{
  Result, ok, error, ◌>>=◌, validate_scope, read_now,
}
use browser_profile_studio.AccountPlacement.Worker.{WorkerNode, Workers}
use browser_profile_studio.AccountPlacement.Store.{
  AccountPlacementRecord, Versioned, CasEffect, SharedStore,
}
use browser_profile_studio.AccountPlacement.Acquire.{
  Decision, keeps, places, is_in_namespace, candidates_of, validate_placement_record,
  validate_required, place, is_current, is_locked, replace, place_first, decide, prepare,
}

-- The generation of a stored placement is its version.
abbrev pub IsNumbered : Option Versioned → Type 0
IsNumbered none = Unit
IsNumbered (some r) = (r.placement.generation ≡ r.version) × (1 ≤ r.version)

abbrev pub GoesOn : Decision → Type 0
GoesOn (keeps worker generation) = Unit
GoesOn (places tenant account expected next) = next.generation ≡ expected + 1

-- What a later look at an account may find.
abbrev pub IsSince : Option Versioned → Option Versioned → Type 0
IsSince none after = Unit
IsSince (some r) none = ⊥
IsSince (some r) (some q) =
    (r.placement.generation ≤ q.placement.generation)
    × (r.placement.generation ≡ q.placement.generation → r ≡ q)

abbrev pub GoesOnIfOk : Result Decision → Type 0
GoesOnIfOk (ok decision) = GoesOn decision
GoesOnIfOk (error e) = Unit

pub IsSince-refl : (o : Option Versioned) → IsSince o o
IsSince-refl none = tt
IsSince-refl (some r) = (omega arith, λ same. refl)

pub IsSince-trans : (a b c : Option Versioned) → IsSince a b → IsSince b c → IsSince a c
IsSince-trans none b c f g = tt
IsSince-trans (some r) (some q) (some p) f g =
    (omega (arith, f.0, g.0), λ same. f.1 (omega (arith, f.0, g.0)) ∙ g.1 (omega (arith, f.0, g.0)))
IsSince-trans (some r) (some q) none f g = absurd g
IsSince-trans (some r) none c f g = absurd f

-- A write that goes on from a numbered placement.
pub effect-IsSince :
    (expected : ℕ) (next : AccountPlacementRecord) (before after : Option Versioned)
    → next.generation ≡ expected + 1
    → IsNumbered before
    → CasEffect expected next before after
    → IsNumbered after × IsSince before after
effect-IsSince expected next before after goes_on numbered (inl same) =
    subst (λ o. IsNumbered o × IsSince before o) (sym same) (numbered, IsSince-refl before)
effect-IsSince expected next none after goes_on numbered (inr (version, written)) =
    subst (λ o. IsNumbered o × IsSince none o) (sym written) ((goes_on, omega arith), tt)
effect-IsSince expected next (some r) after goes_on numbered (inr (version, written)) =
    subst (λ o. IsNumbered o × IsSince (some r) o) (sym written)
      (
        (goes_on, omega arith),
        (
          omega (arith, goes_on, version, numbered.0),
          λ same. absurd (omega (arith, same, goes_on, version, numbered.0)),
        ),
      )

bind-GoesOnIfOk :
    {A : Type 0} (r : Result A) (f : A → Result Decision)
    → ((a : A) → r ≡ ok a → GoesOnIfOk (f a))
    → GoesOnIfOk (r >>= f)
bind-GoesOnIfOk (ok a) f h = h a refl
bind-GoesOnIfOk (error e) f h = tt

validate_placement_record-generation :
    (value : AccountPlacementRecord) {checked : AccountPlacementRecord}
    → validate_placement_record value ≡ ok checked
    → checked.generation ≡ value.generation
unfolding validate_placement_record
validate_placement_record-generation value h = ground arith

module _ (precedes : Text → Text → Bool) (timeout : ℕ) where
  place-GoesOn :
      (tenant account : Text) (expected generation : ℕ) (namespace : WorkerNode → Text)
      (candidates : List WorkerNode)
      → generation ≡ expected + 1
      → GoesOnIfOk (place precedes timeout tenant account expected generation namespace candidates)
  unfolding place
  place-GoesOn tenant account expected generation namespace candidates h = ground arith

  replace-GoesOn :
      (tenant account : Text) (required : Option Text) (now : ℕ) (workers : Workers) (version : ℕ)
      (value : AccountPlacementRecord)
      → value.generation ≡ version
      → GoesOnIfOk (replace precedes timeout tenant account required now workers version value)
  unfolding replace
  replace-GoesOn tenant account required now workers version value same =
      let placed =
        place-GoesOn tenant account version (value.generation + 1) (λ _. value.storage_namespace)
          (select (is_in_namespace value.storage_namespace)
            (candidates_of timeout now tenant workers))
          (omega (arith, same)) in
      elim (Bool-cases (is_locked precedes timeout value.storage_namespace required)) [
        | inl locked ↦ rw (locked, GoesOnIfOk, replace) tt
        | inr free ↦
            elim (Bool-cases (
              is_current precedes timeout now tenant value.storage_namespace
                (get value.worker_id workers))) [
                  | inl kept ↦ rw (free, kept, GoesOnIfOk, replace) tt
                  | inr lost ↦ rw (free, lost, replace) placed
                ]
      ]

  decide-GoesOn :
      (tenant account : Text) (required : Option Text) (now : ℕ) (workers : Workers)
      (current : Option Versioned)
      → IsNumbered current
      → GoesOnIfOk (decide precedes timeout tenant account required now workers current)
  unfolding decide place_first
  decide-GoesOn tenant account none now workers none h = place-GoesOn tenant account 0 1 _ _ refl
  decide-GoesOn tenant account (some namespace) now workers none h =
      place-GoesOn tenant account 0 1 _ _ refl
  decide-GoesOn tenant account required now workers (some current) h =
      bind-GoesOnIfOk (validate_placement_record current.placement) _ (λ value checked.
        replace-GoesOn tenant account required now workers current.version value
          (omega (arith, validate_placement_record-generation current.placement checked, h.0)))

  module _ {S : Type 0} (store : SharedStore S) where
    pub prepare-GoesOn :
        (tenant account : Text) (required : Option Text) (clock : Option ℕ) (workers : Workers)
        (s : S)
        → ((t a : Text) → IsNumbered (store.view t a s))
        → GoesOnIfOk (prepare precedes timeout store tenant account required clock workers s)
    unfolding prepare
    prepare-GoesOn tenant account required clock workers s h =
        let look = λ (t a : Text) (r : Option Text) (current : Option Versioned).
          read_now clock >>= λ (now : ℕ). decide precedes timeout t a r now workers current in
        let read = λ (t a : Text) (r : Option Text). store.get_record t a s >>= look t a r in
        let check = λ (t a : Text). validate_required required >>= read t a in
        let scope = λ (t : Text). validate_scope account >>= check t in
        bind-GoesOnIfOk (validate_scope tenant) scope (λ t _.
          bind-GoesOnIfOk (validate_scope account) (check t) (λ a _.
            bind-GoesOnIfOk (validate_required required) (read t a) (λ r _.
              bind-GoesOnIfOk (store.get_record t a s) (look t a r) (λ current got.
                bind-GoesOnIfOk (read_now clock)
                  (λ (now : ℕ). decide precedes timeout t a r now workers current)
                  (λ now _.
                    decide-GoesOn t a r now workers current
                      (subst IsNumbered (sym (store.gets t a s got)) (h t a)))))))

-- ===== src/AccountPlacement/Store.antt =====
-- src/distributed/account-placement.ts: the shared store of placements, as the registry sees it and
-- as `InMemorySharedStateStore` keeps it.
use browser_profile_studio.Prelude.{
  leb, nat_beq, if◌then◌else◌, string_eq, nat_eq, pair_beq_iff, pair_eq, Text, text_eq, ℕ, ◌+◌, ◌≡◌,
  refl, ◌⊎◌, inl, inr, Bool, true, false, Option, none, some, arith,
}
use browser_profile_studio.Prelude.Map.{Map, get, set, get-set}
use browser_profile_studio.AccountPlacement.Scope.{
  PlacementError, invalid_version, Result, ok, error, ◌>>=◌, max_safe_integer, validate_scope,
}

pub record AccountPlacementRecord : Type 0 where
  pub worker_id : Text
  pub storage_namespace : Text
  pub generation : ℕ

pub record Versioned : Type 0 where
  pub placement : AccountPlacementRecord
  pub version : ℕ

-- The version that `compareAndSet` is to be given for what `get` returned.
abbrev pub version_of : Option Versioned → ℕ
version_of none = 0
version_of (some r) = r.version

-- What a call of `compareAndSet` may do to what is stored for an account.
abbrev pub CasEffect : ℕ → AccountPlacementRecord → Option Versioned → Option Versioned → Type 0
CasEffect expected placement before after =
    (after ≡ before)
    ⊎ (version_of before ≡ expected)
      × (after ≡ some (record { placement = placement; version = expected + 1 }))

-- `SharedAccountStateStore`: its two methods, and what the registry relies on. `view` is what is
-- stored for an account.
pub record SharedStore (S : Type 0) : Type 0 where
  pub get_record : Text → Text → S → Result (Option Versioned)
  pub compare_and_set : Text → Text → ℕ → AccountPlacementRecord → S → Result (Bool × S)
  pub view : Text → Text → S → Option Versioned
  pub gets :
      (tenant account : Text) (s : S) {current : Option Versioned}
      → get_record tenant account s ≡ ok current
      → current ≡ view tenant account s
  pub sets :
      (tenant account : Text) (expected : ℕ) (placement : AccountPlacementRecord) (s : S)
      {written : Bool} {t : S}
      → compare_and_set tenant account expected placement s ≡ ok (written, t)
      → (other_tenant other_account : Text)
      → CasEffect expected placement
          (view other_tenant other_account s)
          (view other_tenant other_account t)

abbrev pub Memory : Type 0
Memory = Map (Text × Text) Versioned

unfoldable pub state_key : Text → Text → Result (Text × Text)
state_key tenant_id account_id = do
  tenant ← validate_scope tenant_id
  account ← validate_scope account_id
  ok (tenant, account)

unfoldable pub memory_get : Text → Text → Memory → Result (Option Versioned)
memory_get tenant account store = do key ← state_key tenant account; ok (get key store)

unfoldable pub set_at : (Text × Text) → ℕ → AccountPlacementRecord → Memory → Result (Bool × Memory)
set_at key expected placement store =
    if nat_beq (version_of (get key store)) expected
    then ok (true, set key (record { placement = placement; version = expected + 1 }) store)
    else ok (false, store)

unfoldable pub memory_compare_and_set :
    Text → Text → ℕ → AccountPlacementRecord → Memory → Result (Bool × Memory)
memory_compare_and_set tenant account expected placement store =
    elim (leb expected max_safe_integer) [
      | true ↦ do key ← state_key tenant account; set_at key expected placement store
      | false ↦ error invalid_version
    ]

abbrev pub stored_at : Result (Text × Text) → Memory → Option Versioned
stored_at (ok key) store = get key store
stored_at (error e) store = none

abbrev pub memory_view : Text → Text → Memory → Option Versioned
memory_view tenant account store = stored_at (state_key tenant account) store

pub memory_gets :
    (tenant account : Text) (store : Memory) {current : Option Versioned}
    → memory_get tenant account store ≡ ok current
    → current ≡ memory_view tenant account store
unfolding memory_get
memory_gets tenant account store h = ground arith

set_at-CasEffect :
    (key : Text × Text) (expected : ℕ) (placement : AccountPlacementRecord) (store : Memory)
    {written : Bool} {after : Memory}
    → set_at key expected placement store ≡ ok (written, after)
    → (k : Text × Text) → CasEffect expected placement (get k store) (get k after)
unfolding set_at
set_at-CasEffect key expected placement store h k = ground (
  arith,
  get-set k key (record { placement = placement; version = expected + 1 }) store,
  pair_beq_iff key k,
)

stored_at-CasEffect :
    (key : Text × Text) (expected : ℕ) (placement : AccountPlacementRecord) (store : Memory)
    {written : Bool} {after : Memory}
    → set_at key expected placement store ≡ ok (written, after)
    → (k : Result (Text × Text))
    → CasEffect expected placement (stored_at k store) (stored_at k after)
stored_at-CasEffect key expected placement store h (ok k) =
    set_at-CasEffect key expected placement store h k
stored_at-CasEffect key expected placement store h (error e) = inl refl

pub Result-cases :
    {A : Type 0} (r : Result A) → ((a : A) × (r ≡ ok a)) ⊎ ((e : PlacementError) × (r ≡ error e))
Result-cases (ok a) = inl (a, refl)
Result-cases (error e) = inr (e, refl)

pub memory_sets :
    (tenant account : Text) (expected : ℕ) (placement : AccountPlacementRecord) (store : Memory)
    {written : Bool} {after : Memory}
    → memory_compare_and_set tenant account expected placement store ≡ ok (written, after)
    → (other_tenant other_account : Text)
    → CasEffect expected placement
        (memory_view other_tenant other_account store)
        (memory_view other_tenant other_account after)
unfolding memory_compare_and_set
memory_sets tenant account expected placement store {written = written} {after = after} h u a =
    elim (Result-cases (state_key tenant account)) [
      | inl (key, found) ↦
          stored_at-CasEffect key expected placement store {written = written} {after = after}
            (ground arith) (state_key u a)
      | inr (e, bad) ↦ absurd (ground arith)
    ]

-- `InMemorySharedStateStore` is such a store.
abbrev pub in_memory : SharedStore Memory
in_memory = record {
  get_record = memory_get;
  compare_and_set = memory_compare_and_set;
  view = memory_view;
  gets = memory_gets;
  sets = memory_sets;
}

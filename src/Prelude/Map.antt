-- ===== src/Prelude/Map.antt =====
-- A JavaScript `Map`: its entries in the order of insertion.
use mathlib.Core.Path.{◌≡◌, refl, subst}
use mathlib.Core.Bool.{Bool, true, false}
use mathlib.Core.Option.{Option, none, some, some-injective}
use mathlib.Core.List.{List, [], ◌∷◌, map}
use native.Mathlib.Omega.{arith}
use mathlib.Core.Logic.{inl, inr}
use browser_profile_studio.Prelude.Tests.{if◌then◌else◌, Bool-cases, Eq, string_eq, nat_eq, pair_eq}
use browser_profile_studio.Prelude.Lists.{All}

abbrev pub Map {ℓ κ} : Type ℓ → Type κ → Type (ℓ ⊔ κ)
Map K V = List (K × V)

abbrev pub values {ℓ κ} : {K : Type ℓ} {V : Type κ} → Map K V → List V
values m = map (λ entry. entry.1) m

module _ {ℓ κ} {K : Type ℓ} {V : Type κ} ⦃e : Eq K⦄ where
  unfoldable pub get : K → Map K V → Option V
  get k [] = none
  get k ((j, v) ∷ m) = if e.equal j k then some v else get k m

  unfoldable pub has : K → Map K V → Bool
  has k [] = false
  has k ((j, v) ∷ m) = if e.equal j k then true else has k m

  -- An entry that is there keeps its place.
  unfoldable pub set : K → V → Map K V → Map K V
  set k v [] = (k, v) ∷ []
  set k v ((j, w) ∷ m) = if e.equal j k then (j, v) ∷ m else (j, w) ∷ set k v m

  unfoldable pub delete : K → Map K V → Map K V
  delete k [] = []
  delete k ((j, w) ∷ m) = let rest = delete k m in if e.equal j k then rest else (j, w) ∷ rest

  -- One entry to a key.
  abbrev pub Distinct : Map K V → Type 0
  Distinct [] = Unit
  Distinct ((k, v) ∷ m) = (has k m ≡ false) × Distinct m

  pub get-set :
      (j k : K) (v : V) (m : Map K V)
      → get j (set k v m) ≡ (if e.equal k j then some v else get j m)
  unfolding get set
  get-set j k v [] = refl
  get-set j k v ((i, w) ∷ m) =
      ground (arith, e.equal_iff k j, e.equal_iff i k, e.equal_iff i j, get-set j k v m)

  pub get-set_self : (k : K) (v : V) (m : Map K V) → get k (set k v m) ≡ some v
  get-set_self k v m = ground (arith, get-set k k v m, e.equal_iff k k)

  pub get-set_ne :
      (j k : K) (v : V) (m : Map K V) → e.equal k j ≡ false → get j (set k v m) ≡ get j m
  get-set_ne j k v m d = ground (arith, get-set j k v m)

  pub get-delete :
      (j k : K) (m : Map K V) → get j (delete k m) ≡ (if e.equal k j then none else get j m)
  unfolding get delete
  get-delete j k [] = ground arith
  get-delete j k ((i, w) ∷ m) =
      ground (arith, e.equal_iff k j, e.equal_iff i k, e.equal_iff i j, get-delete j k m)

  pub has-set :
      (j k : K) (v : V) (m : Map K V) → has j (set k v m) ≡ (if e.equal k j then true else has j m)
  unfolding has set
  has-set j k v [] = refl
  has-set j k v ((i, w) ∷ m) =
      ground (arith, e.equal_iff k j, e.equal_iff i k, e.equal_iff i j, has-set j k v m)

  pub has-delete :
      (j k : K) (m : Map K V) → has j (delete k m) ≡ (if e.equal k j then false else has j m)
  unfolding has delete
  has-delete j k [] = ground arith
  has-delete j k ((i, w) ∷ m) =
      ground (arith, e.equal_iff k j, e.equal_iff i k, e.equal_iff i j, has-delete j k m)

  pub set-Distinct : (k : K) (v : V) (m : Map K V) → Distinct m → Distinct (set k v m)
  unfolding set has
  set-Distinct k v [] d = (refl, tt)
  set-Distinct k v ((i, w) ∷ m) d =
      ground (arith, set-Distinct k v m d.1, has-set i k v m, e.equal_iff k i, e.equal_iff i k)

  pub delete-Distinct : (k : K) (m : Map K V) → Distinct m → Distinct (delete k m)
  unfolding delete
  delete-Distinct k [] d = tt
  delete-Distinct k ((i, w) ∷ m) d = ground (arith, delete-Distinct k m d.1, has-delete i k m)

  pub delete_absent : (k : K) (m : Map K V) → has k m ≡ false → delete k m ≡ m
  unfolding delete has
  delete_absent k [] h = refl
  delete_absent k ((i, w) ∷ m) h = ground (arith, delete_absent k m)

  module _ {μ} (P : K × V → Type μ) where
    pub All-set :
        (k : K) (v : V) (m : Map K V) → ((j : K) → j ≡ k → P (j, v)) → All P m → All P (set k v m)
    unfolding set
    All-set k v [] new h = (new k refl, tt)
    All-set k v ((i, w) ∷ m) new h = elim (Bool-cases (e.equal i k)) [
      | inl same ↦ rw same (new i ((e.equal_iff i k).0 same), h.1)
      | inr other ↦ rw other (h.0, All-set k v m new h.1)
    ]

    pub All-delete : (k : K) (m : Map K V) → All P m → All P (delete k m)
    unfolding delete
    All-delete k [] h = tt
    All-delete k ((i, w) ∷ m) h = elim (Bool-cases (e.equal i k)) [
      | inl same ↦ rw same (All-delete k m h.1)
      | inr other ↦ rw other (h.0, All-delete k m h.1)
    ]

    pub All-get :
        (k : K) (v : V) (m : Map K V) → get k m ≡ some v → All P m → (j : K) × (j ≡ k) × P (j, v)
    unfolding get
    All-get k v [] found h = ground arith
    All-get k v ((i, w) ∷ m) found h = elim (Bool-cases (e.equal i k)) [
      | inl same ↦ (
        i,
        (e.equal_iff i k).0 same,
        subst (λ x. P (i, x)) (some-injective w v (ground arith)) h.0,
      )
      | inr other ↦ All-get k v m (ground arith) h.1
    ]

-- ===== src/Prelude/Lists.antt =====
-- Lists measured by native numbers, and Boolean tests over them.
use Prim.Native.Nat.{ℕ, zero, suc, ◌+◌, ◌-◌, ◌<◌}
use mathlib.Core.Path.{◌≡◌, refl, sym, ap, subst}
use mathlib.Core.Bool.{Bool, true, false, ◌&&◌, ◌||◌}
use mathlib.Core.List.{List, [], ◌∷◌, ◌++◌}
use mathlib.Core.Option.{Option, none, some}
use native.Mathlib.Omega.{arith}
use mathlib.Core.Logic.{◌⊎◌, ◌↔◌, inl, inr}
use browser_profile_studio.Prelude.Tests.{
  if◌then◌else◌, Bool-cases, string_eq, nat_eq, bool_eq, pair_eq,
}

module _ {ℓ} {A : Type ℓ} where
  abbrev pub length : List A → ℕ
  length [] = 0
  length (x ∷ xs) = suc (length xs)

  abbrev pub get_elem? : List A → ℕ → Option A
  get_elem? [] i = none
  get_elem? (x ∷ xs) zero = some x
  get_elem? (x ∷ xs) (suc i) = get_elem? xs i

  abbrev pub drop : ℕ → List A → List A
  drop zero xs = xs
  drop (suc n) [] = []
  drop (suc n) (x ∷ xs) = drop n xs

  abbrev pub take : ℕ → List A → List A
  take zero xs = []
  take (suc n) [] = []
  take (suc n) (x ∷ xs) = x ∷ take n xs

  abbrev pub all : (A → Bool) → List A → Bool
  all p [] = true
  all p (x ∷ xs) = p x && all p xs

  abbrev pub any : (A → Bool) → List A → Bool
  any p [] = false
  any p (x ∷ xs) = p x || any p xs

  abbrev pub select : (A → Bool) → List A → List A
  select p [] = []
  select p (x ∷ xs) = let rest = select p xs in if p x then x ∷ rest else rest

  pub length-append : (xs ys : List A) → length (xs ++ ys) ≡ length xs + length ys
  length-append [] ys = omega arith
  length-append (x ∷ xs) ys = omega (arith, length-append xs ys)

  pub length-drop : (n : ℕ) (xs : List A) → length (drop n xs) ≡ length xs - n
  length-drop zero xs = omega arith
  length-drop (suc n) [] = omega arith
  length-drop (suc n) (x ∷ xs) = omega (arith, length-drop n xs)

module _ {ℓ κ} {A : Type ℓ} (P : A → Type κ) where
  abbrev pub All : List A → Type κ
  All [] = Unit
  All (x ∷ xs) = P x × All xs

  pub All-select : (p : A → Bool) (xs : List A) → All xs → All (select p xs)
  All-select p [] h = tt
  All-select p (x ∷ xs) h = elim (Bool-cases (p x)) [
    | inl kept ↦ rw kept (h.0, All-select p xs h.1)
    | inr left ↦ rw left (All-select p xs h.1)
  ]

module _ {A : Type 0} where
  -- `x` stands somewhere in the list.
  abbrev pub In : A → List A → Type 0
  In x [] = ⊥
  In x (y ∷ ys) = (y ≡ x) ⊎ In x ys

  pub In-select :
      (p : A → Bool) (x : A) (ys : List A) → In x (select p ys) ↔ (In x ys × (p x ≡ true))
  In-select p x [] = ground arith
  In-select p x (y ∷ ys) = ground (arith, In-select p x ys)

  pub all_iff-In :
      (p : A → Bool) (xs : List A) → (all p xs ≡ true) ↔ ((x : A) → In x xs → p x ≡ true)
  all_iff-In p [] = (λ h x there. absurd there, λ h. refl)
  all_iff-In p (y ∷ ys) = (
    λ h x there. elim there [
      | inl same ↦ subst (λ z. p z ≡ true) same (ground arith)
      | inr later ↦ (all_iff-In p ys).0 (ground arith) x later
    ],
    λ h. ground (arith, h y (inl refl), (all_iff-In p ys).1 (λ x later. h x (inr later))),
  )

  pub any-In : (p : A → Bool) (xs : List A) → any p xs ≡ true → (x : A) × In x xs × (p x ≡ true)
  any-In p [] h = absurd (ground arith)
  any-In p (y ∷ ys) h = elim (Bool-cases (p y)) [
    | inl here ↦ (y, inl refl, here)
    | inr elsewhere ↦ let (x, later, passes) = any-In p ys (ground arith) in (x, inr later, passes)
  ]

  pub In-any : (p : A → Bool) (x : A) (xs : List A) → In x xs → p x ≡ true → any p xs ≡ true
  In-any p x [] h passes = absurd h
  In-any p x (y ∷ ys) (inl same) passes = ground (arith, subst (λ z. p z ≡ true) (sym same) passes)
  In-any p x (y ∷ ys) (inr later) passes = ground (arith, In-any p x ys later passes)

  pub get_elem?-In : (i : ℕ) (xs : List A) {x : A} → get_elem? xs i ≡ some x → In x xs
  get_elem?-In i [] h = ground arith
  get_elem?-In zero (y ∷ ys) h = ground arith
  get_elem?-In (suc i) (y ∷ ys) h = inr (get_elem?-In i ys h)

  pub In-place :
      (x : A) (xs : List A) → In x xs → (i : ℕ) × (i < length xs) × (get_elem? xs i ≡ some x)
  In-place x [] h = absurd h
  In-place x (y ∷ ys) (inl same) = (0, omega arith, ap some same)
  In-place x (y ∷ ys) (inr later) =
      let place = In-place x ys later in (suc place.0, omega (arith, place.1), place.2)

  pub get_elem?-some : (i : ℕ) (xs : List A) → i < length xs → (x : A) × (get_elem? xs i ≡ some x)
  get_elem?-some i [] h = absurd (omega arith)
  get_elem?-some zero (x ∷ xs) h = (x, refl)
  get_elem?-some (suc i) (x ∷ xs) h = get_elem?-some i xs (omega arith)

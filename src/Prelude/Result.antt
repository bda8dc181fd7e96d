-- ===== src/Prelude/Result.antt =====
-- What code that may throw gives: a value or an error.
use mathlib.Core.Path.{◌≡◌, refl}
use mathlib.Core.Logic.{◌⊎◌, inl, inr}

pub data Result (E A : Type 0) : Type 0 where
  ok : A → Result E A
  error : E → Result E A

infixl 5 ◌>>=◌
abbrev pub ◌>>=◌ : {E A B : Type 0} → Result E A → (A → Result E B) → Result E B
ok a >>= f = f a
error e >>= f = error e

pub Result-cases :
    {E A : Type 0} (r : Result E A) → ((a : A) × (r ≡ ok a)) ⊎ ((e : E) × (r ≡ error e))
Result-cases (ok a) = inl (a, refl)
Result-cases (error e) = inr (e, refl)

-- A property of a composition, from the two ways its first part may end.
pub bind-cases :
    {E A B : Type 0} (P : Result E B → Type 0) (m : Result E A) (f : A → Result E B)
    → ((a : A) → m ≡ ok a → P (f a))
    → ((e : E) → P (error e))
    → P (m >>= f)
bind-cases P (ok a) f good bad = good a refl
bind-cases P (error e) f good bad = bad e

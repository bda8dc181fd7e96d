-- ===== src/Prelude/Hoare.antt =====
-- Invariants of an object's fields through the methods that are composed of others.
use mathlib.Core.Path.{◌≡◌, refl}
use mathlib.Core.Bool.{Bool, true, false}
use browser_profile_studio.Prelude.Tests.{if◌then◌else◌, string_eq, nat_eq, bool_eq, pair_eq}
use browser_profile_studio.Prelude.Method.{
  Outcome, returns, throws, Method, final, ◌>>=◌, ◌>>◌, throw_if,
}

abbrev pub Anything : {A : Type 0} → A → Type 0
Anything a = Unit

module _ {E S : Type 0} (I : S → Type 0) where
  -- The invariant holds after the call, and what is returned satisfies `Q`.
  abbrev pub Leaves : {A : Type 0} → (A → Type 0) → Outcome E S A → Type 0
  Leaves Q (returns a s) = I s × Q a
  Leaves Q (throws e s) = I s

  abbrev pub Ensures : {A : Type 0} → Method E S A → (A → Type 0) → Type 0
  Ensures m Q = (s : S) → I s → Leaves Q (m s)

  Leaves-bind :
      {A B : Type 0} (o : Outcome E S A) (f : A → Method E S B) (Q : A → Type 0) (R : B → Type 0)
      → Leaves Q o
      → ((a : A) → Q a → Ensures (f a) R)
      → Leaves R (elim o [ returns a s ↦ f a s | throws e s ↦ throws e s ])
  Leaves-bind (returns a s) f Q R l later = later a l.1 s l.0
  Leaves-bind (throws e s) f Q R l later = l

  pub bind-Ensures :
      {A B : Type 0} (m : Method E S A) (f : A → Method E S B) (Q : A → Type 0) (R : B → Type 0)
      → Ensures m Q
      → ((a : A) → Q a → Ensures (f a) R)
      → Ensures (m >>= f) R
  bind-Ensures m f Q R first later s i = Leaves-bind (m s) f Q R (first s i) later

  pub then-Ensures :
      {A B : Type 0} (m : Method E S A) (k : Method E S B) (R : B → Type 0)
      → Ensures m Anything
      → Ensures k R
      → Ensures (m >> k) R
  then-Ensures m k R first later s i =
      Leaves-bind (m s) (λ _. k) Anything R (first s i) (λ a _. later)

  pub throw_if-Ensures : (b : Bool) (e : E) → Ensures (throw_if b e) Anything
  throw_if-Ensures true e s i = i
  throw_if-Ensures false e s i = (i, tt)

  -- After a guard its test is known to have failed.
  pub guard-Ensures :
      {B : Type 0} (b : Bool) (e : E) (k : Method E S B) (R : B → Type 0)
      → (b ≡ false → Ensures k R)
      → Ensures (throw_if b e >> k) R
  guard-Ensures true e k R passed s i = i
  guard-Ensures false e k R passed s i = passed refl s i

  pub if-Leaves :
      {A : Type 0} (Q : A → Type 0) (b : Bool) (o r : Outcome E S A)
      → Leaves Q o
      → Leaves Q r
      → Leaves Q (if b then o else r)
  if-Leaves Q true o r first second = first
  if-Leaves Q false o r first second = second

  pub Leaves-final : {A : Type 0} (Q : A → Type 0) (o : Outcome E S A) → Leaves Q o → I (final o)
  Leaves-final Q (returns a s) l = l.0
  Leaves-final Q (throws e s) l = l

-- ===== src/Prelude/Method.antt =====
-- A method of a stateful object: it returns a value or throws, and in both cases leaves the
-- object's fields as they then are.
use mathlib.Core.Bool.{Bool, true, false}

pub data Outcome (E S A : Type 0) : Type 0 where
  returns : A → S → Outcome E S A
  throws : E → S → Outcome E S A

abbrev pub Method : Type 0 → Type 0 → Type 0 → Type 0
Method E S A = S → Outcome E S A

-- The fields after the call.
abbrev pub final : {E S A : Type 0} → Outcome E S A → S
final (returns a s) = s
final (throws e s) = s

infixl 5 ◌>>=◌ ◌>>◌
abbrev pub ◌>>=◌ : {E S A B : Type 0} → Method E S A → (A → Method E S B) → Method E S B
◌>>=◌ m f s = elim (m s) [ returns a t ↦ f a t | throws e t ↦ throws e t ]

abbrev pub ◌>>◌ : {E S A B : Type 0} → Method E S A → Method E S B → Method E S B
◌>>◌ m k s = elim (m s) [ returns a t ↦ k t | throws e t ↦ throws e t ]

abbrev pub return : {E S A : Type 0} → A → Method E S A
return a s = returns a s

abbrev pub throw : {E S A : Type 0} → E → Method E S A
throw e s = throws e s

abbrev pub fields : {E S : Type 0} → Method E S S
fields s = returns s s

abbrev pub modify : {E S : Type 0} → (S → S) → Method E S (Unit {0})
modify f s = returns tt (f s)

-- `if (condition) throw error;`
abbrev pub throw_if : {E S : Type 0} → Bool → E → Method E S (Unit {0})
throw_if true e s = throws e s
throw_if false e s = returns tt s

-- ===== src/AccountPlacement/Scope.antt =====
-- src/distributed/account-placement.ts: the checks of names, and what a method throws.
use browser_profile_studio.Prelude.{
  leb, nat_beq, if◌then◌else◌, string_eq, nat_eq, pair_eq, length, all, Text, text_eq, trim, ℕ,
  Bool, false, ◌&&◌, ◌||◌, Option, none, some, [], ◌∷◌,
}

pub data PlacementError : Type 0 where
  invalid_scope invalid_namespace invalid_capacity invalid_load invalid_clock : PlacementError
  invalid_version corrupt_record namespace_locked no_workers : PlacementError
  generation_exhausted cas_conflict : PlacementError

pub data Result (A : Type 0) : Type 0 where
  ok : A → Result A
  error : PlacementError → Result A

infixl 5 ◌>>=◌
abbrev pub ◌>>=◌ : {A B : Type 0} → Result A → (A → Result B) → Result B
ok a >>= f = f a
error e >>= f = error e

abbrev pub max_safe_integer : ℕ
max_safe_integer = 9_007_199_254_740_991

-- White space around the name is dropped.
unfoldable pub validate_scope : Text → Result Text
validate_scope value =
    let normalized = trim value in
    if leb 1 (length normalized) && leb (length normalized) 256
    then ok normalized
    else error invalid_scope

unfoldable pub is_alphanumeric : ℕ → Bool
is_alphanumeric c = (leb 48 c && leb c 57) || (leb 65 c && leb c 90) || (leb 97 c && leb c 122)

-- A letter, a digit or one of `.`, `_`, `:` and `-`.
unfoldable pub is_name_char : ℕ → Bool
unfolding is_alphanumeric
is_name_char c = is_alphanumeric c || nat_beq c 46 || nat_beq c 95 || nat_beq c 58 || nat_beq c 45

unfoldable pub is_storage_namespace : Text → Bool
is_storage_namespace [] = false
is_storage_namespace (c ∷ rest) =
    is_alphanumeric c && all is_name_char rest && leb (length rest) 127

unfoldable pub validate_storage_namespace : Text → Result Text
validate_storage_namespace value =
    let normalized = trim value in
    if is_storage_namespace normalized then ok normalized else error invalid_namespace

unfoldable pub read_now : Option ℕ → Result ℕ
read_now none = error invalid_clock
read_now (some now) = ok now

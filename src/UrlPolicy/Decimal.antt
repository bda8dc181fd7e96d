-- ===== src/UrlPolicy/Decimal.antt =====
-- src/policy/url-policy.ts: a dotted address is read back as its octets.
use browser_profile_studio.Prelude.{
  ltb, nat_beq, if◌then◌else◌, Bool-cases, string_eq, nat_eq, bool_eq, pair_eq, length, All, Text,
  text_eq, ℕ, zero, suc, ◌+◌, ◌*◌, ◌/◌, ◌%◌, ◌≤◌, ◌<◌, ◌≡◌, refl, ap, ◌∙◌, inl, inr, Bool, true,
  false, some, List, [], ◌∷◌, ◌++◌, arith,
}
use browser_profile_studio.Prelude.Ascii.{
  prepend, split, is_digit, decimal_from, decimal, read_digits, parse_int,
}
use browser_profile_studio.UrlPolicy.Address.{octets_from, octets_of}
use browser_profile_studio.UrlPolicy.Classify.{dotted}

abbrev IsDigits : Text → Type 0
IsDigits s = All (λ c. is_digit c ≡ true) s

digit-is_digit : (m : ℕ) → m < 10 → is_digit (48 + m) ≡ true
digit-is_digit m h = ground arith

read_digit :
    (k m : ℕ) (s : Text) → m < 10 → read_digits k ((48 + m) ∷ s) ≡ read_digits (k * 10 + m) s
unfolding read_digits
read_digit k m s h = rw (digit-is_digit m h) (ap (λ (n : ℕ). read_digits n s) (omega arith))

read_digits-decimal_from :
    (fuel n : ℕ) (s : Text) → n < fuel → read_digits 0 (decimal_from fuel n s) ≡ read_digits n s
unfolding decimal_from
read_digits-decimal_from zero n s h = absurd (omega arith)
read_digits-decimal_from (suc fuel) n s h = elim (Bool-cases (ltb n 10)) [
  | inl small ↦
      rw (small, decimal_from)
        (read_digit 0 n s (ground arith) ∙ ap (λ (k : ℕ). read_digits k s) (omega arith))
  | inr large ↦
      rw (large, decimal_from)
        (read_digits-decimal_from fuel (n / 10) ((48 + n % 10) ∷ s) (ground arith)
          ∙ read_digit (n / 10) (n % 10) s (omega arith)
          ∙ ap (λ (k : ℕ). read_digits k s) (omega arith))
]

decimal_from-IsDigits : (fuel n : ℕ) (s : Text) → IsDigits s → IsDigits (decimal_from fuel n s)
unfolding decimal_from
decimal_from-IsDigits zero n s h = h
decimal_from-IsDigits (suc fuel) n s h = elim (Bool-cases (ltb n 10)) [
  | inl small ↦ rw (small, decimal_from) (digit-is_digit n (ground arith), h)
  | inr large ↦
      rw (large, decimal_from)
        (decimal_from-IsDigits fuel (n / 10) ((48 + n % 10) ∷ s)
          (digit-is_digit (n % 10) (omega arith), h))
]

decimal_from-length : (fuel n : ℕ) (s : Text) → n < fuel → 1 ≤ length (decimal_from fuel n s)
unfolding decimal_from
decimal_from-length zero n s h = absurd (omega arith)
decimal_from-length (suc fuel) n s h = elim (Bool-cases (ltb n 10)) [
  | inl small ↦ rw (small, decimal_from) (omega arith)
  | inr large ↦
      rw (large, decimal_from)
        (decimal_from-length fuel (n / 10) ((48 + n % 10) ∷ s) (ground arith))
]

parse_int-digits : (s : Text) → IsDigits s → 1 ≤ length s → parse_int s ≡ some (read_digits 0 s)
unfolding parse_int
parse_int-digits [] d h = absurd (omega arith)
parse_int-digits (c ∷ s) d h = rw d.0 refl

-- Printing a number and reading it gives the number: its fuel is enough.
pub parse_int-decimal : (n : ℕ) → parse_int (decimal n) ≡ some n
unfolding decimal read_digits
parse_int-decimal n =
    parse_int-digits (decimal_from (suc n) n []) (decimal_from-IsDigits (suc n) n [] tt)
      (decimal_from-length (suc n) n [] (omega arith))
    ∙ ap some (read_digits-decimal_from (suc n) n [] (omega arith))

split-digits : (ds s : Text) → IsDigits ds → split 46 (ds ++ 46 ∷ s) ≡ ds ∷ split 46 s
unfolding split
split-digits [] s d = refl
split-digits (c ∷ ds) s d =
    let other : nat_beq c 46 ≡ false = ground (arith, d.0) in
    let parts = split 46 (ds ++ 46 ∷ s) in
    ap (λ (b : Bool). if b then [] ∷ parts else prepend c parts) other
    ∙ ap (prepend c) (split-digits ds s d.1)

split-last : (ds : Text) → IsDigits ds → split 46 ds ≡ ds ∷ []
unfolding split
split-last [] d = refl
split-last (c ∷ ds) d =
    let other : nat_beq c 46 ≡ false = ground (arith, d.0) in
    ap (λ (b : Bool). if b then [] ∷ split 46 ds else prepend c (split 46 ds)) other
    ∙ ap (prepend c) (split-last ds d.1)

decimal-IsDigits : (n : ℕ) → IsDigits (decimal n)
unfolding decimal
decimal-IsDigits n = decimal_from-IsDigits (suc n) n [] tt

octets_from-decimals :
    (a b c d : ℕ)
    → octets_from (decimal a ∷ decimal b ∷ decimal c ∷ decimal d ∷ []) ≡ some (a, b, c, d)
octets_from-decimals a b c d =
    rw (parse_int-decimal a, parse_int-decimal b, parse_int-decimal c, parse_int-decimal d) refl

-- A dotted address is read back as its octets.
pub octets_of-dotted : (a b c d : ℕ) → octets_of (dotted a b c d) ≡ some (a, b, c, d)
unfolding octets_of
octets_of-dotted a b c d =
    let last = split-last (decimal d) (decimal-IsDigits d) in
    let third =
      split-digits (decimal c) (decimal d) (decimal-IsDigits c)
      ∙ ap (λ (ps : List Text). decimal c ∷ ps) last in
    let second =
      split-digits (decimal b) (decimal c ++ (46 ∷ decimal d)) (decimal-IsDigits b)
      ∙ ap (λ (ps : List Text). decimal b ∷ ps) third in
    let first =
      split-digits (decimal a) (decimal b ++ (46 ∷ (decimal c ++ (46 ∷ decimal d))))
        (decimal-IsDigits a)
      ∙ ap (λ (ps : List Text). decimal a ∷ ps) second in
    ap octets_from first ∙ octets_from-decimals a b c d

-- ===== src/SnapshotHistory/Capacity.antt =====
-- src/browser/snapshot-history.ts: what holds where a call returns, and what a preparation leaves.
use browser_profile_studio.Prelude.{
  nat_beq, Bool-cases, string_eq, nat_eq, bool_eq, pair_eq, take, Text, text_eq, ℕ, ◌≡◌, refl, inl,
  inr, Bool, true, false, not, ◌&&◌, Option, none, some,
}
use browser_profile_studio.Prelude.Method.{Outcome, returns, throws, ◌>>=◌, ◌>>◌, return, throw_if}
use browser_profile_studio.Prelude.Result.{Result, ok, error}
use browser_profile_studio.SnapshotHistory.Node.{SnapshotError, invalid_snapshot}
use browser_profile_studio.SnapshotHistory.State.{Prepared, History, Call}
use browser_profile_studio.SnapshotHistory.Prepare.{
  SemanticSnapshot, no_options, is_revision, assert_snapshot_shape, assert_revision, is_opaque,
  is_opaque_if_any, lift, normalize_nodes, raw_targets, Platform, choose_id, prepared_of,
  prepare_nodes, prepare_snapshot,
}
use browser_profile_studio.SnapshotHistory.Diff.{as_snapshot}

-- What holds where the call returns.
abbrev pub Gives : {A : Type 0} → (A → History → Type 0) → Outcome SnapshotError History A → Type 0
Gives Q (returns a h) = Q a h
Gives Q (throws e h) = Unit

Gives-bind :
    {A B : Type 0} (Q : A → History → Type 0) (R : B → History → Type 0)
    (o : Outcome SnapshotError History A) (next : A → Call B)
    → Gives Q o
    → ((a : A) (g : History) → Q a g → Gives R (next a g))
    → Gives R (elim o [ returns a g ↦ next a g | throws e g ↦ throws e g ])
Gives-bind Q R (returns a g) next q later = later a g q
Gives-bind Q R (throws e g) next q later = tt

pub Gives-then :
    {A B : Type 0} (Q : A → History → Type 0) (R : B → History → Type 0) (call : Call A)
    (next : A → Call B) (g : History)
    → Gives Q (call g)
    → ((a : A) (f : History) → Q a f → Gives R (next a f))
    → Gives R ((call >>= next) g)
Gives-then Q R call next g = Gives-bind Q R (call g) next

pub always :
    {A : Type 0} (P : Type 0) (o : Outcome SnapshotError History A) → P → Gives (λ _ _. P) o
always P (returns a h) p = p
always P (throws e h) p = tt

pub Gives-weaken :
    {A : Type 0} (Q R : A → History → Type 0) (o : Outcome SnapshotError History A)
    → ((a : A) (g : History) → Q a g → R a g)
    → Gives Q o
    → Gives R o
Gives-weaken Q R (returns a g) f q = f a g q
Gives-weaken Q R (throws e g) f q = tt

-- The entries are those of `h`.
abbrev pub Same : {A : Type 0} → History → A → History → Type 0
Same h a g = g.entries ≡ h.entries

throw_if-Same :
    (b : Bool) (e : SnapshotError) (h g : History)
    → g.entries ≡ h.entries
    → Gives (Same h) (throw_if b e g)
throw_if-Same true e h g same = tt
throw_if-Same false e h g same = same

lift-Same :
    {A : Type 0} (r : Result SnapshotError A) (h g : History)
    → g.entries ≡ h.entries
    → Gives (Same h) (lift r g)
lift-Same (ok a) h g same = same
lift-Same (error e) h g same = tt

assert_revision-Same :
    (actual : ℕ) (expected : Option ℕ) (h g : History)
    → g.entries ≡ h.entries
    → Gives (Same h) (assert_revision actual expected g)
unfolding assert_revision
assert_revision-Same actual none h g same = same
assert_revision-Same actual (some expected) h g same = elim (Bool-cases (is_revision expected)) [
  | inl fine ↦ elim (Bool-cases (nat_beq actual expected)) [
    | inl equal ↦ rw (fine, equal) same
    | inr other ↦ rw (fine, other) tt
  ]
  | inr bad ↦ rw bad tt
]

module _ (p : Platform) where
  prepare_nodes-Same :
      (input : SemanticSnapshot) (revision : ℕ) (id : Text) (h g : History)
      → g.entries ≡ h.entries
      → Gives (Same h) (prepare_nodes p input revision id g)
  unfolding prepare_nodes
  prepare_nodes-Same input revision id h g same =
      let nodes =
        normalize_nodes p.sha256 input.generation (take g.limits.max_nodes (raw_targets input)) in
      let bad_tab = not (is_opaque_if_any input.tab_id) in
      Gives-bind (Same h) (Same h) (lift nodes g)
        (λ ns. throw_if bad_tab invalid_snapshot >> return (prepared_of p id revision input ns))
        (lift-Same nodes h g same)
        (λ ns f kept.
          Gives-bind (Same h) (Same h) (throw_if bad_tab invalid_snapshot f)
            (λ _. return (prepared_of p id revision input ns))
            (throw_if-Same bad_tab invalid_snapshot h f kept) (λ _ _ left. left))

  choose_id-Same :
      (id : Text) (revision : ℕ) (h g : History)
      → g.entries ≡ h.entries
      → Gives (Same h) (choose_id p (some id) revision g)
  unfolding choose_id
  choose_id-Same id revision h g same = elim (Bool-cases (is_opaque 200 id)) [
    | inl good ↦ rw (good, choose_id, Gives) same
    | inr bad ↦ rw (bad, choose_id, Gives) tt
  ]

  -- The second preparation, of what was saved.
  pub prepare_snapshot-Same :
      (saved : Prepared) (h : History)
      → Gives (Same h) (prepare_snapshot p (as_snapshot saved) no_options h)
  unfolding prepare_snapshot assert_snapshot_shape
  prepare_snapshot-Same saved h =
      let input = as_snapshot saved in
      let revision = saved.page_revision in
      let unsafe = throw_if (not (is_revision revision)) invalid_snapshot in
      let choose = choose_id p (some saved.snapshot_id) revision in
      let finish = prepare_nodes p input revision in
      let rest = unsafe >> (assert_revision revision none >> (choose >>= finish)) in
      let shape =
        not (is_revision saved.generation && true && is_revision revision && true && true) in
      Gives-then (Same h) (Same h) (throw_if shape invalid_snapshot) (λ _. rest) h
        (throw_if-Same shape invalid_snapshot h h refl)
        (λ _ g same.
          Gives-then (Same h) (Same h) unsafe
            (λ _. assert_revision revision none >> (choose >>= finish)) g
            (throw_if-Same (not (is_revision revision)) invalid_snapshot h g same)
            (λ _ f still.
              Gives-then (Same h) (Same h) (assert_revision revision none) (λ _. choose >>= finish)
                f (assert_revision-Same revision none h f still)
                (λ _ e left.
                  Gives-then (Same h) (Same h) choose finish e
                    (choose_id-Same saved.snapshot_id revision h e left)
                    (λ id d there. prepare_nodes-Same input revision id h d there))))

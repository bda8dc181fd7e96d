-- ===== src/SnapshotHistory/Steps.antt =====
-- src/browser/snapshot-history.ts: the steps of `prepareSnapshot` keep what depends on no sequence.
use browser_profile_studio.Prelude.{
  nat_beq, Bool-cases, string_eq, nat_eq, bool_eq, pair_eq, Text, text_eq, ℕ, zero, suc, ◌+◌, ◌≡◌,
  refl, inl, inr, true, false, not, ◌&&◌, Option, none, some, [], ◌∷◌, arith,
}
use browser_profile_studio.Prelude.Method.{◌>>=◌, ◌>>◌, throw_if}
use browser_profile_studio.SnapshotHistory.Node.{
  SnapshotError, page_revision_mismatch, invalid_snapshot,
}
use browser_profile_studio.SnapshotHistory.State.{Prepared, StoredEntry, History}
use browser_profile_studio.SnapshotHistory.Retain.{is_empty_id}
use browser_profile_studio.Prelude.Map.{has}
use browser_profile_studio.Prelude.Hoare.{
  Anything, Leaves, Ensures, bind-Ensures, then-Ensures, throw_if-Ensures,
}
use browser_profile_studio.Prelude.Result.{Result, ok, error}
use browser_profile_studio.SnapshotHistory.Diff.{SnapshotDiffOptions, check_revision}
use browser_profile_studio.SnapshotHistory.Prepare.{
  SemanticSnapshot, SnapshotRecordOptions, is_revision, is_revision_if_any, or_else, is_absent,
  assert_snapshot_shape, assert_revision, is_opaque, lift, revision_of, Platform, next_snapshot_id,
  choose_id, prepare_nodes, prepare_snapshot,
}

abbrev pub IsNamedId : Text → Type 0
IsNamedId id = is_empty_id id ≡ false

opaque-IsNamedId : (n : ℕ) (id : Text) → is_opaque n id ≡ true → IsNamedId id
unfolding is_opaque
opaque-IsNamedId n [] h = ground arith
opaque-IsNamedId n (c ∷ s) h = refl

module _ (I : History → Type 0) where
  pub lift-Keeps : {A : Type 0} (r : Result SnapshotError A) → Ensures I (lift r) Anything
  lift-Keeps (ok a) h b = (b, tt)
  lift-Keeps (error e) h b = b

  pub assert_revision-Keeps :
      (actual : ℕ) (expected : Option ℕ) → Ensures I (assert_revision actual expected) Anything
  unfolding assert_revision
  assert_revision-Keeps actual none h b = (b, tt)
  assert_revision-Keeps actual (some expected) h b = elim (Bool-cases (is_revision expected)) [
    | inl fine ↦ elim (Bool-cases (nat_beq actual expected)) [
      | inl same ↦ rw (fine, same) (b, tt)
      | inr other ↦ rw (fine, other) b
    ]
    | inr bad ↦ rw bad b
  ]

  assert_snapshot_shape-Keeps :
      (input : SemanticSnapshot) → Ensures I (assert_snapshot_shape input) Anything
  unfolding assert_snapshot_shape
  assert_snapshot_shape-Keeps input =
      throw_if-Ensures I
        (not (
          is_revision input.generation
          && is_revision_if_any input.page_generation
          && is_revision_if_any input.page_revision
          && is_revision_if_any input.frame_generation
          && not (is_absent input.targets && is_absent input.elements)))
        invalid_snapshot

  -- The identifiers' sequence is the only field that a preparation sets.
  module _ (p : Platform)
      (counts : (n : ℕ) (h : History) → I h → I (record h { sequence = n })) where
    next_snapshot_id-Keeps :
        (attempts revision : ℕ) → Ensures I (next_snapshot_id p attempts revision) IsNamedId
    unfolding next_snapshot_id
    next_snapshot_id-Keeps zero revision h b = b
    next_snapshot_id-Keeps (suc attempts) revision h b =
        let id = p.id_of (h.sequence + 1) revision in
        let next = record h { sequence = h.sequence + 1 } in
        let kept = counts (h.sequence + 1) h b in
        elim (Bool-cases (is_opaque 200 id)) [
          | inr bad ↦ rw (bad, next_snapshot_id, Leaves) kept
          | inl good ↦ elim (Bool-cases (has id h.entries)) [
            | inr free ↦
                rw (good, free, next_snapshot_id, Leaves) (kept, opaque-IsNamedId 200 id good)
            | inl taken ↦
                rw (good, taken, next_snapshot_id)
                  (next_snapshot_id-Keeps attempts revision next kept)
          ]
        ]

    choose_id-Keeps :
        (given : Option Text) (revision : ℕ) → Ensures I (choose_id p given revision) IsNamedId
    unfolding choose_id
    choose_id-Keeps none revision h b = next_snapshot_id-Keeps 8 revision h b
    choose_id-Keeps (some id) revision h b = elim (Bool-cases (is_opaque 200 id)) [
      | inl good ↦ rw (good, choose_id, Leaves) (b, opaque-IsNamedId 200 id good)
      | inr bad ↦ rw (bad, choose_id, Leaves) b
    ]

    pub prepare_snapshot-Keeps :
        (Q : Prepared → Type 0) (input : SemanticSnapshot) (options : SnapshotRecordOptions)
        → ((id : Text)
            → IsNamedId id
            → Ensures I (prepare_nodes p input (revision_of input options) id) Q)
        → Ensures I (prepare_snapshot p input options) Q
    unfolding prepare_snapshot
    prepare_snapshot-Keeps Q input options finished =
        let revision = revision_of input options in
        let unsafe = throw_if (not (is_revision revision)) invalid_snapshot in
        let expected = assert_revision revision options.expected_page_revision in
        let choose = choose_id p (or_else options.snapshot_id input.snapshot_id) revision in
        let finish = prepare_nodes p input revision in
        then-Ensures I (assert_snapshot_shape input) (unsafe >> (expected >> (choose >>= finish))) Q
          (assert_snapshot_shape-Keeps input)
          (then-Ensures I unsafe (expected >> (choose >>= finish)) Q
            (throw_if-Ensures I (not (is_revision revision)) invalid_snapshot)
            (then-Ensures I expected (choose >>= finish) Q
              (assert_revision-Keeps revision options.expected_page_revision)
              (bind-Ensures I choose finish IsNamedId Q
                (choose_id-Keeps (or_else options.snapshot_id input.snapshot_id) revision)
                finished)))

  pub check_revision-Keeps :
      (p : Platform) (current : Prepared) (base : StoredEntry) (options : SnapshotDiffOptions)
      → Ensures I (check_revision p current base options) Anything
  check_revision-Keeps p current base options =
      let bad =
        options.require_same_page_revision
        && not (nat_beq current.page_revision base.page_revision) in
      then-Ensures I (assert_revision current.page_revision options.expected_page_revision)
        (throw_if bad page_revision_mismatch) Anything
        (assert_revision-Keeps current.page_revision options.expected_page_revision)
        (throw_if-Ensures I bad page_revision_mismatch)

-- ===== src/SnapshotHistory/Calls.antt =====
-- src/browser/snapshot-history.ts: the bounds hold through any sequence of calls.
use browser_profile_studio.Prelude.{
  Bool-cases, Option-cases, string_eq, nat_eq, bool_eq, pair_eq, Text, text_eq, ℕ, ◌≤◌, ◌≡◌, sym,
  subst, inl, inr, false, Option, none, some, map,
}
use browser_profile_studio.Prelude.Map.{get, has}
use browser_profile_studio.Prelude.Hoare.{Anything, Ensures, bind-Ensures, then-Ensures}
use browser_profile_studio.Prelude.Method.{◌>>=◌, ◌>>◌, return}
use browser_profile_studio.SnapshotHistory.State.{Prepared, StoredEntry, Limits, History}
use browser_profile_studio.SnapshotHistory.Retain.{
  is_empty_id, prune, is_same, insert, is_too_large, retain, retain_prepared, missing, or_missing,
  require_entry,
}
use browser_profile_studio.SnapshotHistory.Size.{absent-get}
use browser_profile_studio.SnapshotHistory.Bounds.{IsBounded, insert-IsBounded}
use browser_profile_studio.SnapshotHistory.Ensures.{
  IsNamedSnapshot, prune-Ensures, prepare_snapshot-Ensures,
}
use browser_profile_studio.SnapshotHistory.Steps.{lift-Keeps, check_revision-Keeps}
use browser_profile_studio.SnapshotHistory.Prepare.{
  SemanticSnapshot, SnapshotRecordOptions, no_options, lift, normalize_nodes, Platform,
  prepare_snapshot, record_snapshot,
}
use browser_profile_studio.SnapshotHistory.Matching.{diff_of}
use browser_profile_studio.SnapshotHistory.Diff.{
  SnapshotDiffOptions, as_input, make_diff, check_revision, diff,
}

module _ (limits : Limits) (positive : 1 ≤ limits.max_snapshots) where
  missing-Ensures : (id : Text) → Ensures (IsBounded limits) (missing id) Anything
  missing-Ensures id h b = elim (Bool-cases (has id h.expired_ids)) [
    | inl expired ↦ rw expired b
    | inr unknown ↦ rw unknown b
  ]

  or_missing-Ensures :
      (id : Text) (found : Option StoredEntry)
      → Ensures (IsBounded limits) (or_missing id found) Anything
  or_missing-Ensures id (some entry) h b = (b, tt)
  or_missing-Ensures id none h b = missing-Ensures id h b

  pub require_entry-Ensures :
      (now : ℕ) (id : Text) → Ensures (IsBounded limits) (require_entry now id) Anything
  unfolding require_entry
  require_entry-Ensures now id =
      bind-Ensures (IsBounded limits) (prune now) (λ _ h. or_missing id (get id h.entries) h)
        Anything Anything (prune-Ensures limits now)
        (λ _ _ h b. or_missing-Ensures id (get id h.entries) h b)

  pub insert-Within :
      (now : ℕ) (prepared : Prepared) (h : History)
      → is_empty_id prepared.snapshot_id ≡ false
      → is_too_large h.limits prepared.entry_bytes ≡ false
      → has prepared.snapshot_id h.entries ≡ false
      → IsBounded limits h
      → IsBounded limits (insert now prepared h)
  insert-Within now prepared h named small absent b =
      subst (λ l. IsBounded l (insert now prepared h)) b.same_limits
        (insert-IsBounded now prepared h
          (subst (λ (l : Limits). 1 ≤ l.max_snapshots) (sym b.same_limits) positive) named small
          absent (subst (λ l. IsBounded l h) (sym b.same_limits) b))

  retain-Ensures :
      (now : ℕ) (prepared : Prepared)
      → is_empty_id prepared.snapshot_id ≡ false
      → Ensures (IsBounded limits) (retain now prepared) Anything
  unfolding retain
  retain-Ensures now prepared named h b = elim (Option-cases (get prepared.snapshot_id h.entries)) [
    | inr (existing, found) ↦ elim (Bool-cases (is_same existing prepared)) [
      | inl same ↦ rw (found, same, retain) (b, tt)
      | inr other ↦ rw (found, other, retain) b
    ]
    | inl absent ↦ elim (Bool-cases (is_too_large h.limits prepared.entry_bytes)) [
      | inl large ↦ rw (absent, large, retain) b
      | inr small ↦
          rw (absent, small, retain)
            (
              insert-Within now prepared h named small
                  (absent-get prepared.snapshot_id h.entries absent) b,
              tt,
            )
    ]
  ]

  pub retain_prepared-Ensures :
      (now : ℕ) (prepared : Prepared)
      → is_empty_id prepared.snapshot_id ≡ false
      → Ensures (IsBounded limits) (retain_prepared now prepared) Anything
  unfolding retain_prepared
  retain_prepared-Ensures now prepared named =
      bind-Ensures (IsBounded limits) (prune now) (λ _. retain now prepared) Anything Anything
        (prune-Ensures limits now) (λ _ _. retain-Ensures now prepared named)

  module _ (p : Platform) where
    pub record_snapshot-Ensures :
        (now : ℕ) (input : SemanticSnapshot) (options : SnapshotRecordOptions)
        → Ensures (IsBounded limits) (record_snapshot p now input options) Anything
    unfolding record_snapshot
    record_snapshot-Ensures now input options =
        bind-Ensures (IsBounded limits) (prepare_snapshot p input options) (retain_prepared now)
          (IsNamedSnapshot limits) Anything (prepare_snapshot-Ensures limits p input options)
          (λ prepared named. retain_prepared-Ensures now prepared named)

    make_diff-Ensures :
        (current : Prepared) (base : StoredEntry) (since : Text)
        → Ensures (IsBounded limits) (make_diff p current base since) Anything
    unfolding make_diff
    make_diff-Ensures current base since =
        let nodes = normalize_nodes p.sha256 current.generation (map as_input current.targets) in
        bind-Ensures (IsBounded limits) (lift nodes) (λ ns. return (diff_of current ns base since))
          Anything Anything (lift-Keeps (IsBounded limits) nodes) (λ ns _ h b. (b, tt))

    pub check_revision-Ensures :
        (current : Prepared) (base : StoredEntry) (options : SnapshotDiffOptions)
        → Ensures (IsBounded limits) (check_revision p current base options) Anything
    check_revision-Ensures = check_revision-Keeps (IsBounded limits) p

    pub diff-Ensures :
        (now : ℕ) (input : SemanticSnapshot) (since : Text) (options : SnapshotDiffOptions)
        → Ensures (IsBounded limits) (diff p now input since options) Anything
    unfolding diff
    diff-Ensures now input since options =
        let rest = λ (current : Prepared) (base : StoredEntry).
          check_revision p current base options >> make_diff p current base since in
        bind-Ensures (IsBounded limits) (prepare_snapshot p input no_options)
          (λ current. require_entry now since >>= rest current) (IsNamedSnapshot limits) Anything
          (prepare_snapshot-Ensures limits p input no_options)
          (λ current _.
            bind-Ensures (IsBounded limits) (require_entry now since) (rest current) Anything
              Anything (require_entry-Ensures now since)
              (λ base _.
                then-Ensures (IsBounded limits) (check_revision p current base options)
                  (make_diff p current base since) Anything
                  (check_revision-Ensures current base options)
                  (make_diff-Ensures current base since)))

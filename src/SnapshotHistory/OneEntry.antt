-- ===== src/SnapshotHistory/OneEntry.antt =====
-- src/browser/snapshot-history.ts: `recordWithDiff` where there is place for one entry.
use browser_profile_studio.Prelude.{
  string_eq, nat_eq, bool_eq, pair_eq, Text, text_eq, ℕ, ◌≤◌, ◌≡◌, true, Option, some, arith,
}
use browser_profile_studio.Prelude.Map.{has}
use browser_profile_studio.Prelude.Hoare.{Anything, Leaves}
use browser_profile_studio.Prelude.Method.{Outcome, returns, throws, ◌>>=◌, ◌>>◌, return}
use browser_profile_studio.SnapshotHistory.Node.{SnapshotError}
use browser_profile_studio.SnapshotHistory.State.{Prepared, StoredEntry, Limits, History}
use browser_profile_studio.SnapshotHistory.Retain.{retain_prepared}
use browser_profile_studio.SnapshotHistory.Prepare.{
  SemanticSnapshot, SnapshotRecordOptions, Platform, prepare_snapshot,
}
use browser_profile_studio.SnapshotHistory.Matching.{SnapshotDiff}
use browser_profile_studio.SnapshotHistory.Diff.{
  SnapshotDiffOptions, as_snapshot, diff, base_of, check_base, diff_if_any, record_with_diff,
}
use browser_profile_studio.SnapshotHistory.Bounds.{IsBounded}
use browser_profile_studio.SnapshotHistory.Ensures.{IsNamedSnapshot, prepare_snapshot-Ensures}
use browser_profile_studio.SnapshotHistory.Calls.{retain_prepared-Ensures}
use browser_profile_studio.SnapshotHistory.Runs.{base_of-Ensures, check_base-Ensures}
use browser_profile_studio.SnapshotHistory.Capacity.{Gives, Gives-then}
use browser_profile_studio.SnapshotHistory.Saved.{
  IsSaved, retain_prepared-IsSaved, only_one, IsOf, diff-IsThere,
}

module _ (limits : Limits) (one : limits.max_snapshots ≡ 1) (p : Platform) where
  -- The bounds, and what is returned.
  abbrev Keeps : {A : Type 0} → (A → Type 0) → A → History → Type 0
  Keeps Q a h = IsBounded limits h × Q a

  Leaves-Keeps :
      {A : Type 0} (Q : A → Type 0) (o : Outcome SnapshotError History A)
      → Leaves (IsBounded limits) Q o
      → Gives (Keeps Q) o
  Leaves-Keeps Q (returns a h) l = l
  Leaves-Keeps Q (throws e h) l = tt

  Keeps-IsSaved :
      (o : Outcome SnapshotError History Prepared)
      → Leaves (IsBounded limits) Anything o
      → Gives IsSaved o
      → Gives (λ saved h. IsBounded limits h × IsSaved saved h) o
  Keeps-IsSaved (returns a h) l saved = (l.0, saved)
  Keeps-IsSaved (throws e h) l saved = tt

  positive : 1 ≤ limits.max_snapshots
  positive = omega (arith, one)

  last-IsOf :
      (now : ℕ) (saved : Prepared) (since : Text) (options : SnapshotDiffOptions) (h : History)
      → IsBounded limits h
      → IsSaved saved h
      → Gives (IsOf since) (
          (diff_if_any p now saved (some since) options
              >>= (λ (d : Option SnapshotDiff). return (saved, d)))
            h)
  last-IsOf now saved since options h b there =
      let P : Type 0 = (has since h.entries ≡ true) in
      Gives-then (λ (d : Option SnapshotDiff) _. P) (IsOf since)
        (diff_if_any p now saved (some since) options) (λ d. return (saved, d)) h
        (Gives-then (λ (d : SnapshotDiff) _. P) (λ (d : Option SnapshotDiff) _. P)
          (diff p now (as_snapshot saved) since options) (λ d. return (some d)) h
          (diff-IsThere p now saved since options h) (λ d g kept. kept))
        (λ d g kept.
          only_one saved.snapshot_id since h.entries (omega (arith, b.count, one)) there kept)

  -- On a history that is within its bounds and has place for one entry, `recordWithDiff` with a base
  -- returns only where the base has the identifier of the new observation itself.
  pub one_entry-IsOf :
      (now : ℕ) (input : SemanticSnapshot) (options : SnapshotRecordOptions) (since : Text)
      (diff_options : SnapshotDiffOptions) (h : History)
      → IsBounded limits h
      → Gives (IsOf since) (record_with_diff p now input options (some since) diff_options h)
  unfolding record_with_diff
  one_entry-IsOf now input options since diff_options h b =
      let R = IsOf since in
      let answer = λ (saved : Prepared) (d : Option SnapshotDiff). return (saved, d) in
      let last =
        λ (saved : Prepared). diff_if_any p now saved (some since) diff_options >>= answer saved in
      let rest = λ (base : Option StoredEntry) (prepared : Prepared).
        check_base p prepared base diff_options >> (retain_prepared now prepared >>= last) in
      Gives-then (Keeps Anything) R (base_of p now (some since))
        (λ base. prepare_snapshot p input options >>= rest base) h
        (Leaves-Keeps Anything (base_of p now (some since) h)
          (base_of-Ensures limits positive p now (some since) h b))
        (λ base g kept.
          Gives-then (Keeps (IsNamedSnapshot limits)) R (prepare_snapshot p input options)
            (rest base) g
            (Leaves-Keeps (IsNamedSnapshot limits) (prepare_snapshot p input options g)
              (prepare_snapshot-Ensures limits p input options g kept.0))
            (λ prepared f named.
              Gives-then (Keeps Anything) R (check_base p prepared base diff_options)
                (λ _. retain_prepared now prepared >>= last) f
                (Leaves-Keeps Anything (check_base p prepared base diff_options f)
                  (check_base-Ensures limits positive p prepared base diff_options f named.0))
                (λ _ e checked.
                  Gives-then (λ saved d. IsBounded limits d × IsSaved saved d) R
                    (retain_prepared now prepared) last e
                    (Keeps-IsSaved (retain_prepared now prepared e)
                      (retain_prepared-Ensures limits positive now prepared named.1 e checked.0)
                      (retain_prepared-IsSaved now prepared e))
                    (λ saved d there. last-IsOf now saved since diff_options d there.0 there.1))))

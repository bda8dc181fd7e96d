-- ===== src/SnapshotHistory/Runs.antt =====
-- src/browser/snapshot-history.ts: `recordWithDiff`, and any sequence of calls.
use browser_profile_studio.Prelude.{
  string_eq, nat_eq, bool_eq, pair_eq, Text, text_eq, ℕ, ◌≤◌, refl, Option, none, some, List, [],
  ◌∷◌, arith,
}
use browser_profile_studio.Prelude.Hoare.{
  Anything, Ensures, bind-Ensures, then-Ensures, Leaves-final,
}
use browser_profile_studio.Prelude.Method.{final, ◌>>=◌, ◌>>◌, return}
use browser_profile_studio.SnapshotHistory.State.{
  Prepared, StoredEntry, Limits, SnapshotHistoryOptions, History, bounded_integer, limits_of,
  create,
}
use browser_profile_studio.SnapshotHistory.Retain.{prune, retain_prepared, require_entry, clear}
use browser_profile_studio.SnapshotHistory.Prepare.{
  SemanticSnapshot, SnapshotRecordOptions, Platform, prepare_snapshot, record_snapshot,
}
use browser_profile_studio.SnapshotHistory.Diff.{
  SnapshotDiffOptions, as_snapshot, diff, base_of, check_base, diff_if_any, record_with_diff,
}
use browser_profile_studio.SnapshotHistory.Bounds.{IsBounded, prune-IsBounded}
use browser_profile_studio.SnapshotHistory.Ensures.{IsNamedSnapshot, prepare_snapshot-Ensures}
use browser_profile_studio.SnapshotHistory.Calls.{
  require_entry-Ensures, retain_prepared-Ensures, record_snapshot-Ensures, check_revision-Ensures,
  diff-Ensures,
}

pub data Event : Type 0 where
  prunes : ℕ → Event
  records : ℕ → SemanticSnapshot → SnapshotRecordOptions → Event
  requires : ℕ → Text → Event
  diffs : ℕ → SemanticSnapshot → Text → SnapshotDiffOptions → Event
  records_with_diff :
      ℕ → SemanticSnapshot → SnapshotRecordOptions → Option Text → SnapshotDiffOptions → Event
  clears : Event

module _ (p : Platform) where
  unfoldable pub step : Event → History → History
  unfolding prune record_snapshot require_entry diff record_with_diff
  step (prunes now) h = final (prune now h)
  step (records now input options) h = final (record_snapshot p now input options h)
  step (requires now id) h = final (require_entry now id h)
  step (diffs now input since options) h = final (diff p now input since options h)
  step (records_with_diff now input options since diff_options) h =
      final (record_with_diff p now input options since diff_options h)
  step clears h = final (clear h)

  unfoldable pub run : List Event → History → History
  unfolding step
  run [] h = h
  run (e ∷ es) h = run es (step e h)

module _ (limits : Limits) (positive : 1 ≤ limits.max_snapshots) where
  clear-IsBounded : (h : History) → IsBounded limits h → IsBounded limits (final (clear h))
  clear-IsBounded h b = record {
    same_limits = b.same_limits;
    sum = refl;
    count = omega arith;
    size = omega arith;
    distinct = tt;
    kept = tt;
    marks = omega arith;
    named = tt;
  }

  module _ (p : Platform) where
    pub base_of-Ensures :
        (now : ℕ) (since : Option Text) → Ensures (IsBounded limits) (base_of p now since) Anything
    base_of-Ensures now none h b = (b, tt)
    base_of-Ensures now (some since) h b =
        bind-Ensures (IsBounded limits) (require_entry now since) (λ base. return (some base))
          Anything Anything (require_entry-Ensures limits positive now since)
          (λ base _ g c. (c, tt)) h b

    pub check_base-Ensures :
        (prepared : Prepared) (base : Option StoredEntry) (options : SnapshotDiffOptions)
        → Ensures (IsBounded limits) (check_base p prepared base options) Anything
    check_base-Ensures prepared none options h b = (b, tt)
    check_base-Ensures prepared (some base) options h b =
        check_revision-Ensures limits positive p prepared base options h b

    diff_if_any-Ensures :
        (now : ℕ) (saved : Prepared) (since : Option Text) (options : SnapshotDiffOptions)
        → Ensures (IsBounded limits) (diff_if_any p now saved since options) Anything
    diff_if_any-Ensures now saved none options h b = (b, tt)
    diff_if_any-Ensures now saved (some since) options h b =
        bind-Ensures (IsBounded limits) (diff p now (as_snapshot saved) since options)
          (λ d. return (some d)) Anything Anything
          (diff-Ensures limits positive p now (as_snapshot saved) since options)
          (λ d _ g c. (c, tt)) h b

    record_with_diff-Ensures :
        (now : ℕ) (input : SemanticSnapshot) (options : SnapshotRecordOptions) (since : Option Text)
        (diff_options : SnapshotDiffOptions)
        → Ensures
            (IsBounded limits)
            (record_with_diff p now input options since diff_options)
            Anything
    unfolding record_with_diff
    record_with_diff-Ensures now input options since diff_options =
        let last = λ (saved : Prepared).
          diff_if_any p now saved since diff_options >>= (λ d. return (saved, d)) in
        let rest = λ (base : Option StoredEntry) (prepared : Prepared).
          check_base p prepared base diff_options >> (retain_prepared now prepared >>= last) in
        bind-Ensures (IsBounded limits) (base_of p now since)
          (λ base. prepare_snapshot p input options >>= rest base) Anything Anything
          (base_of-Ensures now since)
          (λ base _.
            bind-Ensures (IsBounded limits) (prepare_snapshot p input options) (rest base)
              (IsNamedSnapshot limits) Anything (prepare_snapshot-Ensures limits p input options)
              (λ prepared named.
                then-Ensures (IsBounded limits) (check_base p prepared base diff_options)
                  (retain_prepared now prepared >>= last) Anything
                  (check_base-Ensures prepared base diff_options)
                  (bind-Ensures (IsBounded limits) (retain_prepared now prepared) last Anything
                    Anything (retain_prepared-Ensures limits positive now prepared named)
                    (λ saved _.
                      bind-Ensures (IsBounded limits) (diff_if_any p now saved since diff_options)
                        (λ d. return (saved, d)) Anything Anything
                        (diff_if_any-Ensures now saved since diff_options) (λ d _ h b. (b, tt))))))

    step-IsBounded : (e : Event) (h : History) → IsBounded limits h → IsBounded limits (step p e h)
    unfolding step
    step-IsBounded (prunes now) h b = prune-IsBounded limits now h b
    step-IsBounded (records now input options) h b =
        Leaves-final (IsBounded limits) Anything (record_snapshot p now input options h)
          (record_snapshot-Ensures limits positive p now input options h b)
    step-IsBounded (requires now id) h b =
        Leaves-final (IsBounded limits) Anything (require_entry now id h)
          (require_entry-Ensures limits positive now id h b)
    step-IsBounded (diffs now input since options) h b =
        Leaves-final (IsBounded limits) Anything (diff p now input since options h)
          (diff-Ensures limits positive p now input since options h b)
    step-IsBounded (records_with_diff now input options since diff_options) h b =
        Leaves-final (IsBounded limits) Anything
          (record_with_diff p now input options since diff_options h)
          (record_with_diff-Ensures now input options since diff_options h b)
    step-IsBounded clears h b = clear-IsBounded h b

    run-IsBounded :
        (es : List Event) (h : History) → IsBounded limits h → IsBounded limits (run p es h)
    unfolding run
    run-IsBounded [] h b = b
    run-IsBounded (e ∷ es) h b = run-IsBounded es (step p e h) (step-IsBounded e h b)

bounded_integer-bounds :
    (value : Option ℕ) (low high fallback : ℕ)
    → low ≤ high
    → low ≤ fallback
    → fallback ≤ high
    → (low ≤ bounded_integer value low high fallback)
      × (bounded_integer value low high fallback ≤ high)
unfolding bounded_integer
bounded_integer-bounds none low high fallback a b c = (b, c)
bounded_integer-bounds (some v) low high fallback a b c = (omega arith, omega arith)

create-IsBounded :
    (options : SnapshotHistoryOptions) → IsBounded (limits_of options) (create options)
unfolding create
create-IsBounded options = record {
  same_limits = refl;
  sum = refl;
  count = omega arith;
  size = omega arith;
  distinct = tt;
  kept = tt;
  marks = omega arith;
  named = tt;
}

-- In every run from a new history, whatever its options and the calls, which may throw: at most 512
-- entries and 16 MiB are kept, the count of bytes is the sum over the entries, no identifier has two
-- entries, and each entry and the marks of the expired ones are within their bounds.
pub run-create-IsBounded :
    (p : Platform) (options : SnapshotHistoryOptions) (es : List Event)
    → IsBounded (limits_of options) (run p es (create options))
      × ((limits_of options).max_snapshots ≤ 512)
      × ((limits_of options).max_bytes ≤ 16_777_216)
unfolding limits_of
run-create-IsBounded p options es =
    let count =
      bounded_integer-bounds options.max_snapshots 1 512 32 (omega arith) (omega arith)
        (omega arith) in
    let size =
      bounded_integer-bounds options.max_bytes 1 16_777_216 2_097_152 (omega arith) (omega arith)
        (omega arith) in
    (
      run-IsBounded (limits_of options) count.0 p es (create options) (create-IsBounded options),
      count.1,
      size.1,
    )

-- ===== src/SnapshotHistory/Saved.antt =====
-- src/browser/snapshot-history.ts: an entry that was saved, and the base of a difference, are there.
use browser_profile_studio.Prelude.{
  Bool-cases, Option-cases, string_eq, nat_eq, bool_eq, pair_eq, length, select, Text, text_eq, ℕ,
  ◌≤◌, ◌≡◌, refl, subst, inl, inr, true, Option, none, some, [], ◌∷◌, arith,
}
use browser_profile_studio.Prelude.Map.{Map, get, has, has-set}
use browser_profile_studio.Prelude.Method.{final, ◌>>=◌, ◌>>◌}
use browser_profile_studio.SnapshotHistory.State.{Prepared, StoredEntry, History}
use browser_profile_studio.SnapshotHistory.Retain.{
  prune, make_room, entry_of, is_same, insert, is_too_large, retain, retain_prepared, or_missing,
  require_entry,
}
use browser_profile_studio.SnapshotHistory.Prepare.{no_options, Platform, prepare_snapshot}
use browser_profile_studio.SnapshotHistory.Matching.{SnapshotDiff}
use browser_profile_studio.SnapshotHistory.Diff.{
  SnapshotDiffOptions, as_snapshot, make_diff, check_revision, diff,
}
use browser_profile_studio.SnapshotHistory.Size.{
  present-get, has-select, is_fresh, prune_entries_kept,
}
use browser_profile_studio.SnapshotHistory.Capacity.{
  Gives, Gives-then, always, Gives-weaken, Same, prepare_snapshot-Same,
}

has-fresh :
    (now : ℕ) (id : Text) (m : Map Text StoredEntry)
    → has id (select (is_fresh now) m) ≡ true
    → has id m ≡ true
has-fresh now id m h = ground (arith, has-select (is_fresh now) id m)

or_missing-IsThere :
    (id : Text) (found : Option StoredEntry) (h : History)
    → Gives (λ (e : StoredEntry) _. found ≡ some e) (or_missing id found h)
or_missing-IsThere id (some e) h = refl
or_missing-IsThere id none h = elim (Bool-cases (has id h.expired_ids)) [
  | inl expired ↦ rw expired tt
  | inr unknown ↦ rw unknown tt
]

require_entry-IsThere :
    (now : ℕ) (id : Text) (h : History)
    → Gives (λ (e : StoredEntry) _. has id h.entries ≡ true) (require_entry now id h)
unfolding require_entry prune
require_entry-IsThere now id h =
    let pruned = final (prune now h) in
    Gives-weaken (λ (e : StoredEntry) _. get id pruned.entries ≡ some e)
      (λ (e : StoredEntry) _. has id h.entries ≡ true)
      (or_missing id (get id pruned.entries) pruned)
      (λ e _ found. has-fresh now id h.entries (
        subst (λ m. has id m ≡ true) (prune_entries_kept now h.entries h.expired_ids h.total_bytes)
          (present-get id e pruned.entries found)))
      (or_missing-IsThere id (get id pruned.entries) pruned)

-- After `retain` the entry is there.
abbrev pub IsSaved : Prepared → History → Type 0
IsSaved saved h = has saved.snapshot_id h.entries ≡ true

retain-IsSaved :
    (now : ℕ) (prepared : Prepared) (h : History) → Gives IsSaved (retain now prepared h)
unfolding retain insert
retain-IsSaved now prepared h =
    let id = prepared.snapshot_id in
    elim (Option-cases (get id h.entries)) [
      | inr (existing, found) ↦ elim (Bool-cases (is_same existing prepared)) [
        | inl same ↦ rw (found, same, retain, Gives) (present-get id existing h.entries found)
        | inr other ↦ rw (found, other, retain, Gives) tt
      ]
      | inl absent ↦ elim (Bool-cases (is_too_large h.limits prepared.entry_bytes)) [
        | inl large ↦ rw (absent, large, retain, Gives) tt
        | inr small ↦
            let room = make_room h.limits prepared.entry_bytes h.entries h.total_bytes in
            let entry = entry_of now h.limits prepared in
            rw (absent, small, retain, Gives)
              (ground (arith, has-set id id entry room.0, text_eq.equal_iff id id))
      ]
    ]

pub retain_prepared-IsSaved :
    (now : ℕ) (prepared : Prepared) (h : History) → Gives IsSaved (retain_prepared now prepared h)
unfolding retain_prepared prune
retain_prepared-IsSaved now prepared h = retain-IsSaved now prepared (final (prune now h))

-- With one entry at most there is one identifier.
pub only_one :
    (a b : Text) (m : Map Text StoredEntry) → length m ≤ 1 → has a m ≡ true → has b m ≡ true → a ≡ b
unfolding has
only_one a b [] h p q = ground arith
only_one a b ((k, v) ∷ []) h p q = ground (arith, text_eq.equal_iff k a, text_eq.equal_iff k b)
only_one a b ((k, v) ∷ e ∷ m) h p q = absurd (omega arith)

abbrev pub IsOf : Text → Prepared × Option SnapshotDiff → History → Type 0
IsOf since answer h = answer.0.snapshot_id ≡ since

module _ (p : Platform) where
  pub diff-IsThere :
      (now : ℕ) (saved : Prepared) (since : Text) (options : SnapshotDiffOptions) (h : History)
      → Gives
          (λ (d : SnapshotDiff) _. has since h.entries ≡ true)
          (diff p now (as_snapshot saved) since options h)
  unfolding diff
  diff-IsThere now saved since options h =
      let P : Type 0 = (has since h.entries ≡ true) in
      let rest = λ (current : Prepared) (base : StoredEntry).
        check_revision p current base options >> make_diff p current base since in
      Gives-then (Same h) (λ (d : SnapshotDiff) _. P)
        (prepare_snapshot p (as_snapshot saved) no_options)
        (λ current. require_entry now since >>= rest current) h (prepare_snapshot-Same p saved h)
        (λ current g same.
          Gives-then (λ (e : StoredEntry) _. has since g.entries ≡ true) (λ (d : SnapshotDiff) _. P)
            (require_entry now since) (rest current) g (require_entry-IsThere now since g)
            (λ base f there.
              always P (rest current base f) (subst (λ m. has since m ≡ true) same there)))

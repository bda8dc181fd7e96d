-- ===== src/SnapshotHistory/Ensures.antt =====
-- src/browser/snapshot-history.ts: every method keeps the bounds, composed as the methods are.
use browser_profile_studio.Prelude.{
  string_eq, nat_eq, bool_eq, pair_eq, take, Text, text_eq, ℕ, not,
}
use browser_profile_studio.Prelude.Method.{◌>>◌, return, throw_if}
use browser_profile_studio.SnapshotHistory.Node.{invalid_snapshot}
use browser_profile_studio.SnapshotHistory.State.{Prepared, Limits, History}
use browser_profile_studio.SnapshotHistory.Retain.{prune}
use browser_profile_studio.SnapshotHistory.Bounds.{IsBounded, prune-IsBounded}
use browser_profile_studio.Prelude.Hoare.{
  Anything, Ensures, bind-Ensures, then-Ensures, throw_if-Ensures,
}
use browser_profile_studio.SnapshotHistory.Steps.{IsNamedId, lift-Keeps, prepare_snapshot-Keeps}
use browser_profile_studio.SnapshotHistory.Prepare.{
  SemanticSnapshot, SnapshotRecordOptions, is_opaque_if_any, lift, normalize_nodes, revision_of,
  raw_targets, Platform, prepared_of, prepare_nodes, prepare_snapshot,
}

module _ (limits : Limits) where
  abbrev pub IsNamedSnapshot : Prepared → Type 0
  IsNamedSnapshot prepared = IsNamedId prepared.snapshot_id

  pub prune-Ensures : (now : ℕ) → Ensures (IsBounded limits) (prune now) Anything
  unfolding prune
  prune-Ensures now h b = (prune-IsBounded limits now h b, tt)

  with_sequence-IsBounded :
      (n : ℕ) (h : History) → IsBounded limits h → IsBounded limits (record h { sequence = n })
  with_sequence-IsBounded n h b = record {
    same_limits = b.same_limits;
    sum = b.sum;
    count = b.count;
    size = b.size;
    distinct = b.distinct;
    kept = b.kept;
    marks = b.marks;
    named = b.named;
  }

  module _ (p : Platform) where
    prepare_nodes-Ensures :
        (input : SemanticSnapshot) (revision : ℕ) (id : Text)
        → IsNamedId id
        → Ensures (IsBounded limits) (prepare_nodes p input revision id) IsNamedSnapshot
    unfolding prepare_nodes
    prepare_nodes-Ensures input revision id named h b =
        let nodes =
          normalize_nodes p.sha256 input.generation (take h.limits.max_nodes (raw_targets input)) in
        let bad_tab = not (is_opaque_if_any input.tab_id) in
        bind-Ensures (IsBounded limits) (lift nodes)
          (λ ns. throw_if bad_tab invalid_snapshot >> return (prepared_of p id revision input ns))
          Anything IsNamedSnapshot (lift-Keeps (IsBounded limits) nodes)
          (λ ns _.
            then-Ensures (IsBounded limits) (throw_if bad_tab invalid_snapshot)
              (return (prepared_of p id revision input ns)) IsNamedSnapshot
              (throw_if-Ensures (IsBounded limits) bad_tab invalid_snapshot) (λ g c. (c, named)))
          h b

    pub prepare_snapshot-Ensures :
        (input : SemanticSnapshot) (options : SnapshotRecordOptions)
        → Ensures (IsBounded limits) (prepare_snapshot p input options) IsNamedSnapshot
    unfolding prepare_snapshot
    prepare_snapshot-Ensures input options =
        prepare_snapshot-Keeps (IsBounded limits) p with_sequence-IsBounded IsNamedSnapshot input
          options (prepare_nodes-Ensures input (revision_of input options))

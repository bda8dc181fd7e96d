-- ===== src/SnapshotHistory/Unchanged.antt =====
-- src/browser/snapshot-history.ts: `diff` of an observation of one node with an entry that keeps that node.
use browser_profile_studio.SnapshotHistory.OneNode.{
  ReportsText, IsValidNode, as_input-IsValidNode, diff_of-ReportsText, take-one,
  normalize_nodes-one,
}
use browser_profile_studio.Prelude.{
  Bool-cases, string_eq, nat_eq, bool_eq, pair_eq, length, take, All, All-select, Text, text_eq, ℕ,
  ◌≤◌, ◌≡◌, refl, sym, ap, subst, ◌≢◌, inl, inr, not, Option, none, some, List, [], ◌∷◌, map,
}
use browser_profile_studio.SnapshotHistory.Node.{
  invalid_snapshot, InputNode, StoredNode, max_ref_length, bounded_text, normalize_node,
}
use browser_profile_studio.SnapshotHistory.State.{Prepared, StoredEntry, History}
use browser_profile_studio.SnapshotHistory.Diff.{
  SnapshotDiffOptions, as_input, make_diff, check_revision, diff,
}
use browser_profile_studio.SnapshotHistory.Digest.{
  first_node, second_node, kept_text, bounded-IsChanged,
}
use browser_profile_studio.Prelude.Map.{get, has, All-get}
use browser_profile_studio.Prelude.Hoare.{
  Anything, Leaves, Ensures, bind-Ensures, then-Ensures, guard-Ensures,
}
use browser_profile_studio.Prelude.Method.{◌>>=◌, ◌>>◌, return, throw_if}
use browser_profile_studio.Prelude.Result.{ok}
use browser_profile_studio.SnapshotHistory.Retain.{prune, or_missing, require_entry}
use browser_profile_studio.SnapshotHistory.Size.{is_fresh, prune_entries_kept}
use browser_profile_studio.SnapshotHistory.Prepare.{
  SemanticSnapshot, no_options, is_opaque_if_any, lift, normalize_nodes, revision_of, raw_targets,
  drop_text, Platform, prepared_of, prepare_nodes, prepare_snapshot,
}
use browser_profile_studio.SnapshotHistory.Steps.{prepare_snapshot-Keeps, check_revision-Keeps}

-- The history keeps the node, and its limits let one node through.
abbrev pub Keeping : Text → StoredNode → History → Type 0
Keeping since stored h =
    All (λ (e : Text × StoredEntry). e.0 ≡ since → e.1.nodes ≡ stored ∷ []) h.entries
    × (1 ≤ h.limits.max_nodes)

module _ (now : ℕ) (since : Text) (stored : StoredNode) where
  prune-Keeping : Ensures (Keeping since stored) (prune now) Anything
  unfolding prune
  prune-Keeping h k =
      let P = λ (e : Text × StoredEntry). e.0 ≡ since → e.1.nodes ≡ stored ∷ [] in
      (
        (
          subst (All P) (sym (prune_entries_kept now h.entries h.expired_ids h.total_bytes))
              (All-select P (is_fresh now) h.entries k.0),
          k.1,
        ),
        tt,
      )

  or_missing-Keeping :
      (o : Option StoredEntry) (h : History)
      → get since h.entries ≡ o
      → Keeping since stored h
      → Leaves (Keeping since stored) (λ base. base.nodes ≡ stored ∷ []) (or_missing since o h)
  or_missing-Keeping (some base) h found k =
      let P = λ (e : Text × StoredEntry). e.0 ≡ since → e.1.nodes ≡ stored ∷ [] in
      let (j, same, holds) = All-get P since base h.entries found k.0 in (k, holds same)
  or_missing-Keeping none h found k = elim (Bool-cases (has since h.expired_ids)) [
    | inl expired ↦ rw expired k
    | inr unknown ↦ rw unknown k
  ]

  require_entry-Keeping :
      Ensures (Keeping since stored) (require_entry now since) (λ base. base.nodes ≡ stored ∷ [])
  unfolding require_entry
  require_entry-Keeping =
      bind-Ensures (Keeping since stored) (prune now)
        (λ _ h. or_missing since (get since h.entries) h) Anything
        (λ base. base.nodes ≡ stored ∷ []) prune-Keeping
        (λ _ _ h k. or_missing-Keeping (get since h.entries) h refl k)

module _ (p : Platform) (snapshot : SemanticSnapshot) (input : InputNode) (text : Text)
    (one : raw_targets snapshot ≡ input ∷ []) (valid : IsValidNode snapshot.generation input)
    (given : input.text ≡ some text) (something : 1 ≤ length (kept_text text))
    (apart : p.sha256 text ≢ p.sha256 (kept_text text)) (since : Text) where
  -- The node as the history keeps it.
  abbrev kept_node : StoredNode
  kept_node = drop_text (first_node p.sha256 snapshot.generation input)

  abbrev IsPrepared : Prepared → Type 0
  IsPrepared current =
      (current.targets ≡ normalize_node snapshot.generation input ∷ [])
      × (current.generation ≡ snapshot.generation)

  prepare_nodes-IsPrepared :
      (revision : ℕ) (id : Text)
      → Ensures (Keeping since kept_node) (prepare_nodes p snapshot revision id) IsPrepared
  unfolding prepare_nodes
  prepare_nodes-IsPrepared revision id h k =
      let bad_tab = not (is_opaque_if_any snapshot.tab_id) in
      let nodes =
        normalize_nodes p.sha256 snapshot.generation
          (take h.limits.max_nodes (raw_targets snapshot)) in
      let is : nodes ≡ ok (first_node p.sha256 snapshot.generation input ∷ []) =
        rw (one, take-one h.limits.max_nodes input k.1)
          (normalize_nodes-one p.sha256 snapshot.generation input valid) in
      let finish = λ (ns : List StoredNode).
        throw_if bad_tab invalid_snapshot >> return (prepared_of p id revision snapshot ns) in
      let first = first_node p.sha256 snapshot.generation input in
      subst (λ r. Leaves (Keeping since kept_node) IsPrepared ((lift r >>= finish) h)) (sym is)
        (guard-Ensures (Keeping since kept_node) bad_tab invalid_snapshot
          (return (prepared_of p id revision snapshot (first ∷ []))) IsPrepared
          (λ _ g j. (j, (refl, refl))) h k)

  make_diff-ReportsText :
      (current : Prepared) (base : StoredEntry)
      → IsPrepared current
      → base.nodes ≡ kept_node ∷ []
      → Ensures (Keeping since kept_node) (make_diff p current base since) ReportsText
  unfolding make_diff normalize_node
  make_diff-ReportsText current base prepared same h k =
      let second = second_node p.sha256 snapshot.generation input in
      let is : normalize_nodes p.sha256 current.generation (map as_input current.targets)
          ≡ ok (second ∷ []) =
        rw (prepared.0, prepared.1)
          (normalize_nodes-one p.sha256 snapshot.generation
            (as_input (normalize_node snapshot.generation input))
            (as_input-IsValidNode snapshot.generation input valid)) in
      rw is (
        k,
        diff_of-ReportsText current kept_node second base since same
            (ap (bounded_text max_ref_length) (sym valid.2))
            (bounded-IsChanged p.sha256 snapshot.generation input text given something apart),
      )

  -- Where the digest tells a node's text from its bounded form, which is not empty, as the digest of a
  -- text with two spaces in a row or of more than 256 units should, `diff` of an observation of that
  -- one valid node with an entry that keeps this very node, where it returns, reports the node as
  -- updated in its text. The node's reference is as normalization leaves it, and the history's
  -- limits let a node through.
  pub diff-ReportsText :
      (now : ℕ) (options : SnapshotDiffOptions) (h : History)
      → Keeping since kept_node h
      → Leaves (Keeping since kept_node) ReportsText (diff p now snapshot since options h)
  unfolding diff
  diff-ReportsText now options =
      let I = Keeping since kept_node in
      let rest = λ (current : Prepared) (base : StoredEntry).
        check_revision p current base options >> make_diff p current base since in
      bind-Ensures I (prepare_snapshot p snapshot no_options)
        (λ current. require_entry now since >>= rest current) IsPrepared ReportsText
        (prepare_snapshot-Keeps I p (λ n h k. k) IsPrepared snapshot no_options
          (λ id _. prepare_nodes-IsPrepared (revision_of snapshot no_options) id))
        (λ current prepared.
          bind-Ensures I (require_entry now since) (rest current)
            (λ base. base.nodes ≡ kept_node ∷ []) ReportsText
            (require_entry-Keeping now since kept_node)
            (λ base same.
              then-Ensures I (check_revision p current base options)
                (make_diff p current base since) ReportsText
                (check_revision-Keeps I p current base options)
                (make_diff-ReportsText current base prepared same)))

-- ===== src/SnapshotHistory/Diff.antt =====
-- src/browser/snapshot-history.ts: `diff` and `recordWithDiff`.
use browser_profile_studio.Prelude.{
  nat_beq, string_eq, nat_eq, bool_eq, pair_eq, Text, text_eq, ℕ, Bool, not, ◌&&◌, Option, none,
  some, map,
}
use browser_profile_studio.Prelude.Method.{returns, ◌>>=◌, ◌>>◌, return, throw_if}
use browser_profile_studio.SnapshotHistory.Node.{page_revision_mismatch, InputNode, SemanticNode}
use browser_profile_studio.SnapshotHistory.State.{Prepared, StoredEntry, Call}
use browser_profile_studio.SnapshotHistory.Retain.{retain_prepared, require_entry}
use browser_profile_studio.SnapshotHistory.Prepare.{
  SemanticSnapshot, SnapshotRecordOptions, no_options, assert_revision, lift, normalize_nodes,
  Platform, prepare_snapshot,
}
use browser_profile_studio.SnapshotHistory.Matching.{SnapshotDiff, diff_of}

pub record SnapshotDiffOptions : Type 0 where
  pub expected_page_revision : Option ℕ
  pub require_same_page_revision : Bool

-- A normalized node as an input again.
abbrev pub as_input : SemanticNode → InputNode
as_input node = record {
  ref = node.ref;
  generation = some node.generation;
  role = some node.role;
  name = some node.name;
  tag = some node.tag;
  node_type = node.node_type;
  test_id = node.test_id;
  frame_id = node.frame_id;
  text = node.text;
  visible = node.visible;
  enabled = node.enabled;
  editable = node.editable;
  checked = node.checked;
  required = node.required;
  has_value = node.redacted;
}

-- A snapshot that was recorded, as an input again.
abbrev pub as_snapshot : Prepared → SemanticSnapshot
as_snapshot saved = record {
  snapshot_id = some saved.snapshot_id;
  tab_id = saved.tab_id;
  generation = saved.generation;
  page_generation = none;
  page_revision = some saved.page_revision;
  frame_generation = none;
  targets = some (map as_input saved.targets);
  elements = some (map as_input saved.targets);
}

module _ (p : Platform) where
  -- `makeDiff` normalizes the nodes a second time.
  unfoldable pub make_diff : Prepared → StoredEntry → Text → Call SnapshotDiff
  unfolding diff_of normalize_nodes
  make_diff current base since = do
    nodes ← lift (normalize_nodes p.sha256 current.generation (map as_input current.targets))
    return (diff_of current nodes base since)

  abbrev pub check_revision : Prepared → StoredEntry → SnapshotDiffOptions → Call (Unit {0})
  check_revision current base options = do
    assert_revision current.page_revision options.expected_page_revision
    throw_if
        (options.require_same_page_revision
          && not (nat_beq current.page_revision base.page_revision))
        page_revision_mismatch

  unfoldable pub diff : ℕ → SemanticSnapshot → Text → SnapshotDiffOptions → Call SnapshotDiff
  unfolding prepare_snapshot require_entry assert_revision make_diff
  diff now input since options = do
    current ← prepare_snapshot p input no_options
    base ← require_entry now since
    check_revision current base options
    make_diff current base since

  abbrev pub base_of : ℕ → Option Text → Call (Option StoredEntry)
  base_of now none h = returns none h
  base_of now (some since) h = (require_entry now since >>= (λ base. return (some base))) h

  abbrev pub check_base : Prepared → Option StoredEntry → SnapshotDiffOptions → Call (Unit {0})
  check_base prepared none options h = returns tt h
  check_base prepared (some base) options h = check_revision prepared base options h

  abbrev pub diff_if_any :
      ℕ → Prepared → Option Text → SnapshotDiffOptions → Call (Option SnapshotDiff)
  diff_if_any now saved none options h = returns none h
  diff_if_any now saved (some since) options h =
      (diff now (as_snapshot saved) since options >>= (λ d. return (some d))) h

  unfoldable pub record_with_diff :
      ℕ
      → SemanticSnapshot
      → SnapshotRecordOptions
      → Option Text
      → SnapshotDiffOptions
      → Call (Prepared × Option SnapshotDiff)
  unfolding prepare_snapshot require_entry retain_prepared assert_revision diff
  record_with_diff now input options since diff_options = do
    base ← base_of now since
    prepared ← prepare_snapshot p input options
    check_base prepared base diff_options
    saved ← retain_prepared now prepared
    difference ← diff_if_any now saved since diff_options
    return (saved, difference)

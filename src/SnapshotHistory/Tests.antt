-- ===== src/SnapshotHistory/Tests.antt =====
-- Runs and instances of the theorems about snapshots.
use browser_profile_studio.Prelude.{
  string_eq, nat_eq, bool_eq, pair_eq, list_beq_iff, length, Text, text_eq, is_space, trim_start,
  trim, ◌+◌, ◌*◌, ◌≤◌, ◌≡◌, refl, sym, subst, ◌≢◌, ◌↔◌, Bool, true, false, Option, none, some, List,
  [], ◌∷◌, ◌++◌, map, arith,
}
use browser_profile_studio.Prelude.Ascii.{units}
use browser_profile_studio.Prelude.Map.{get, has, set, delete}
use browser_profile_studio.Prelude.Method.{Outcome, returns, throws}
use browser_profile_studio.SnapshotHistory.Node.{
  SnapshotError, InputNode, StoredNode, collapse, bounded_text, normalize_node,
  normalize_stored_node, changed_fields,
}
use browser_profile_studio.SnapshotHistory.State.{
  Prepared, StoredEntry, SnapshotHistoryOptions, History, bounded_integer, limits_of, create,
}
use browser_profile_studio.SnapshotHistory.Retain.{
  prune_entries, drop_marks, prune, is_full, make_room, insert, retain, retain_prepared,
  require_entry,
}
use browser_profile_studio.SnapshotHistory.Prepare.{
  SemanticSnapshot, no_options, assert_snapshot_shape, assert_revision, is_opaque, normalize_nodes,
  drop_text, Platform, next_snapshot_id, choose_id, prepare_nodes, prepare_snapshot,
  record_snapshot,
}
use browser_profile_studio.SnapshotHistory.Matching.{
  semantic_key, SnapshotDiff, indexed_from, candidates, first_unused, add_update, match_nodes,
  removed_from, diff_of,
}
use browser_profile_studio.SnapshotHistory.Diff.{
  SnapshotDiffOptions, make_diff, diff, record_with_diff,
}
use browser_profile_studio.SnapshotHistory.Bounds.{IsBounded}
use browser_profile_studio.SnapshotHistory.Runs.{
  Event, records, records_with_diff, step, run, run-create-IsBounded,
}
use browser_profile_studio.SnapshotHistory.Partition.{diff_of-accounts}
use browser_profile_studio.SnapshotHistory.Digest.{first_node, kept_text}
use browser_profile_studio.SnapshotHistory.OneNode.{ReportsText, IsValidNode}
use browser_profile_studio.SnapshotHistory.Unchanged.{Keeping, diff-ReportsText}
use browser_profile_studio.Prelude.Hoare.{Leaves}
use browser_profile_studio.SnapshotHistory.Capacity.{Gives}
use browser_profile_studio.SnapshotHistory.Saved.{IsOf}
use browser_profile_studio.SnapshotHistory.OneEntry.{one_entry-IsOf}

-- Digests that tell all texts apart, numbered identifiers, and ten bytes to a node.
abbrev platform : Platform
platform = record {
  sha256 = λ text. text;
  id_of = λ sequence revision. units "snp" ++ (48 + sequence) ∷ [];
  json_bytes = λ id tab revision generation nodes. 10 * length nodes;
}

abbrev button : Text → Text → InputNode
button ref text = record {
  ref = ref;
  generation = none;
  role = some (units "button");
  name = some (units "Send");
  tag = some (units "button");
  node_type = none;
  test_id = none;
  frame_id = none;
  text = some text;
  visible = some true;
  enabled = none;
  editable = none;
  checked = none;
  required = none;
  has_value = false;
}

abbrev page : List InputNode → SemanticSnapshot
page nodes = record {
  snapshot_id = none;
  tab_id = none;
  generation = 4;
  page_generation = none;
  page_revision = none;
  frame_generation = none;
  targets = some nodes;
  elements = none;
}

abbrev small : SnapshotHistoryOptions
small = record {
  max_snapshots = some 1;
  ttl_ms = some 1_000;
  max_bytes = none;
  max_snapshot_bytes = none;
  max_nodes = none;
}

abbrev any_revision : SnapshotDiffOptions
any_revision = record { expected_page_revision = none; require_same_page_revision = false }

abbrev first_alone : List Event
first_alone = records 5 (page (button (units "a") (units "x") ∷ [])) no_options ∷ []

abbrev returned_id : Outcome SnapshotError History (Prepared × Option SnapshotDiff) → Option Text
returned_id (returns answer h) = some answer.0.snapshot_id
returned_id (throws e h) = none

abbrev first_then_second : List Event
first_then_second =
    records 5 (page (button (units "a") (units "x") ∷ [])) no_options
    ∷ records_with_diff 6 (page (button (units "b") (units "x") ∷ [])) no_options
        (some (units "snp1")) any_revision
    ∷ []

-- The base has gone to make room for the new observation, which is kept although the call throws.
first_then_second_keys :
    map (λ (e : Text × StoredEntry). e.0) (run platform first_then_second (create small)).entries
    ≡ units "snp2" ∷ []
unfolding run step create limits_of bounded_integer record_snapshot record_with_diff
    prepare_snapshot prepare_nodes assert_snapshot_shape assert_revision choose_id next_snapshot_id
    is_opaque normalize_nodes normalize_stored_node normalize_node bounded_text collapse trim
    trim_start is_space retain_prepared retain insert make_room is_full prune prune_entries
    drop_marks require_entry diff make_diff get has set delete
first_then_second_keys = refl

run-create-IsBounded_example :
    IsBounded (limits_of small) (run platform first_then_second (create small))
    × ((limits_of small).max_snapshots ≤ 512)
    × ((limits_of small).max_bytes ≤ 16_777_216)
run-create-IsBounded_example = run-create-IsBounded platform small first_then_second

abbrev kept : Text → Text → StoredNode
kept ref text = drop_text (first_node platform.sha256 4 (button ref text))

abbrev base : StoredEntry
base = record {
  tab_id = none;
  page_revision = 4;
  generation = 4;
  created_at = 5;
  expires_at = 1_005;
  bytes = 20;
  nodes = kept (units "a") (units "x") ∷ kept (units "b") (units "y") ∷ [];
}

abbrev current : Prepared
current = record {
  snapshot_id = units "snp2";
  tab_id = none;
  page_revision = 5;
  generation = 4;
  targets = [];
  stored_nodes = [];
  entry_bytes = 10;
}

abbrev current_nodes : List StoredNode
current_nodes = kept (units "b") (units "z") ∷ []

diff_of-accounts_example :
    (length (diff_of current current_nodes base (units "snp1")).added + 2
      ≡ length (diff_of current current_nodes base (units "snp1")).removed + 1)
    × (length (diff_of current current_nodes base (units "snp1")).updated
          + length (diff_of current current_nodes base (units "snp1")).added
        ≤ 1)
    × (((diff_of current current_nodes base (units "snp1")).changed ≡ false) ↔ (
        length (diff_of current current_nodes base (units "snp1")).added
          + length (diff_of current current_nodes base (units "snp1")).removed
          + length (diff_of current current_nodes base (units "snp1")).updated
        ≡ 0))
diff_of-accounts_example = diff_of-accounts current current_nodes base (units "snp1")

spaced : kept_text (units "a  b") ≡ units "a b"
unfolding bounded_text collapse trim trim_start is_space
spaced = refl

unequal : units "a  b" ≢ units "a b"
unequal h = ground (arith, list_beq_iff (units "a  b") (units "a b"))

-- A page with one node whose text has two spaces in a row, and a history that keeps it.
abbrev spaced_page : SemanticSnapshot
spaced_page = page (button (units "a") (units "a  b") ∷ [])

abbrev spaced_once : History
spaced_once = run platform (records 5 spaced_page no_options ∷ []) (create small)

abbrev text_reported : Outcome SnapshotError History SnapshotDiff → Bool
text_reported (returns d h) = d.changed
text_reported (throws e h) = false

-- `diff` of the page with itself returns, and says that it has changed.
spaced_page_changed :
    text_reported (diff platform 6 spaced_page (units "snp1") any_revision spaced_once) ≡ true
unfolding run step create limits_of bounded_integer record_snapshot record_with_diff
    prepare_snapshot prepare_nodes assert_snapshot_shape assert_revision choose_id next_snapshot_id
    is_opaque normalize_nodes normalize_stored_node normalize_node bounded_text collapse trim
    trim_start is_space retain_prepared retain insert make_room is_full prune prune_entries
    drop_marks require_entry diff make_diff get has set delete changed_fields diff_of match_nodes
    removed_from indexed_from candidates first_unused add_update semantic_key
spaced_page_changed = refl

spaced-IsValidNode : IsValidNode 4 (button (units "a") (units "a  b"))
unfolding bounded_text collapse trim trim_start is_space
spaced-IsValidNode = (omega arith, omega arith, refl, omega arith)

spaced_once-Keeping :
    Keeping
      (units "snp1")
      (drop_text (first_node platform.sha256 4 (button (units "a") (units "a  b"))))
      spaced_once
unfolding run step create limits_of bounded_integer record_snapshot record_with_diff
    prepare_snapshot prepare_nodes assert_snapshot_shape assert_revision choose_id next_snapshot_id
    is_opaque normalize_nodes normalize_stored_node normalize_node bounded_text collapse trim
    trim_start is_space retain_prepared retain insert make_room is_full prune prune_entries
    drop_marks get has set delete
spaced_once-Keeping = (((λ same. refl), tt), omega arith)

diff-ReportsText_example :
    Leaves
      (Keeping
        (units "snp1")
        (drop_text (first_node platform.sha256 4 (button (units "a") (units "a  b")))))
      ReportsText
      (diff platform 6 spaced_page (units "snp1") any_revision spaced_once)
diff-ReportsText_example =
    diff-ReportsText platform spaced_page (button (units "a") (units "a  b")) (units "a  b") refl
      spaced-IsValidNode refl (subst (λ (t : Text). 1 ≤ length t) (sym spaced) (omega arith))
      (subst (λ (t : Text). units "a  b" ≢ t) (sym spaced) unequal) (units "snp1") 6 any_revision
      spaced_once spaced_once-Keeping

-- The same page again under the identifier that it has.
abbrev first_again : Outcome SnapshotError History (Prepared × Option SnapshotDiff)
first_again =
    record_with_diff platform 6 (page (button (units "a") (units "x") ∷ []))
      (record no_options { snapshot_id = some (units "snp1") }) (some (units "snp1")) any_revision
      (run platform first_alone (create small))

-- The call returns.
first_again_id : returned_id first_again ≡ some (units "snp1")
unfolding run step create limits_of bounded_integer record_snapshot record_with_diff
    prepare_snapshot prepare_nodes assert_snapshot_shape assert_revision choose_id next_snapshot_id
    is_opaque normalize_nodes normalize_stored_node normalize_node bounded_text collapse trim
    trim_start is_space retain_prepared retain insert make_room is_full prune prune_entries
    drop_marks require_entry diff make_diff get has set delete
first_again_id = refl

one_entry-IsOf_example : Gives (IsOf (units "snp1")) first_again
unfolding limits_of bounded_integer
one_entry-IsOf_example =
    one_entry-IsOf (limits_of small) refl platform 6 (page (button (units "a") (units "x") ∷ []))
      (record no_options { snapshot_id = some (units "snp1") }) (units "snp1") any_revision
      (run platform first_alone (create small)) (run-create-IsBounded platform small first_alone).0

-- ===== src/SnapshotHistory/Prepare.antt =====
-- src/browser/snapshot-history.ts: `prepareSnapshot` and `record`. The generator of identifiers and the
-- size of an entry's JSON are parameters. Of a snapshot the page's URL, title, text and content, which
-- the history does not keep, are left out.
use mathlib.Core.Option.{get_or}
use browser_profile_studio.Prelude.{
  leb, nat_beq, if◌then◌else◌, string_eq, nat_eq, bool_eq, pair_eq, length, take, all, Text,
  text_eq, ℕ, zero, suc, ◌+◌, Bool, true, false, not, ◌&&◌, Option, none, some, List, [], ◌∷◌, map,
}
use browser_profile_studio.Prelude.Map.{has}
use browser_profile_studio.Prelude.Method.{returns, throws, ◌>>=◌, ◌>>◌, return, throw_if}
use browser_profile_studio.Prelude.Result.{Result, ok, error}
use browser_profile_studio.SnapshotHistory.Node.{
  SnapshotError, page_revision_mismatch, invalid_snapshot, resource_exhausted, InputNode,
  StoredNode, max_safe_integer, is_control, normalize_stored_node, without_node_text,
}
use browser_profile_studio.SnapshotHistory.State.{Prepared, Call}
use browser_profile_studio.SnapshotHistory.Retain.{retain_prepared}

pub record SemanticSnapshot : Type 0 where
  pub snapshot_id : Option Text
  pub tab_id : Option Text
  pub generation : ℕ
  pub page_generation : Option ℕ
  pub page_revision : Option ℕ
  pub frame_generation : Option ℕ
  pub targets : Option (List InputNode)
  pub elements : Option (List InputNode)

pub record SnapshotRecordOptions : Type 0 where
  pub snapshot_id : Option Text
  pub page_revision : Option ℕ
  pub expected_page_revision : Option ℕ

abbrev pub no_options : SnapshotRecordOptions
no_options = record { snapshot_id = none; page_revision = none; expected_page_revision = none }

abbrev pub is_revision : ℕ → Bool
is_revision value = leb value max_safe_integer

abbrev pub is_revision_if_any : Option ℕ → Bool
is_revision_if_any none = true
is_revision_if_any (some value) = is_revision value

-- `a ?? b`
abbrev pub or_else {ℓ} : {A : Type ℓ} → Option A → Option A → Option A
or_else (some a) b = some a
or_else none b = b

abbrev pub is_absent {ℓ} : {A : Type ℓ} → Option A → Bool
is_absent none = true
is_absent (some a) = false

-- The types aside, each of the tests throws the same error.
unfoldable pub assert_snapshot_shape : SemanticSnapshot → Call (Unit {0})
assert_snapshot_shape input =
    throw_if
      (not (
        is_revision input.generation
        && is_revision_if_any input.page_generation
        && is_revision_if_any input.page_revision
        && is_revision_if_any input.frame_generation
        && not (is_absent input.targets && is_absent input.elements)))
      invalid_snapshot

unfoldable pub assert_revision : ℕ → Option ℕ → Call (Unit {0})
assert_revision actual none h = returns tt h
assert_revision actual (some expected) h =
    if is_revision expected
    then (if nat_beq actual expected then returns tt h else throws page_revision_mismatch h)
    else throws invalid_snapshot h

-- `validateSnapshotId` and `validateTabId`.
unfoldable pub is_opaque : ℕ → Text → Bool
is_opaque max_length value =
    leb 1 (length value) && leb (length value) max_length && all (λ c. not (is_control c)) value

abbrev pub is_opaque_if_any : Option Text → Bool
is_opaque_if_any none = true
is_opaque_if_any (some value) = is_opaque 100 value

abbrev pub lift : {A : Type 0} → Result SnapshotError A → Call A
lift (ok a) h = returns a h
lift (error e) h = throws e h

unfoldable pub normalize_nodes :
    (Text → Text) → ℕ → List InputNode → Result SnapshotError (List StoredNode)
unfolding normalize_stored_node
normalize_nodes sha256 generation [] = ok []
normalize_nodes sha256 generation (input ∷ inputs) =
    elim (normalize_stored_node sha256 generation input) [
      | error e ↦ error e
      | ok stored ↦ elim (normalize_nodes sha256 generation inputs) [
        | error e ↦ error e
        | ok rest ↦ ok (stored ∷ rest)
      ]
    ]

-- The page revision that the options or the snapshot say.
abbrev pub revision_of : SemanticSnapshot → SnapshotRecordOptions → ℕ
revision_of input options =
    get_or (or_else options.page_revision (or_else input.page_revision input.page_generation))
      input.generation

abbrev pub raw_targets : SemanticSnapshot → List InputNode
raw_targets input = get_or (or_else input.targets input.elements) []

abbrev pub drop_text : StoredNode → StoredNode
drop_text stored = record stored { node = without_node_text stored.node }

-- A module's surroundings: SHA-256, the generator of identifiers (its arguments are the sequence number
-- and the page revision), and the bytes of an entry's JSON.
pub record Platform : Type 0 where
  pub sha256 : Text → Text
  pub id_of : ℕ → ℕ → Text
  pub json_bytes : Text → Option Text → ℕ → ℕ → List StoredNode → ℕ

module _ (p : Platform) where
  -- The attempts that are left; the code has eight.
  unfoldable pub next_snapshot_id : ℕ → ℕ → Call Text
  unfolding is_opaque
  next_snapshot_id zero revision h = throws resource_exhausted h
  next_snapshot_id (suc attempts) revision h =
      let id = p.id_of (h.sequence + 1) revision in
      let next = record h { sequence = h.sequence + 1 } in
      elim (is_opaque 200 id) [
        | false ↦ throws invalid_snapshot next
        | true ↦ elim (has id h.entries) [
          | false ↦ returns id next
          | true ↦ next_snapshot_id attempts revision next
        ]
      ]

  unfoldable pub choose_id : Option Text → ℕ → Call Text
  unfolding next_snapshot_id is_opaque
  choose_id none revision h = next_snapshot_id 8 revision h
  choose_id (some id) revision h =
      if is_opaque 200 id then returns id h else throws invalid_snapshot h

  abbrev pub prepared_of : Text → ℕ → SemanticSnapshot → List StoredNode → Prepared
  prepared_of id revision input nodes =
      let stored = map drop_text nodes in
      record {
        snapshot_id = id;
        tab_id = input.tab_id;
        page_revision = revision;
        generation = input.generation;
        targets = map (λ (s : StoredNode). s.node) nodes;
        stored_nodes = stored;
        entry_bytes = p.json_bytes id input.tab_id revision input.generation stored;
      }

  -- What follows the choice of the identifier.
  unfoldable pub prepare_nodes : SemanticSnapshot → ℕ → Text → Call Prepared
  unfolding normalize_nodes
  prepare_nodes input revision id h =
      (do
        nodes ← lift (
            normalize_nodes p.sha256 input.generation (take h.limits.max_nodes (raw_targets input)))
        throw_if (not (is_opaque_if_any input.tab_id)) invalid_snapshot
        return (prepared_of id revision input nodes))
        h

  unfoldable pub prepare_snapshot : SemanticSnapshot → SnapshotRecordOptions → Call Prepared
  unfolding assert_snapshot_shape assert_revision choose_id prepare_nodes
  prepare_snapshot input options = do
    assert_snapshot_shape input
    throw_if (not (is_revision (revision_of input options))) invalid_snapshot
    assert_revision (revision_of input options) options.expected_page_revision
    id ← choose_id (or_else options.snapshot_id input.snapshot_id) (revision_of input options)
    prepare_nodes input (revision_of input options) id

  -- `record`.
  unfoldable pub record_snapshot : ℕ → SemanticSnapshot → SnapshotRecordOptions → Call Prepared
  unfolding prepare_snapshot retain_prepared
  record_snapshot now input options = do
    prepared ← prepare_snapshot input options
    retain_prepared now prepared

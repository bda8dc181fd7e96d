-- ===== src/SnapshotHistory/Matching.antt =====
-- src/browser/snapshot-history.ts: the nodes of an observation matched with those of one that is kept.
use mathlib.Core.Option.{get_or}
use browser_profile_studio.Prelude.{
  nat_beq, if◌then◌else◌, string_eq, nat_eq, bool_eq, ◌==◌, pair_eq, list_beq, any, select, Text,
  text_eq, ℕ, suc, Bool, true, false, not, ◌&&◌, ◌||◌, Option, none, some, List, [], ◌∷◌, ◌++◌,
}
use browser_profile_studio.Prelude.Ascii.{units}
use browser_profile_studio.SnapshotHistory.Node.{
  SemanticNode, StoredNode, SnapshotNodeField, changed_fields,
}
use browser_profile_studio.SnapshotHistory.State.{Prepared, StoredEntry}
use browser_profile_studio.Prelude.Method.{fields}

-- `semanticKey`: the key of a test identifier as a text, or else the parts that the other key encodes.
abbrev pub SemanticKey : Type 0
SemanticKey = Text × List Text

unfoldable pub semantic_key : SemanticNode → SemanticKey
semantic_key node =
    let frame = get_or node.frame_id (units "main") in
    elim node.test_id [
      | some (c ∷ s) ↦ (units "test:" ++ frame ++ units ":" ++ c ∷ s, [])
      | _ ↦ ([], frame ∷ node.role ∷ node.tag ∷ node.name ∷ get_or node.node_type [] ∷ [])
    ]

pub record SnapshotNodeUpdate : Type 0 where
  pub key : SemanticKey
  pub before : SemanticNode
  pub after : SemanticNode
  pub changed : List SnapshotNodeField

pub record SnapshotDiff : Type 0 where
  pub since_snapshot_id : Text
  pub snapshot_id : Text
  pub tab_id : Option Text
  pub from_page_revision : ℕ
  pub page_revision : ℕ
  pub page_revision_changed : Bool
  pub added : List SemanticNode
  pub removed : List SemanticNode
  pub updated : List SnapshotNodeUpdate
  pub changed : Bool

abbrev pub same_key : SemanticNode → SemanticNode → Bool
same_key a b =
    (semantic_key a).0 == (semantic_key b).0 && list_beq (semantic_key a).1 (semantic_key b).1

abbrev pub Indexed : Type 0
Indexed = StoredNode × ℕ

unfoldable pub indexed_from : ℕ → List StoredNode → List Indexed
indexed_from i [] = []
indexed_from i (stored ∷ nodes) = (stored, i) ∷ indexed_from (suc i) nodes

-- The groups of the two maps that `current` may match, the nodes of its reference first.
unfoldable pub candidates : List Indexed → StoredNode → List Indexed
unfolding semantic_key
candidates base current =
    select (λ (c : Indexed). c.0.node.ref == current.node.ref) base
    ++ select (λ (c : Indexed). same_key c.0.node current.node) base

abbrev pub is_used : ℕ → List ℕ → Bool
is_used i used = any (nat_beq i) used

unfoldable pub first_unused : List ℕ → List Indexed → Option Indexed
first_unused used [] = none
first_unused used (c ∷ cs) =
    let later = first_unused used cs in if is_used c.1 used then later else some c

pub record Matching : Type 0 where
  pub used : List ℕ
  pub added : List SemanticNode
  pub updated : List SnapshotNodeUpdate

abbrev pub is_nil {ℓ} : {A : Type ℓ} → List A → Bool
is_nil [] = true
is_nil (a ∷ rest) = false

abbrev pub update_of : StoredNode → StoredNode → List SnapshotNodeField → SnapshotNodeUpdate
update_of before after fields = record {
  key = semantic_key after.node;
  before = before.node;
  after = after.node;
  changed = fields;
}

-- An update, if a field has changed.
unfoldable pub add_update :
    StoredNode → StoredNode → List SnapshotNodeUpdate → List SnapshotNodeUpdate
unfolding changed_fields semantic_key
add_update before after updates =
    let fields = changed_fields before after in
    if is_nil fields then updates else update_of before after fields ∷ updates

-- The loop over the current nodes.
unfoldable pub match_nodes : List Indexed → List ℕ → List StoredNode → Matching
unfolding candidates first_unused add_update
match_nodes base used [] = record { used = used; added = []; updated = [] }
match_nodes base used (current ∷ nodes) = elim (first_unused used (candidates base current)) [
  | none ↦
      let rest = match_nodes base used nodes in record rest { added = current.node ∷ rest.added }
  | some found ↦
      let rest = match_nodes base (found.1 ∷ used) nodes in
      record rest { updated = add_update found.0 current rest.updated }
]

unfoldable pub removed_from : ℕ → List ℕ → List StoredNode → List SemanticNode
removed_from i used [] = []
removed_from i used (stored ∷ nodes) =
    let rest = removed_from (suc i) used nodes in
    if is_used i used then rest else stored.node ∷ rest

unfoldable pub diff_of : Prepared → List StoredNode → StoredEntry → Text → SnapshotDiff
unfolding match_nodes removed_from indexed_from
diff_of current nodes base since =
    let matching = match_nodes (indexed_from 0 base.nodes) [] nodes in
    let removed = removed_from 0 matching.used base.nodes in
    record {
      since_snapshot_id = since;
      snapshot_id = current.snapshot_id;
      tab_id = current.tab_id;
      from_page_revision = base.page_revision;
      page_revision = current.page_revision;
      page_revision_changed = not (nat_beq base.page_revision current.page_revision);
      added = matching.added;
      removed = removed;
      updated = matching.updated;
      changed =
          not (is_nil matching.added) || not (is_nil removed) || not (is_nil matching.updated);
    }

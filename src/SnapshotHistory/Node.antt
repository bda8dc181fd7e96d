-- ===== src/SnapshotHistory/Node.antt =====
-- src/browser/snapshot-history.ts: what is kept of a node, and when two nodes are the same. SHA-256 is
-- a parameter.
use mathlib.Core.Option.{get_or}
use browser_profile_studio.Prelude.{
  leb, nat_beq, if◌then◌else◌, string_eq, nat_eq, bool_eq, ◌==◌, pair_eq, option_beq, length, take,
  all, select, Text, text_eq, is_space, trim, ℕ, ◌*◌, Bool, true, false, not, ◌&&◌, ◌||◌, Option,
  none, some, List, [], ◌∷◌, map,
}
use browser_profile_studio.Prelude.Ascii.{units, lower_unit}
use browser_profile_studio.Prelude.Result.{Result, ok, error}

pub data SnapshotError : Type 0 where
  snapshot_not_found snapshot_expired snapshot_id_conflict : SnapshotError
  page_revision_mismatch invalid_snapshot resource_exhausted : SnapshotError

-- A node as a page's observer gives it; `has_value` is whether there is a value, whatever it is.
pub record InputNode : Type 0 where
  pub ref : Text
  pub generation : Option ℕ
  pub role : Option Text
  pub name : Option Text
  pub tag : Option Text
  pub node_type : Option Text
  pub test_id : Option Text
  pub frame_id : Option Text
  pub text : Option Text
  pub visible : Option Bool
  pub enabled : Option Bool
  pub editable : Option Bool
  pub checked : Option Bool
  pub required : Option Bool
  pub has_value : Bool

-- A normalized node; `redacted` is whether it has the mark of a value.
pub record SemanticNode : Type 0 where
  pub ref : Text
  pub generation : ℕ
  pub role : Text
  pub name : Text
  pub tag : Text
  pub node_type : Option Text
  pub test_id : Option Text
  pub frame_id : Option Text
  pub text : Option Text
  pub visible : Option Bool
  pub enabled : Option Bool
  pub editable : Option Bool
  pub checked : Option Bool
  pub required : Option Bool
  pub redacted : Bool

pub record StoredNode : Type 0 where
  pub node : SemanticNode
  pub text_digest : Option Text

pub data SnapshotNodeField : Type 0 where
  role_field name_field tag_field type_field test_id_field frame_id_field : SnapshotNodeField
  visible_field enabled_field editable_field checked_field required_field : SnapshotNodeField
  value_field text_field : SnapshotNodeField

abbrev pub max_safe_integer : ℕ
max_safe_integer = 9_007_199_254_740_991

abbrev pub max_ref_length : ℕ
max_ref_length = 200

abbrev pub max_name_length : ℕ
max_name_length = 200

abbrev pub max_node_string_length : ℕ
max_node_string_length = 256

abbrev pub is_control : ℕ → Bool
is_control c = leb c 31 || nat_beq c 127

-- A control character becomes a space.
abbrev pub blank : ℕ → ℕ
blank c = if is_control c then 32 else c

-- White space becomes one space; `inside` is whether the last unit was white space.
unfoldable pub collapse : Bool → Text → Text
unfolding is_space
collapse inside [] = []
collapse inside (c ∷ s) =
    let space = collapse true s in
    let word = collapse false s in
    if is_space c then (if inside then space else 32 ∷ space) else c ∷ word

unfoldable pub bounded_text : ℕ → Text → Text
unfolding collapse trim
bounded_text max_length value =
    take max_length (trim (collapse false (map blank (take (max_length * 4) value))))

-- A field of `STRING_NODE_FIELDS`: an empty text leaves what was there.
abbrev pub bounded_field : ℕ → Option Text → Option Text
bounded_field limit (some (c ∷ s)) = some (bounded_text limit (c ∷ s))
bounded_field limit _ = none

-- The same for a field that has a default, which an empty text is not.
abbrev pub bounded_or : ℕ → Text → Option Text → Text
bounded_or limit fallback none = bounded_text max_name_length fallback
bounded_or limit fallback (some []) = []
bounded_or limit fallback (some (c ∷ s)) = bounded_text limit (c ∷ s)

-- Without regard to case; the long s is an s too.
abbrev pub fold_unit : ℕ → ℕ
fold_unit c = if nat_beq c 0x17f then 115 else lower_unit c

abbrev pub is_sensitive : Option Text → Bool
is_sensitive none = false
is_sensitive (some t) =
    let kind = map fold_unit t in
    kind == units "password" || kind == units "hidden" || kind == units "secret"

unfoldable pub normalize_node : ℕ → InputNode → SemanticNode
normalize_node generation input = record {
  ref = bounded_text max_ref_length input.ref;
  generation = get_or input.generation generation;
  role = bounded_or max_node_string_length (units "generic") input.role;
  name = bounded_or max_name_length [] input.name;
  tag = bounded_or max_node_string_length (units "unknown") input.tag;
  node_type = bounded_field max_node_string_length input.node_type;
  test_id = bounded_field max_node_string_length input.test_id;
  frame_id = bounded_field max_node_string_length input.frame_id;
  text = bounded_field max_node_string_length input.text;
  visible = input.visible;
  enabled = input.enabled;
  editable = input.editable;
  checked = input.checked;
  required = input.required;
  redacted = input.has_value || is_sensitive input.node_type;
}

abbrev pub digest_of : (Text → Text) → Option Text → Option Text
digest_of sha256 (some (c ∷ s)) = some (sha256 (c ∷ s))
digest_of sha256 _ = none

unfoldable pub normalize_stored_node :
    (Text → Text) → ℕ → InputNode → Result SnapshotError StoredNode
unfolding normalize_node
normalize_stored_node sha256 generation input =
    if leb 1 (length input.ref)
      && leb (length input.ref) max_ref_length
      && leb (get_or input.generation generation) max_safe_integer
    then ok (record {
      node = normalize_node generation input;
      text_digest = digest_of sha256 input.text;
    })
    else error invalid_snapshot

abbrev pub without_node_text : SemanticNode → SemanticNode
without_node_text node = record node { text = none }

-- The comparisons of `NODE_FIELDS`, in their order.
abbrev pub comparisons : StoredNode → StoredNode → List (SnapshotNodeField × Bool)
comparisons before after =
    (role_field, before.node.role == after.node.role)
    ∷ (name_field, before.node.name == after.node.name)
    ∷ (tag_field, before.node.tag == after.node.tag)
    ∷ (type_field, option_beq before.node.node_type after.node.node_type)
    ∷ (test_id_field, option_beq before.node.test_id after.node.test_id)
    ∷ (frame_id_field, option_beq before.node.frame_id after.node.frame_id)
    ∷ (visible_field, option_beq before.node.visible after.node.visible)
    ∷ (enabled_field, option_beq before.node.enabled after.node.enabled)
    ∷ (editable_field, option_beq before.node.editable after.node.editable)
    ∷ (checked_field, option_beq before.node.checked after.node.checked)
    ∷ (required_field, option_beq before.node.required after.node.required)
    ∷ (value_field, before.node.redacted == after.node.redacted)
    ∷ (text_field, option_beq before.text_digest after.text_digest)
    ∷ []

unfoldable pub changed_fields : StoredNode → StoredNode → List SnapshotNodeField
changed_fields before after =
    map (λ (c : SnapshotNodeField × Bool). c.0)
      (select (λ (c : SnapshotNodeField × Bool). not c.1) (comparisons before after))

abbrev pub same_node : StoredNode → StoredNode → Bool
same_node a b =
    all (λ (c : SnapshotNodeField × Bool). c.1) (comparisons a b)
    && a.node.ref == b.node.ref
    && nat_beq a.node.generation b.node.generation

unfoldable pub same_stored_nodes : List StoredNode → List StoredNode → Bool
same_stored_nodes [] [] = true
same_stored_nodes (a ∷ left) (b ∷ right) = same_node a b && same_stored_nodes left right
same_stored_nodes _ _ = false

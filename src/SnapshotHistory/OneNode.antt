-- ===== src/SnapshotHistory/OneNode.antt =====
-- src/browser/snapshot-history.ts: one node normalized, and compared with the one that is kept.
use mathlib.Core.Option.{get_or}
use browser_profile_studio.Prelude.{
  string_eq, nat_eq, bool_eq, pair_eq, list_beq_iff, length, take, In, Text, text_eq, ℕ, zero, suc,
  ◌≤◌, ◌≡◌, refl, true, false, some, List, [], ◌∷◌, arith,
}
use browser_profile_studio.SnapshotHistory.Node.{
  InputNode, StoredNode, text_field, max_safe_integer, max_ref_length, bounded_text, normalize_node,
  normalize_stored_node, changed_fields,
}
use browser_profile_studio.SnapshotHistory.State.{Prepared, StoredEntry}
use browser_profile_studio.SnapshotHistory.Matching.{
  SnapshotNodeUpdate, SnapshotDiff, indexed_from, candidates, first_unused, is_nil, update_of,
  add_update, match_nodes, removed_from, diff_of,
}
use browser_profile_studio.SnapshotHistory.Diff.{as_input}
use browser_profile_studio.SnapshotHistory.Digest.{first_node}
use browser_profile_studio.Prelude.Result.{ok}
use browser_profile_studio.SnapshotHistory.Prepare.{normalize_nodes}

-- The difference has one update, which is of the node's text.
abbrev pub ReportsText : SnapshotDiff → Type 0
ReportsText d =
    (u : SnapshotNodeUpdate) × (d.updated ≡ u ∷ []) × In text_field u.changed × (d.changed ≡ true)

-- The node is valid, and its reference is as normalization leaves it.
abbrev pub IsValidNode : ℕ → InputNode → Type 0
IsValidNode generation input =
    (1 ≤ length input.ref)
    × (length input.ref ≤ max_ref_length)
    × (bounded_text max_ref_length input.ref ≡ input.ref)
    × (get_or input.generation generation ≤ max_safe_integer)

normalize_stored_node-first :
    (sha256 : Text → Text) (generation : ℕ) (input : InputNode)
    → IsValidNode generation input
    → normalize_stored_node sha256 generation input ≡ ok (first_node sha256 generation input)
unfolding normalize_stored_node
normalize_stored_node-first sha256 generation input v = ground arith

pub as_input-IsValidNode :
    (generation : ℕ) (input : InputNode)
    → IsValidNode generation input
    → IsValidNode generation (as_input (normalize_node generation input))
unfolding normalize_node
as_input-IsValidNode generation input v = rw (v.2) (v.0, v.1, v.2, v.3)

In-not_nil : {A : Type 0} (x : A) (xs : List A) → In x xs → is_nil xs ≡ false
In-not_nil x [] h = absurd h
In-not_nil x (y ∷ ys) h = refl

first_unused-one :
    (before after : StoredNode)
    → before.node.ref ≡ after.node.ref
    → first_unused [] (candidates ((before, 0) ∷ []) after) ≡ some (before, 0)
unfolding first_unused candidates
first_unused-one before after ref = ground (arith, list_beq_iff before.node.ref after.node.ref)

-- A node is matched with the one node of its reference.
match_nodes-one :
    (before after : StoredNode)
    → before.node.ref ≡ after.node.ref
    → In text_field (changed_fields before after)
    → match_nodes (indexed_from 0 (before ∷ [])) [] (after ∷ []) ≡ record {
      used = 0 ∷ [];
      added = [];
      updated = update_of before after (changed_fields before after) ∷ [];
    }
unfolding match_nodes indexed_from add_update
match_nodes-one before after ref changed =
    rw
      (
        first_unused-one before after ref,
        match_nodes,
        In-not_nil text_field (changed_fields before after) changed,
      )
      refl

pub diff_of-ReportsText :
    (current : Prepared) (before after : StoredNode) (base : StoredEntry) (since : Text)
    → base.nodes ≡ before ∷ []
    → before.node.ref ≡ after.node.ref
    → In text_field (changed_fields before after)
    → ReportsText (diff_of current (after ∷ []) base since)
unfolding diff_of removed_from
diff_of-ReportsText current before after base since same ref changed =
    rw (same, match_nodes-one before after ref changed)
      (update_of before after (changed_fields before after), refl, changed, refl)

pub take-one : {A : Type 0} (n : ℕ) (x : A) → 1 ≤ n → take n (x ∷ []) ≡ x ∷ []
take-one zero x h = absurd (omega arith)
take-one (suc zero) x h = refl
take-one (suc (suc n)) x h = refl

pub normalize_nodes-one :
    (sha256 : Text → Text) (generation : ℕ) (input : InputNode)
    → IsValidNode generation input
    → normalize_nodes sha256 generation (input ∷ []) ≡ ok (first_node sha256 generation input ∷ [])
unfolding normalize_nodes
normalize_nodes-one sha256 generation input v =
    rw (normalize_stored_node-first sha256 generation input v, normalize_nodes) refl

-- ===== src/SnapshotHistory/Digest.antt =====
-- src/browser/snapshot-history.ts: a node's text in the two normalizations.
use browser_profile_studio.Prelude.{
  Bool-cases, string_eq, nat_eq, bool_eq, pair_eq, list_beq, list_beq_iff, option_beq, length,
  select, In, Text, text_eq, trim_start, trim, ℕ, ◌≤◌, ◌≡◌, refl, sym, ap, subst, ◌≢◌, inl, inr,
  Bool, false, not, Option, some, List, [], ◌∷◌, map, arith,
}
use browser_profile_studio.SnapshotHistory.Node.{
  InputNode, StoredNode, SnapshotNodeField, text_field, max_node_string_length, collapse,
  bounded_text, bounded_field, normalize_node, digest_of, comparisons, changed_fields,
}
use browser_profile_studio.SnapshotHistory.Diff.{as_input}
use browser_profile_studio.SnapshotHistory.Prepare.{drop_text}

-- The node of an observation as it is kept, and as `makeDiff` normalizes the observation's node again.
abbrev pub first_node : (Text → Text) → ℕ → InputNode → StoredNode
first_node sha256 generation input = record {
  node = normalize_node generation input;
  text_digest = digest_of sha256 input.text;
}

abbrev pub second_node : (Text → Text) → ℕ → InputNode → StoredNode
second_node sha256 generation input =
    first_node sha256 generation (as_input (normalize_node generation input))

In-changed :
    (c : SnapshotNodeField × Bool) (cs : List (SnapshotNodeField × Bool))
    → In c cs
    → c.1 ≡ false
    → In c.0 (
        map
          (λ (d : SnapshotNodeField × Bool). d.0)
          (select (λ (d : SnapshotNodeField × Bool). not d.1) cs))
In-changed c [] h differs = absurd h
In-changed c (d ∷ cs) (inl same) differs =
    let off : d.1 ≡ false =
      subst (λ (e : SnapshotNodeField × Bool). e.1 ≡ false) (sym same) differs in
    rw off (inl (ap (λ (e : SnapshotNodeField × Bool). e.0) same))
In-changed c (d ∷ cs) (inr h) differs = elim (Bool-cases d.1) [
  | inl on ↦ rw on (In-changed c cs h differs)
  | inr off ↦ rw off (inr (In-changed c cs h differs))
]

In-text_field :
    (before after : StoredNode)
    → option_beq before.text_digest after.text_digest ≡ false
    → In text_field (changed_fields before after)
unfolding changed_fields
In-text_field before after h =
    In-changed (text_field, option_beq before.text_digest after.text_digest)
      (comparisons before after)
      (inr (inr (inr (inr (inr (inr (inr (inr (inr (inr (inr (inr (inl refl))))))))))))) h

differs : (a b : Text) → a ≢ b → list_beq a b ≡ false
differs a b h = ground (arith, list_beq_iff a b)

abbrev pub kept_text : Text → Text
kept_text text = bounded_text max_node_string_length text

differ-non_empty :
    (sha256 : Text → Text) (a b : Text)
    → 1 ≤ length a
    → 1 ≤ length b
    → sha256 a ≢ sha256 b
    → option_beq (digest_of sha256 (some a)) (digest_of sha256 (some b)) ≡ false
differ-non_empty sha256 [] b p q apart = absurd (omega arith)
differ-non_empty sha256 (c ∷ s) [] p q apart = absurd (omega arith)
differ-non_empty sha256 (c ∷ s) (d ∷ t) p q apart = differs (sha256 (c ∷ s)) (sha256 (d ∷ t)) apart

digests-differ :
    (sha256 : Text → Text) (text : Text)
    → 1 ≤ length (kept_text text)
    → sha256 text ≢ sha256 (kept_text text)
    → option_beq
        (digest_of sha256 (some text))
        (digest_of sha256 (bounded_field max_node_string_length (some text)))
      ≡ false
unfolding bounded_text trim trim_start collapse
digests-differ sha256 [] something apart = absurd (omega arith)
digests-differ sha256 (c ∷ s) something apart =
    differ-non_empty sha256 (c ∷ s) (kept_text (c ∷ s)) (omega arith) something apart

-- Where the digest tells a node's text from its bounded form, as the digest of a text with two spaces in
-- a row or of more than 256 units should, the node differs from itself in its text: it is kept with
-- the digest of the text, and compared with the digest of the bounded form.
pub bounded-IsChanged :
    (sha256 : Text → Text) (generation : ℕ) (input : InputNode) (text : Text)
    → input.text ≡ some text
    → 1 ≤ length (kept_text text)
    → sha256 text ≢ sha256 (kept_text text)
    → In text_field (
        changed_fields
          (drop_text (first_node sha256 generation input))
          (second_node sha256 generation input))
unfolding normalize_node
bounded-IsChanged sha256 generation input text given something apart =
    In-text_field (drop_text (first_node sha256 generation input))
      (second_node sha256 generation input)
      (subst
        (λ (o : Option Text).
          option_beq (digest_of sha256 o)
            (digest_of sha256 (bounded_field max_node_string_length o))
          ≡ false)
        (sym given) (digests-differ sha256 text something apart))

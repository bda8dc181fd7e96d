-- ===== src/SnapshotHistory/Partition.antt =====
-- src/browser/snapshot-history.ts: a difference accounts for every node.
use mathlib.Core.Option.{some-injective}
use browser_profile_studio.Prelude.{
  nat_beq, if◌then◌else◌, nat_beq_iff, Bool-cases, Option-cases, string_eq, nat_eq, bool_eq, ◌==◌,
  pair_eq, length, select, In, In-select, Text, text_eq, ℕ, suc, ◌+◌, ◌≤◌, ◌<◌, ◌≡◌, refl, sym, ap,
  subst, ◌↔◌, ◌⊎◌, inl, inr, Bool, true, false, not, ◌||◌, some, List, [], ◌∷◌, ◌++◌, arith,
}
use browser_profile_studio.SnapshotHistory.Node.{StoredNode, changed_fields}
use browser_profile_studio.SnapshotHistory.Matching.{
  SnapshotNodeUpdate, same_key, Indexed, indexed_from, candidates, is_used, first_unused, is_nil,
  update_of, add_update, match_nodes, removed_from, diff_of,
}
use browser_profile_studio.SnapshotHistory.State.{Prepared, StoredEntry}

-- How many of the nodes from number `i` on are used.
unfoldable count_used : ℕ → List ℕ → List StoredNode → ℕ
count_used i used [] = 0
count_used i used (stored ∷ nodes) =
    let rest = count_used (suc i) used nodes in if is_used i used then rest + 1 else rest

removed_from-length :
    (i : ℕ) (used : List ℕ) (nodes : List StoredNode)
    → length (removed_from i used nodes) + count_used i used nodes ≡ length nodes
unfolding removed_from count_used
removed_from-length i used [] = refl
removed_from-length i used (stored ∷ nodes) = ground (arith, removed_from-length (suc i) used nodes)

count_used-before :
    (i j : ℕ) (used : List ℕ) (nodes : List StoredNode)
    → j < i
    → count_used i (j ∷ used) nodes ≡ count_used i used nodes
unfolding count_used
count_used-before i j used [] h = refl
count_used-before i j used (stored ∷ nodes) h =
    ground (arith, count_used-before (suc i) j used nodes)

count_used-cons :
    (i j : ℕ) (used : List ℕ) (nodes : List StoredNode)
    → i ≤ j
    → j < i + length nodes
    → is_used j used ≡ false
    → count_used i (j ∷ used) nodes ≡ count_used i used nodes + 1
unfolding count_used
count_used-cons i j used [] low high h = absurd (omega arith)
count_used-cons i j used (stored ∷ nodes) low high h = elim (Bool-cases (nat_beq i j)) [
  | inl same ↦
      let equal : i ≡ j = (nat_beq_iff i j).0 same in
      let free : is_used i used ≡ false = subst (λ k. is_used k used ≡ false) (sym equal) h in
      ground (arith, count_used-before (suc i) j used nodes (omega (arith, equal)))
  | inr other ↦ ground (arith, count_used-cons (suc i) j used nodes (ground arith) (omega arith) h)
]

count_used-nil : (i : ℕ) (nodes : List StoredNode) → count_used i [] nodes ≡ 0
unfolding count_used
count_used-nil i [] = refl
count_used-nil i (stored ∷ nodes) = count_used-nil (suc i) nodes

first_unused-In :
    (used : List ℕ) (cs : List Indexed) {c : Indexed}
    → first_unused used cs ≡ some c
    → In c cs × (is_used c.1 used ≡ false)
unfolding first_unused
first_unused-In used [] h = ground arith
first_unused-In used (d ∷ cs) {c = c} h = elim (Bool-cases (is_used d.1 used)) [
  | inl taken ↦ let rest = first_unused-In used cs {c = c} (ground arith) in (inr rest.0, rest.1)
  | inr free ↦
      let same : d ≡ c = some-injective d c (ground arith) in
      (inl same, subst (λ (x : Indexed). is_used x.1 used ≡ false) same free)
]

In-append : {A : Type 0} (x : A) (xs ys : List A) → In x (xs ++ ys) → In x xs ⊎ In x ys
In-append x [] ys h = inr h
In-append x (y ∷ xs) ys (inl same) = inl (inl same)
In-append x (y ∷ xs) ys (inr h) = ground (arith, In-append x xs ys h)

indexed_from-range :
    (i : ℕ) (nodes : List StoredNode) (c : Indexed)
    → In c (indexed_from i nodes)
    → (i ≤ c.1) × (c.1 < i + length nodes)
unfolding indexed_from
indexed_from-range i [] c h = absurd h
indexed_from-range i (stored ∷ nodes) c (inl same) =
    let number : i ≡ c.1 = ap (λ (x : Indexed). x.1) same in
    (omega (arith, number), omega (arith, number))
indexed_from-range i (stored ∷ nodes) c (inr h) =
    let rest = indexed_from-range (suc i) nodes c h in
    (omega (arith, rest.0), omega (arith, rest.1))

candidates-In :
    (base : List Indexed) (current : StoredNode) (c : Indexed)
    → In c (candidates base current)
    → In c base
unfolding candidates
candidates-In base current c h =
    elim (In-append c (select (λ (d : Indexed). d.0.node.ref == current.node.ref) base)
      (select (λ (d : Indexed). same_key d.0.node current.node) base) h) [
        | inl by_ref ↦
            ((In-select (λ (d : Indexed). d.0.node.ref == current.node.ref) c base).0 by_ref).0
        | inr by_key ↦
            ((In-select (λ (d : Indexed). same_key d.0.node current.node) c base).0 by_key).0
      ]

one_more :
    {A : Type 0} (b : Bool) (x : A) (xs : List A)
    → length (if b then xs else x ∷ xs) ≤ length xs + 1
one_more true x xs = omega arith
one_more false x xs = omega arith

add_update-length :
    (before after : StoredNode) (updates : List SnapshotNodeUpdate)
    → length (add_update before after updates) ≤ length updates + 1
unfolding add_update
add_update-length before after updates =
    let fields = changed_fields before after in
    one_more (is_nil fields) (update_of before after fields) updates

match_nodes-count :
    (base : List StoredNode) (used : List ℕ) (nodes : List StoredNode)
    → (count_used 0 (match_nodes (indexed_from 0 base) used nodes).used base
          + length (match_nodes (indexed_from 0 base) used nodes).added
        ≡ count_used 0 used base + length nodes)
      × (length (match_nodes (indexed_from 0 base) used nodes).updated
            + length (match_nodes (indexed_from 0 base) used nodes).added
          ≤ length nodes)
unfolding match_nodes
match_nodes-count base used [] = (refl, omega arith)
match_nodes-count base used (current ∷ nodes) =
    let cs = candidates (indexed_from 0 base) current in
    elim (Option-cases (first_unused used cs)) [
      | inl nobody ↦
          let rest = match_nodes-count base used nodes in
          rw (nobody, match_nodes) (omega (arith, rest.0), omega (arith, rest.1))
      | inr (c, found) ↦
          let chosen = first_unused-In used cs found in
          let range =
            indexed_from-range 0 base c (candidates-In (indexed_from 0 base) current c chosen.0) in
          let rest = match_nodes-count base (c.1 ∷ used) nodes in
          let more = count_used-cons 0 c.1 used base range.0 (omega (arith, range.1)) chosen.1 in
          let updates = (match_nodes (indexed_from 0 base) (c.1 ∷ used) nodes).updated in
          rw (found, match_nodes)
            (
              omega (arith, rest.0, more),
              omega (arith, rest.1, add_update-length c.0 current updates),
            )
    ]

nothing :
    {A B : Type 0} (xs ys : List A) (zs : List B)
    → ((not (is_nil xs) || not (is_nil ys) || not (is_nil zs)) ≡ false)
      ↔ (length xs + length ys + length zs ≡ 0)
nothing [] [] [] = ground arith
nothing [] [] (z ∷ zs) = ground arith
nothing [] (y ∷ ys) zs = ground arith
nothing (x ∷ xs) ys zs = ground arith

-- Each node is accounted for: with the nodes that an observation adds, the nodes that were kept are as
-- many as the ones that it removes with the ones that it has; updates and additions are together no
-- more than its nodes; and it is changed unless nothing is added, removed or updated.
pub diff_of-accounts :
    (current : Prepared) (nodes : List StoredNode) (base : StoredEntry) (since : Text)
    → (length (diff_of current nodes base since).added + length base.nodes
        ≡ length (diff_of current nodes base since).removed + length nodes)
      × (length (diff_of current nodes base since).updated
            + length (diff_of current nodes base since).added
          ≤ length nodes)
      × (((diff_of current nodes base since).changed ≡ false) ↔ (
          length (diff_of current nodes base since).added
            + length (diff_of current nodes base since).removed
            + length (diff_of current nodes base since).updated
          ≡ 0))
unfolding diff_of
diff_of-accounts current nodes base since =
    let matching = match_nodes (indexed_from 0 base.nodes) [] nodes in
    let counted = match_nodes-count base.nodes [] nodes in
    let removed = removed_from-length 0 matching.used base.nodes in
    (
      omega (arith, counted.0, removed, count_used-nil 0 base.nodes),
      counted.1,
      nothing matching.added (removed_from 0 matching.used base.nodes) matching.updated,
    )

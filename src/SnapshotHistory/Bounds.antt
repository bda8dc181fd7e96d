-- ===== src/SnapshotHistory/Bounds.antt =====
-- src/browser/snapshot-history.ts: the bounds of the history, through every method.
use browser_profile_studio.Prelude.{
  ltb, string_eq, nat_eq, bool_eq, pair_eq, length, select, All, All-select, Text, text_eq, ℕ, ◌+◌,
  ◌≤◌, ◌≡◌, refl, sym, ap, subst, Bool, false, List, [], ◌∷◌, ◌++◌, arith,
}
use browser_profile_studio.Prelude.Map.{Map, has, Distinct, set-Distinct, All-set, All-delete}
use browser_profile_studio.Prelude.Method.{final}
use browser_profile_studio.SnapshotHistory.State.{Prepared, StoredEntry, Limits, History}
use browser_profile_studio.SnapshotHistory.Retain.{
  is_empty_id, prune_entries, drop_marks, mark_limit, prune, make_room, entry_of, insert,
  is_too_large,
}
use browser_profile_studio.SnapshotHistory.Size.{
  bytes_of, IsNamed, length-set_absent, length-delete, select-Distinct, length-select,
  bytes_of-set_absent, is_fresh, prune_entries_kept, prune_entries_total, prune_entries-IsNamed,
  drop_marks-length, drop_marks-IsNamed, make_room-IsRoom,
}

-- An entry has a name and a size within its bound.
abbrev pub IsKept : Limits → Text × StoredEntry → Type 0
IsKept limits entry = IsNamed entry × (entry.1.bytes ≤ limits.max_snapshot_bytes)

pub record IsBounded (limits : Limits) (h : History) : Type 0 where
  pub same_limits : h.limits ≡ limits
  pub sum : h.total_bytes ≡ bytes_of h.entries
  pub count : length h.entries ≤ limits.max_snapshots
  pub size : h.total_bytes ≤ limits.max_bytes
  pub distinct : Distinct h.entries
  pub kept : All (IsKept limits) h.entries
  pub marks : length h.expired_ids ≤ mark_limit limits
  pub named : All IsNamed h.expired_ids

All-right : {A : Type 0} (P : A → Type 0) (xs ys : List A) → All P (xs ++ ys) → All P ys
All-right P [] ys h = h
All-right P (x ∷ xs) ys h = All-right P xs ys h.1

Distinct-right : {V : Type 0} (xs ys : Map Text V) → Distinct (xs ++ ys) → Distinct ys
Distinct-right [] ys d = d
Distinct-right ((k, v) ∷ xs) ys d = Distinct-right xs ys d.1

has-right :
    {V : Type 0} (id : Text) (xs ys : Map Text V) → has id (xs ++ ys) ≡ false → has id ys ≡ false
unfolding has
has-right id [] ys h = h
has-right id ((k, v) ∷ xs) ys h = ground (arith, has-right id xs ys)

All-weaken :
    {A : Type 0} (P Q : A → Type 0) (xs : List A) → ((x : A) → P x → Q x) → All P xs → All Q xs
All-weaken P Q [] f h = tt
All-weaken P Q (x ∷ xs) f h = (f x h.0, All-weaken P Q xs f h.1)

bytes_of-select :
    (p : Text × StoredEntry → Bool) (m : Map Text StoredEntry) → bytes_of (select p m) ≤ bytes_of m
bytes_of-select p [] = omega arith
bytes_of-select p (e ∷ m) = ground (arith, bytes_of-select p m)

pub prune-IsBounded :
    (limits : Limits) (now : ℕ) (h : History)
    → IsBounded limits h
    → IsBounded limits (final (prune now h))
unfolding prune
prune-IsBounded limits now h b =
    let names = All-weaken (IsKept limits) IsNamed h.entries (λ x kept. kept.0) b.kept in
    let pruned = prune_entries now h.entries h.expired_ids h.total_bytes in
    let left = prune_entries_kept now h.entries h.expired_ids h.total_bytes in
    let sum : pruned.2 ≡ bytes_of pruned.0 = omega (
      arith,
      prune_entries_total now h.entries h.expired_ids h.total_bytes 0 (omega (arith, b.sum)),
    ) in
    let fresh = λ (mark : Text × ℕ). ltb now (mark.1 + h.limits.ttl_ms) in
    let named =
      All-select IsNamed fresh pruned.1
        (prune_entries-IsNamed now h.entries h.expired_ids h.total_bytes names b.named) in
    record {
      same_limits = b.same_limits;
      sum = sum;
      count =
          subst (λ m. length m ≤ limits.max_snapshots) (sym left)
            (omega (arith, length-select (is_fresh now) h.entries, b.count));
      size =
          omega
            (arith, sum, ap bytes_of left, bytes_of-select (is_fresh now) h.entries, b.sum, b.size);
      distinct = subst Distinct (sym left) (select-Distinct (is_fresh now) h.entries b.distinct);
      kept =
          subst (All (IsKept limits)) (sym left)
            (All-select (IsKept limits) (is_fresh now) h.entries b.kept);
      marks =
          subst
            (λ l. length (drop_marks (mark_limit h.limits) (select fresh pruned.1)) ≤ mark_limit l)
            b.same_limits (drop_marks-length (mark_limit h.limits) (select fresh pruned.1) named);
      named = drop_marks-IsNamed (mark_limit h.limits) (select fresh pruned.1) named;
    }

fits-bounds :
    (limits : Limits) (bytes : ℕ)
    → is_too_large limits bytes ≡ false
    → (bytes ≤ limits.max_snapshot_bytes) × (bytes ≤ limits.max_bytes)
fits-bounds limits bytes h = ground arith

pub insert-IsBounded :
    (now : ℕ) (prepared : Prepared) (h : History)
    → 1 ≤ h.limits.max_snapshots
    → is_empty_id prepared.snapshot_id ≡ false
    → is_too_large h.limits prepared.entry_bytes ≡ false
    → has prepared.snapshot_id h.entries ≡ false
    → IsBounded h.limits h
    → IsBounded h.limits (insert now prepared h)
unfolding insert
insert-IsBounded now prepared h positive name small absent b =
    let id = prepared.snapshot_id in
    let names = All-weaken (IsKept h.limits) IsNamed h.entries (λ x kept. kept.0) b.kept in
    let fits = fits-bounds h.limits prepared.entry_bytes small in
    let room = make_room h.limits prepared.entry_bytes h.entries h.total_bytes in
    let r =
      make_room-IsRoom h.limits prepared.entry_bytes h.entries h.total_bytes positive fits.1 names
        b.sum in
    let entry = entry_of now h.limits prepared in
    let free = has-right id r.3 room.0 (subst (λ m. has id m ≡ false) r.4 absent) in
    record {
      same_limits = refl;
      sum = omega (arith, r.0, bytes_of-set_absent id entry room.0 free);
      count = omega (arith, r.1, length-set_absent id entry room.0 free);
      size = r.2;
      distinct =
          set-Distinct id entry room.0 (Distinct-right r.3 room.0 (subst Distinct r.4 b.distinct));
      kept =
          All-set (IsKept h.limits) id entry room.0
            (λ j same. (subst (λ k. is_empty_id k ≡ false) (sym same) name, fits.0))
            (All-right (IsKept h.limits) r.3 room.0 (subst (All (IsKept h.limits)) r.4 b.kept));
      marks = omega (arith, length-delete id h.expired_ids, b.marks);
      named = All-delete IsNamed id h.expired_ids b.named;
    }

-- ===== src/SnapshotHistory/Size.antt =====
-- src/browser/snapshot-history.ts: what the loops leave of the entries, of their number and of their
-- bytes.
use browser_profile_studio.Prelude.{
  ltb, Bool-cases, string_eq, nat_eq, bool_eq, pair_eq, length, select, All, Text, text_eq, ℕ, suc,
  ◌+◌, ◌-◌, ◌≤◌, ◌≡◌, refl, sym, ap, subst, inl, inr, Bool, true, false, none, some, [], ◌∷◌, ◌++◌,
  arith,
}
use browser_profile_studio.Prelude.Map.{Map, get, has, set, delete, Distinct, All-set}
use browser_profile_studio.SnapshotHistory.State.{StoredEntry, Limits}
use browser_profile_studio.SnapshotHistory.Retain.{
  is_empty_id, prune_entries, drop_marks, is_full, make_room,
}

-- The bytes of all entries.
abbrev pub bytes_of : Map Text StoredEntry → ℕ
bytes_of [] = 0
bytes_of (entry ∷ entries) = entry.1.bytes + bytes_of entries

module _ {V : Type 0} where
  abbrev pub IsNamed : Text × V → Type 0
  IsNamed entry = is_empty_id entry.0 ≡ false

  pub absent-get : (id : Text) (m : Map Text V) → get id m ≡ none → has id m ≡ false
  unfolding get has
  absent-get id [] h = refl
  absent-get id ((j, v) ∷ m) h = ground (arith, absent-get id m)

  pub present-get : (id : Text) (v : V) (m : Map Text V) → get id m ≡ some v → has id m ≡ true
  unfolding get has
  present-get id v [] h = ground arith
  present-get id v ((j, w) ∷ m) h = ground (arith, present-get id v m)

  pub length-set_absent :
      (id : Text) (v : V) (m : Map Text V) → has id m ≡ false → length (set id v m) ≡ length m + 1
  unfolding has set
  length-set_absent id v [] h = refl
  length-set_absent id v ((j, w) ∷ m) h = ground (arith, length-set_absent id v m)

  pub length-delete : (id : Text) (m : Map Text V) → length (delete id m) ≤ length m
  unfolding delete
  length-delete id [] = omega arith
  length-delete id ((j, w) ∷ m) = ground (arith, length-delete id m)

  pub has-select :
      (p : Text × V → Bool) (id : Text) (m : Map Text V)
      → has id m ≡ false
      → has id (select p m) ≡ false
  unfolding has
  has-select p id [] h = refl
  has-select p id ((j, w) ∷ m) h = ground (arith, has-select p id m)

  pub select-Distinct : (p : Text × V → Bool) (m : Map Text V) → Distinct m → Distinct (select p m)
  select-Distinct p [] d = tt
  select-Distinct p ((j, w) ∷ m) d = ground (arith, select-Distinct p m d.1, has-select p j m d.0)

  pub length-select : (p : Text × V → Bool) (m : Map Text V) → length (select p m) ≤ length m
  length-select p [] = omega arith
  length-select p (e ∷ m) = ground (arith, length-select p m)

pub bytes_of-set_absent :
    (id : Text) (entry : StoredEntry) (m : Map Text StoredEntry)
    → has id m ≡ false
    → bytes_of (set id entry m) ≡ bytes_of m + entry.bytes
unfolding has set
bytes_of-set_absent id entry [] h = omega arith
bytes_of-set_absent id entry ((j, w) ∷ m) h = ground (arith, bytes_of-set_absent id entry m)

abbrev pub is_fresh : ℕ → Text × StoredEntry → Bool
is_fresh now entry = ltb now entry.1.expires_at

pub prune_entries_kept :
    (now : ℕ) (m : Map Text StoredEntry) (expired : Map Text ℕ) (total : ℕ)
    → (prune_entries now m expired total).0 ≡ select (is_fresh now) m
unfolding prune_entries
prune_entries_kept now [] expired total = refl
prune_entries_kept now ((id, e) ∷ m) expired total = elim (Bool-cases (ltb now e.expires_at)) [
  | inl fresh ↦
      rw (fresh, prune_entries, select)
        (ap (λ rest. (id, e) ∷ rest) (prune_entries_kept now m expired total))
  | inr old ↦
      rw (old, prune_entries, select)
        (prune_entries_kept now m (set id now expired) (total - e.bytes))
]

pub prune_entries_total :
    (now : ℕ) (m : Map Text StoredEntry) (expired : Map Text ℕ) (total others : ℕ)
    → total ≡ others + bytes_of m
    → (prune_entries now m expired total).2
      ≡ others + bytes_of (prune_entries now m expired total).0
unfolding prune_entries
prune_entries_total now [] expired total others h = h
prune_entries_total now ((id, e) ∷ m) expired total others h =
    elim (Bool-cases (ltb now e.expires_at)) [
      | inl fresh ↦
          let rest = prune_entries_total now m expired total (others + e.bytes) (omega arith) in
          rw (fresh, prune_entries) (omega arith)
      | inr old ↦
          rw (old, prune_entries)
            (prune_entries_total now m (set id now expired) (total - e.bytes) others (omega arith))
    ]

pub prune_entries-IsNamed :
    (now : ℕ) (m : Map Text StoredEntry) (expired : Map Text ℕ) (total : ℕ)
    → All IsNamed m
    → All IsNamed expired
    → All IsNamed (prune_entries now m expired total).1
unfolding prune_entries
prune_entries-IsNamed now [] expired total h marks = marks
prune_entries-IsNamed now ((id, e) ∷ m) expired total h marks =
    elim (Bool-cases (ltb now e.expires_at)) [
      | inl fresh ↦ rw (fresh, prune_entries) (prune_entries-IsNamed now m expired total h.1 marks)
      | inr old ↦
          rw (old, prune_entries)
            (prune_entries-IsNamed now m (set id now expired) (total - e.bytes) h.1 (
              All-set IsNamed id now expired
                (λ j same. subst (λ k. is_empty_id k ≡ false) (sym same) h.0) marks))
    ]

pub drop_marks-length :
    (limit : ℕ) (m : Map Text ℕ) → All IsNamed m → length (drop_marks limit m) ≤ limit
unfolding drop_marks
drop_marks-length limit [] h = omega arith
drop_marks-length limit ((id, at) ∷ m) h = ground (arith, drop_marks-length limit m h.1)

pub drop_marks-IsNamed :
    (limit : ℕ) (m : Map Text ℕ) → All IsNamed m → All IsNamed (drop_marks limit m)
unfolding drop_marks
drop_marks-IsNamed limit [] h = tt
drop_marks-IsNamed limit ((id, at) ∷ m) h = ground (arith, drop_marks-IsNamed limit m h.1)

-- What `make_room` leaves for an entry of some bytes.
abbrev pub IsRoom : Limits → ℕ → Map Text StoredEntry → Map Text StoredEntry × ℕ → Type 0
IsRoom limits bytes m room =
    (room.1 ≡ bytes_of room.0)
    × (length room.0 + 1 ≤ limits.max_snapshots)
    × (room.1 + bytes ≤ limits.max_bytes)
    × (gone : Map Text StoredEntry) × (m ≡ gone ++ room.0)

free-bounds :
    (limits : Limits) (bytes count total : ℕ)
    → is_full limits bytes count total ≡ false
    → (count + 1 ≤ limits.max_snapshots) × (total + bytes ≤ limits.max_bytes)
unfolding is_full
free-bounds limits bytes count total h = ground arith

pub make_room-IsRoom :
    (limits : Limits) (bytes : ℕ) (m : Map Text StoredEntry) (total : ℕ)
    → 1 ≤ limits.max_snapshots
    → bytes ≤ limits.max_bytes
    → All IsNamed m
    → total ≡ bytes_of m
    → IsRoom limits bytes m (make_room limits bytes m total)
unfolding make_room
make_room-IsRoom limits bytes [] total some_room fits h sum =
    (sum, omega arith, omega arith, [], refl)
make_room-IsRoom limits bytes ((id, e) ∷ m) total some_room fits h sum =
    elim (Bool-cases (is_full limits bytes (suc (length m)) total)) [
      | inl full ↦
          let rest =
            make_room-IsRoom limits bytes m (total - e.bytes) some_room fits h.1 (omega arith) in
          rw (full, h.0, make_room, IsRoom)
            (rest.0, rest.1, rest.2, (id, e) ∷ rest.3, ap (λ l. (id, e) ∷ l) rest.4)
      | inr free ↦
          let bounds = free-bounds limits bytes (suc (length m)) total free in
          rw (free, make_room, IsRoom) (sum, bounds.0, bounds.1, [], refl)
    ]

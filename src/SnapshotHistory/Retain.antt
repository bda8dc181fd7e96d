-- ===== src/SnapshotHistory/Retain.antt =====
-- src/browser/snapshot-history.ts: the entries that `SnapshotHistory` keeps, and the marks of those
-- that have expired. The clock's reading is an argument.
use browser_profile_studio.Prelude.{
  ltb, leb, nat_beq, if◌then◌else◌, string_eq, nat_eq, bool_eq, pair_eq, option_beq, length, select,
  Text, text_eq, ℕ, suc, ◌+◌, ◌-◌, ◌*◌, min, Bool, true, false, ◌&&◌, ◌||◌, Option, none, some, [],
  ◌∷◌,
}
use browser_profile_studio.Prelude.Map.{Map, get, has, set, delete}
use browser_profile_studio.Prelude.Method.{returns, throws, ◌>>=◌}
use browser_profile_studio.SnapshotHistory.State.{
  Prepared, StoredEntry, Limits, History, hard_max_snapshots, Call,
}
use browser_profile_studio.SnapshotHistory.Node.{
  snapshot_not_found, snapshot_expired, snapshot_id_conflict, resource_exhausted, same_stored_nodes,
}

abbrev pub is_empty_id : Text → Bool
is_empty_id [] = true
is_empty_id (c ∷ s) = false

-- The first loop of `prune`. It returns the number of the entries that it has removed.
unfoldable pub prune_entries :
    ℕ → Map Text StoredEntry → Map Text ℕ → ℕ → Map Text StoredEntry × Map Text ℕ × ℕ × ℕ
prune_entries now [] expired total = ([], expired, total, 0)
prune_entries now ((id, entry) ∷ entries) expired total = elim (ltb now entry.expires_at) [
  | true ↦
      let rest = prune_entries now entries expired total in
      ((id, entry) ∷ rest.0, rest.1, rest.2, rest.3)
  | false ↦
      let rest = prune_entries now entries (set id now expired) (total - entry.bytes) in
      (rest.0, rest.1, rest.2, rest.3 + 1)
]

-- The second loop.
abbrev pub fresh_marks : ℕ → ℕ → Map Text ℕ → Map Text ℕ
fresh_marks ttl_ms now expired = select (λ mark. ltb now (mark.1 + ttl_ms)) expired

-- The third loop: the oldest mark goes while there are too many.
unfoldable pub drop_marks : ℕ → Map Text ℕ → Map Text ℕ
drop_marks limit [] = []
drop_marks limit ((id, at) ∷ expired) =
    let rest = drop_marks limit expired in
    if ltb limit (suc (length expired))
    then (if is_empty_id id then (id, at) ∷ expired else rest)
    else (id, at) ∷ expired

abbrev pub mark_limit : Limits → ℕ
mark_limit limits = min hard_max_snapshots (limits.max_snapshots * 2)

unfoldable pub prune : ℕ → Call ℕ
unfolding prune_entries drop_marks
prune now h =
    let pruned = prune_entries now h.entries h.expired_ids h.total_bytes in
    returns pruned.3 (record h {
      entries = pruned.0;
      expired_ids = drop_marks (mark_limit h.limits) (fresh_marks h.limits.ttl_ms now pruned.1);
      total_bytes = pruned.2;
    })

-- Whether an entry of `bytes` has no place beside `count` entries of `total` bytes.
unfoldable pub is_full : Limits → ℕ → ℕ → ℕ → Bool
is_full limits bytes count total =
    leb limits.max_snapshots count || ltb limits.max_bytes (total + bytes)

-- The entries that are left and their size, when the oldest ones have gone to make room for `bytes`.
unfoldable pub make_room : Limits → ℕ → Map Text StoredEntry → ℕ → Map Text StoredEntry × ℕ
make_room limits bytes [] total = ([], total)
make_room limits bytes ((id, entry) ∷ entries) total =
    elim (is_full limits bytes (suc (length entries)) total) [
      | true ↦ elim (is_empty_id id) [
        | true ↦ ((id, entry) ∷ entries, total)
        | false ↦ make_room limits bytes entries (total - entry.bytes)
      ]
      | false ↦ ((id, entry) ∷ entries, total)
    ]

abbrev pub entry_of : ℕ → Limits → Prepared → StoredEntry
entry_of now limits prepared = record {
  tab_id = prepared.tab_id;
  page_revision = prepared.page_revision;
  generation = prepared.generation;
  created_at = now;
  expires_at = now + limits.ttl_ms;
  bytes = prepared.entry_bytes;
  nodes = prepared.stored_nodes;
}

-- Whether the entry is of the same observation.
unfoldable pub is_same : StoredEntry → Prepared → Bool
unfolding same_stored_nodes
is_same entry prepared =
    option_beq entry.tab_id prepared.tab_id
    && nat_beq entry.page_revision prepared.page_revision
    && same_stored_nodes entry.nodes prepared.stored_nodes

unfoldable pub insert : ℕ → Prepared → History → History
unfolding make_room
insert now prepared h =
    let room = make_room h.limits prepared.entry_bytes h.entries h.total_bytes in
    record h {
      entries = set prepared.snapshot_id (entry_of now h.limits prepared) room.0;
      expired_ids = delete prepared.snapshot_id h.expired_ids;
      total_bytes = room.1 + prepared.entry_bytes;
    }

abbrev pub is_too_large : Limits → ℕ → Bool
is_too_large limits bytes = ltb limits.max_snapshot_bytes bytes || ltb limits.max_bytes bytes

-- `retainPrepared` after its call of `prune`.
unfoldable pub retain : ℕ → Prepared → Call Prepared
unfolding is_same insert
retain now prepared h = elim (get prepared.snapshot_id h.entries) [
  | some existing ↦
      if is_same existing prepared then returns prepared h else throws snapshot_id_conflict h
  | none ↦
      if is_too_large h.limits prepared.entry_bytes
      then throws resource_exhausted h
      else returns prepared (insert now prepared h)
]

unfoldable pub retain_prepared : ℕ → Prepared → Call Prepared
unfolding prune retain
retain_prepared now prepared = do removed ← prune now; retain now prepared

abbrev pub missing : Text → Call StoredEntry
missing id h =
    if has id h.expired_ids then throws snapshot_expired h else throws snapshot_not_found h

abbrev pub or_missing : Text → Option StoredEntry → Call StoredEntry
or_missing id (some entry) h = returns entry h
or_missing id none h = missing id h

-- `requireEntry`, and `require`, which returns a copy.
unfoldable pub require_entry : ℕ → Text → Call StoredEntry
unfolding prune
require_entry now id = do removed ← prune now; λ h. or_missing id (get id h.entries) h

-- `get`.
unfoldable pub get_entry : ℕ → Text → Call (Option StoredEntry)
unfolding prune
get_entry now id = do removed ← prune now; λ h. returns (get id h.entries) h

-- `has`, `size` and `bytes`.
unfoldable pub has_entry : ℕ → Text → Call Bool
unfolding prune
has_entry now id = do removed ← prune now; λ h. returns (has id h.entries) h

unfoldable pub size : ℕ → Call ℕ
unfolding prune
size now = do removed ← prune now; λ h. returns (length h.entries) h

unfoldable pub bytes_kept : ℕ → Call ℕ
unfolding prune
bytes_kept now = do removed ← prune now; λ h. returns h.total_bytes h

abbrev pub clear : Call (Unit {0})
clear h = returns tt (record h { entries = []; expired_ids = []; total_bytes = 0 })

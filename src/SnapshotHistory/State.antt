-- ===== src/SnapshotHistory/State.antt =====
-- src/browser/snapshot-history.ts: the fields of `SnapshotHistory` and its options.
use browser_profile_studio.Prelude.{
  string_eq, nat_eq, bool_eq, pair_eq, Text, text_eq, ℕ, min, max, Option, none, some, List, [],
}
use browser_profile_studio.Prelude.Map.{Map}
use browser_profile_studio.Prelude.Method.{Method}
use browser_profile_studio.SnapshotHistory.Node.{SnapshotError, SemanticNode, StoredNode}

-- What `prepareSnapshot` gives: of the snapshot, the parts that the history reads.
pub record Prepared : Type 0 where
  pub snapshot_id : Text
  pub tab_id : Option Text
  pub page_revision : ℕ
  pub generation : ℕ
  pub targets : List SemanticNode
  pub stored_nodes : List StoredNode
  pub entry_bytes : ℕ

pub record StoredEntry : Type 0 where
  pub tab_id : Option Text
  pub page_revision : ℕ
  pub generation : ℕ
  pub created_at : ℕ
  pub expires_at : ℕ
  pub bytes : ℕ
  pub nodes : List StoredNode

pub record Limits : Type 0 where
  pub max_snapshots : ℕ
  pub ttl_ms : ℕ
  pub max_bytes : ℕ
  pub max_snapshot_bytes : ℕ
  pub max_nodes : ℕ

pub record SnapshotHistoryOptions : Type 0 where
  pub max_snapshots : Option ℕ
  pub ttl_ms : Option ℕ
  pub max_bytes : Option ℕ
  pub max_snapshot_bytes : Option ℕ
  pub max_nodes : Option ℕ

pub record History : Type 0 where
  pub limits : Limits
  pub entries : Map Text StoredEntry
  pub expired_ids : Map Text ℕ
  pub total_bytes : ℕ
  pub sequence : ℕ

-- `none` is an absent value, or one that is not finite.
unfoldable pub bounded_integer : Option ℕ → ℕ → ℕ → ℕ → ℕ
bounded_integer none minimum maximum fallback = fallback
bounded_integer (some value) minimum maximum fallback = max minimum (min maximum value)

abbrev pub hard_max_snapshots : ℕ
hard_max_snapshots = 512

unfoldable pub limits_of : SnapshotHistoryOptions → Limits
unfolding bounded_integer
limits_of options =
    let max_bytes = bounded_integer options.max_bytes 1 16_777_216 2_097_152 in
    record {
      max_snapshots = bounded_integer options.max_snapshots 1 hard_max_snapshots 32;
      ttl_ms = bounded_integer options.ttl_ms 1 86_400_000 600_000;
      max_bytes = max_bytes;
      max_snapshot_bytes =
          bounded_integer options.max_snapshot_bytes 1 (min 4_194_304 max_bytes)
            (min 262_144 max_bytes);
      max_nodes = bounded_integer options.max_nodes 1 2_000 500;
    }

unfoldable pub create : SnapshotHistoryOptions → History
unfolding limits_of
create options = record {
  limits = limits_of options;
  entries = [];
  expired_ids = [];
  total_bytes = 0;
  sequence = 0;
}

abbrev pub Call : Type 0 → Type 0
Call A = Method SnapshotError History A

-- ===== src/SnapshotHistory.antt =====
-- src/browser/snapshot-history.ts: the observations of a page that a session keeps, and their
-- differences.
pub mod Node
pub mod State
pub mod Retain
pub mod Size
pub mod Prepare
pub mod Matching
pub mod Diff
pub mod Bounds
pub mod Steps
pub mod Ensures
pub mod Calls
pub mod Runs
pub mod Partition
pub mod Digest
pub mod OneNode
pub mod Unchanged
pub mod Capacity
pub mod Saved
pub mod OneEntry
mod Tests

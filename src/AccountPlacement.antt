-- ===== src/AccountPlacement.antt =====
-- src/distributed/account-placement.ts: which worker runs an account, by compare-and-set on a
-- shared store of placements.
--
-- `AccountPlacementRegistry` works with any store, as a `Store` of its own state that may throw;
-- `InMemorySharedStateStore` is one. A method's part between two awaits is one step. The clock's
-- reading is an argument (`none` for an invalid one), times are whole milliseconds, and the texts
-- that JSON.stringify, structuredClone and localeCompare get are not looked into: the key is a pair
-- and `precedes` is the order of localeCompare.
pub mod Scope
pub mod Worker
pub mod Store
pub mod Acquire
mod Tests
pub mod Generations
pub mod Eligible
pub mod Commit
pub mod Interleaving
pub mod Selection

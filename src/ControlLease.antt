-- ===== src/ControlLease.antt =====
-- src/browser/control-lease.ts: who may write to a browser session, the agent or a user.
pub mod State
pub mod Lease
pub mod Calls
pub mod Guards
pub mod Run
pub mod Coherence
pub mod Invariant
mod Tests
pub mod Transitions
pub mod Authority
pub mod Expiry
pub mod Grants
pub mod Handoff

-- ===== src/UrlPolicy.antt =====
-- src/policy/url-policy.ts: which URLs and addresses the browser and the fetcher may go to.
pub mod Address
pub mod Groups
pub mod Classify
pub mod Policy
pub mod Resolve
pub mod Approved
pub mod Destinations
pub mod Runs
pub mod Decimal
pub mod Blocks
pub mod Mapped
mod Tests

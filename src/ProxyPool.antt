-- ===== src/ProxyPool.antt =====
-- src/proxy: the proxies that an installation keeps, their health and their rotation.
pub mod Normalize
pub mod Normal
pub mod Store
pub mod Edit
pub mod Rotation
pub mod Health
pub mod Run
pub mod Recovery
pub mod Races
mod Tests

-- ===== src/Store.antt =====
-- internal/store/store.go, in parts.
pub mod Data
pub mod Services
pub mod Discovered
pub mod Bookmarks
pub mod Ignored
pub mod Settings
pub mod Save
pub mod State
pub mod Icons
pub mod Load
mod Tests

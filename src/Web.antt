-- ===== src/Web.antt =====
-- internal/web: the parts of the HTTP server that change state.
pub mod Dns
pub mod TtlCache
pub mod Server
pub mod Services
pub mod Edits
pub mod Bookmarks
pub mod Health
pub mod Groups
pub mod Settings
pub mod Gzip
pub mod Favicons
mod Tests

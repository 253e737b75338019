-- ===== src/Profile.antt =====
-- Profiles of internal/github/auth_handler.go: how a profile's name goes into secret keys.
mod Names
mod Dots
pub mod Keys
pub mod Apart
unfoldable pub use Names.*

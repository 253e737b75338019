-- ===== src/Plugin.antt =====
-- `Plugin` of internal/github/auth_handler.go: what it holds, how it is configured, how server mode
-- is activated, and how the host's calls reach the active mode.
pub mod Reconfigure
pub mod Atomic
pub mod Invariant
pub mod Serve
mod State
mod Configure
mod Activate
mod Dispatch
unfoldable pub use State.*
unfoldable pub use Configure.*
unfoldable pub use Activate.*
unfoldable pub use Dispatch.*

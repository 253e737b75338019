-- ===== src/ServerMode.antt =====
-- internal/github/server_mode.go and the server half of config.go: how a server's settings are
-- checked, the token flows that they stand for, and what server mode answers.
mod Settings
mod Flows
mod Strategies
pub mod Activation
unfoldable pub use Settings.*
unfoldable pub use Flows.*
unfoldable pub use Strategies.*

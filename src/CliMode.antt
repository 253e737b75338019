-- ===== src/CliMode.antt =====
-- internal/github/cli_mode.go and logoutInternal of auth_handler.go: the seven operations of the
-- mode interface for the command line.
pub mod Login
pub mod Logout
pub mod GetStatus
pub mod GetToken
pub mod Listing
pub mod Availability
unfoldable pub use Login.*
unfoldable pub use Logout.*
unfoldable pub use GetStatus.*
unfoldable pub use GetToken.*
unfoldable pub use Listing.*
unfoldable pub use Availability.*

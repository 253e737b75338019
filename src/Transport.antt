-- ===== src/Transport.antt =====
-- The plugin's HTTP clients: the one of internal/github/http.go and the mock of mock.go.
pub mod Interface
pub mod HeaderKeys
pub mod DefaultClient
pub mod MockClient

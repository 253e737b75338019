-- ===== src/Token.antt =====
-- internal/github/token.go: what a login stores, and how a new access token is minted.
pub mod Store
pub mod Load
pub mod Mint

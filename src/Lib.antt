-- ===== src/Lib.antt =====
-- The GitHub authentication plugin of scafctl: a host program hands it login, token and logout
-- calls for named profiles, and it keeps what it obtains in the host's secret store.
-- Every function of the Go source is an action on the outside world: it returns a value, an
-- error or a panic, and the world's state as it leaves it (Effect). What the source calls and
-- does not implement is the record World: the host's secret service, the HTTP transport, the
-- clock, the environment, JSON, hashing, RSA and JWT, the browser, the callback server, the
-- select of the polling loop, and the caching manager of go-flight. Theorems about what a call
-- achieves assume a reliable host (Reliable: the secret service returns what it was given, and
-- neither a reading of the clock nor one of a secret changes the state, so that the clock stands
-- still over it); the theorem on listings lets time pass over each call (Passing); the theorem
-- that profiles stay apart assumes of every call only that it does not change other secrets than
-- the one that it sets or deletes (Frame). Log lines are left out. A time is a signed number of
-- nanoseconds and 0 is Go's zero time; int64 arithmetic wraps around where the source multiplies
-- or adds durations, and saturates where time.Until subtracts times (Prelude/Int).
--
-- Files, with the code that they model (paths from the repository's root):
--   Types, Settings: the structs of internal/github (token.go, cache.go, claims.go, app_flow.go,
--     device_flow.go, config.go).
--   Profile: validateProfile, profileSecretKey and profileTokenPrefix of
--     internal/github/auth_handler.go; Profile/Keys says which keys belong to a profile.
--   Config: Config of internal/github/config.go.
--   Handler: the fields of Plugin and the helpers getSecret, secretExists, hostClient and
--     binaryName of internal/github/token.go.
--   Cache: internal/github/cache.go.  UserClaims: internal/github/claims.go.
--   Token: storeCredentials (Store), the loaders (Load), mintToken and refreshAccessToken (Mint)
--     of internal/github/token.go.
--   Pat: internal/github/pat.go.  DeviceFlow: internal/github/device_flow.go.
--   AuthCodeFlow: internal/github/authcode_flow.go.  AppFlow: internal/github/app_flow.go.
--   CliMode: internal/github/cli_mode.go, one child to an operation, with logoutInternal of
--     auth_handler.go.
--   ServerMode: internal/github/server_mode.go, cachedflow.go and the server half of config.go.
--   SingleStore: internal/github/singlestore.go.
--   Plugin: Plugin of internal/github/auth_handler.go with ConfigureAuthHandler,
--     ActivateServerMode and the dispatch to the active mode.
--   Transport: internal/github/http.go (the interface, the default client's settings and the
--     requests that it builds) and mock.go. Transport/HeaderKeys: the spelling of header keys of
--     Go's net/http.
--   Clock: internal/clock/clock.go, and the mock clock of internal/clock/mock.go over a bounded
--     channel.
--   Isolation, here and in the components: what every operation leaves alone.
--   Prelude, Effect, Frame, Reliable: shared notation, lemmas and assumptions. Tests: an in-
--     memory host and the theorems at concrete inputs.
--
-- How the parts interact: the plugin checks the handler's name and delegates to its mode. The
-- command line's mode looks for a personal access token in the environment, then for a cached
-- token, then for a stored one, and then mints one with the refresh token; a login runs one of
-- the four flows, which all end in stored credentials. Server mode looks its context up in the
-- strategies that were built when it was activated.
--
-- Fuel: the polling loop of the device flow runs on a bound, which is one more than the number
-- of ticks before the context ends (ticks_left of World). The bound is enough where every tick
-- uses up one of those that are left and a request adds none (Ticking of DeviceFlow/Polling).
-- The loop with which the mock ticker's reset fills its channel runs on a bound, which is one
-- more than the channel's capacity, and so one more than its rounds.
--
-- Not modelled: cmd/scafctl-plugin-auth-github/main.go, which serves the plugin; the time
-- package's tickers and the httpc package's client, which the clock and the HTTP client take as
-- parameters; logging; locks. The polling loop takes the next event of its select from World and
-- not from a ticker of Clock. A nil callback for device codes is a callback that does nothing.
pub mod Prelude
pub mod Effect
pub mod Types
pub mod Settings
pub mod World
pub mod Profile
pub mod Frame
pub mod Reliable
pub mod Config
pub mod Handler
pub mod Cache
pub mod UserClaims
pub mod Token
pub mod Pat
pub mod DeviceFlow
pub mod AppFlow
pub mod AuthCodeFlow
pub mod CliMode
pub mod ServerMode
pub mod SingleStore
pub mod Transport
pub mod Clock
pub mod Isolation
mod Tests
pub mod Plugin

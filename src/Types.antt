-- ===== src/Types.antt =====
-- The data that the parts of the plugin exchange: the Go structs of internal/github and the
-- plugin SDK's structs with the fields that the source reads or writes. Times are nanoseconds
-- since Go's zero time, durations are nanoseconds, both signed.
use scafctl_plugin_auth_gith.Prelude.{String, ℕ, ℤ, pos, Bool, List, Option, eqb_ℤ}

-- `auth.Flow`, a named string: its named constants, the empty string, and any other value.
pub data Flow : Type 0 where
  no_flow pat device_code github_app interactive : Flow
  other_flow : String → Flow

-- `auth.ServerContext`.
pub data ServerContext : Type 0 where
  server delegated : ServerContext
  other_context : String → ServerContext

-- `auth.IdentityType`.
pub data IdentityType : Type 0 where
  no_identity user service_principal : IdentityType

-- `time.Time{}` and its test.
abbrev pub zero_time : ℤ
zero_time = pos 0

abbrev pub is_zero : ℤ → Bool
is_zero t = eqb_ℤ t zero_time

pub record Claims : Type 0 where
  pub issuer : String
  pub subject : String
  pub object_id : String
  pub email : String
  pub name : String
  pub username : String
  pub issued_at : ℤ

-- `auth.Token`.
pub record Token : Type 0 where
  pub access_token : String
  pub token_type : String
  pub expires_at : ℤ
  pub scope : String
  pub cached_at : ℤ
  pub flow : Flow
  pub session_id : String

-- `tokenCacheEntry` of cache.go.
pub record TokenCacheEntry : Type 0 where
  pub access_token : String
  pub token_type : String
  pub expires_at : ℤ
  pub scope : String
  pub cached_at : ℤ
  pub flow : Flow
  pub session_id : String

-- `auth.CachedTokenInfo`.
pub record CachedTokenInfo : Type 0 where
  pub handler : String
  pub token_kind : String
  pub token_type : String
  pub scope : String
  pub flow : Flow
  pub expires_at : ℤ
  pub cached_at : ℤ
  pub is_expired : Bool
  pub session_id : String

-- `TokenMetadata` of token.go. The claims are a pointer.
pub record TokenMetadata : Type 0 where
  pub claims : Option Claims
  pub refresh_token_expires_at : ℤ
  pub last_refresh : ℤ
  pub hostname : String
  pub client_id : String
  pub scopes : List String
  pub identity_type : IdentityType
  pub session_id : String
  pub flow : Flow

-- `TokenResponse` of token.go.
pub record TokenResponse : Type 0 where
  pub access_token : String
  pub refresh_token : String
  pub token_type : String
  pub scope : String
  pub expires_in : ℤ
  pub refresh_token_expires_in : ℤ

-- `TokenErrorResponse` of token.go.
pub record TokenErrorResponse : Type 0 where
  pub error : String
  pub error_description : String
  pub error_uri : String

-- The struct of pollForToken and exchangeAuthCode that embeds both responses.
pub record TokenBody : Type 0 where
  pub token : TokenResponse
  pub failure : TokenErrorResponse

-- `User` of claims.go.
pub record User : Type 0 where
  pub login : String
  pub id : ℤ
  pub name : String
  pub email : String
  pub avatar_url : String

-- `DeviceCodeResponse` of device_flow.go.
pub record DeviceCodeResponse : Type 0 where
  pub device_code : String
  pub user_code : String
  pub verification_uri : String
  pub expires_in : ℤ
  pub interval : ℤ

-- `AppInfo` of app_flow.go.
pub record AppInfo : Type 0 where
  pub id : ℤ
  pub slug : String
  pub name : String
  pub description : String
  pub owner_login : String
  pub owner_id : ℤ

-- `InstallationTokenResponse` of app_flow.go, less the permissions, which nothing reads.
pub record InstallationTokenResponse : Type 0 where
  pub token : String
  pub expires_at : ℤ

-- `http.Response`: the status code and the body's text.
pub record Response : Type 0 where
  pub status_code : ℕ
  pub body : String

-- `sdkplugin.LoginRequest` and `LoginResponse`.
pub record LoginRequest : Type 0 where
  pub flow : Flow
  pub scopes : List String
  pub timeout : ℤ

pub record LoginResponse : Type 0 where
  pub claims : Claims
  pub expires_at : ℤ

-- `sdkplugin.TokenRequest` and its `TokenResponse`.
pub record TokenRequest : Type 0 where
  pub scope : String
  pub min_valid_for : ℤ
  pub force_refresh : Bool
  pub server_context : ServerContext

pub record TokenReply : Type 0 where
  pub access_token : String
  pub token_type : String
  pub expires_at : ℤ
  pub scope : String
  pub flow : Flow
  pub session_id : String

-- `auth.Status`.
pub record Status : Type 0 where
  pub authenticated : Bool
  pub reason : String
  pub claims : Option Claims
  pub expires_at : ℤ
  pub last_refresh : ℤ
  pub identity_type : IdentityType
  pub client_id : String
  pub scopes : List String

-- `sdkplugin.FlowAvailability`.
pub record FlowAvailability : Type 0 where
  pub flow : Flow
  pub available : Bool
  pub reason : String

-- `sdkplugin.DeviceCodePrompt`.
pub record DeviceCodePrompt : Type 0 where
  pub user_code : String
  pub verification_uri : String
  pub message : String

-- `manager.FetchResult` under the policy `CacheWithTTL`.
pub record FetchResult : Type 0 where
  pub value : TokenReply
  pub ttl : ℤ

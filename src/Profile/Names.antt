-- ===== src/Profile/Names.antt =====
-- Profiles of internal/github/auth_handler.go: the secret-key names and how a profile's name goes
-- into them.
use scafctl_plugin_auth_gith.Prelude.{String, ◌<>◌, ◌==◌, if◌then◌else◌, not, ◌&&◌}
use scafctl_plugin_auth_gith.Prelude.Text.{contains_any, trim_prefix}
use scafctl_plugin_auth_gith.Effect.{Result, ok, err, and_then}

abbrev pub secret_key_refresh_token : String
secret_key_refresh_token = "scafctl.auth.github.refresh_token"

abbrev pub secret_key_access_token : String
secret_key_access_token = "scafctl.auth.github.access_token"

abbrev pub secret_key_metadata : String
secret_key_metadata = "scafctl.auth.github.metadata"

abbrev pub secret_key_token_prefix : String
secret_key_token_prefix = "scafctl.auth.github.token."

abbrev pub default_cache_key : String
default_cache_key = "_github"

abbrev pub secret_key_base : String
secret_key_base = "scafctl.auth.github."

abbrev pub err_invalid_profile : String
err_invalid_profile = "profile name must not contain '.', '/', '\\', or ':'"

unfoldable pub validate_profile : String → Result (Unit {0})
validate_profile profile =
    if not (profile == "") && contains_any profile "./\\:" then err err_invalid_profile else ok tt

-- The default, empty profile keeps the key.
unfoldable pub profile_secret_key : String → String → Result String
unfolding validate_profile trim_prefix
profile_secret_key key profile = and_then (validate_profile profile) λ _.
    if profile == ""
    then ok key
    else ok (secret_key_base <> (profile <> ("." <> trim_prefix key secret_key_base)))

unfoldable pub profile_token_prefix : String → Result String
unfolding validate_profile
profile_token_prefix profile = and_then (validate_profile profile) λ _.
    if profile == ""
    then ok secret_key_token_prefix
    else ok (secret_key_base <> (profile <> ".token."))

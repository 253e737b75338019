-- ===== src/SingleStore.antt =====
-- internal/github/singlestore.go: the one-entry store of the installation token. The clock's
-- reading is an argument, and the lock is left out: each method runs under it from start to end.
pub mod Expiry
pub mod Fetched
use scafctl_plugin_auth_gith.Prelude.{
  String, ◌==◌, ℤ, pos, ◌+ℤ◌, ◌-ℤ◌, ltb_ℤ, eqb_ℤ, not, ◌&&◌, Option, none, if◌then◌else◌,
}
use scafctl_plugin_auth_gith.Types.{TokenReply, zero_time, is_zero}

pub record SingleStore : Type 0 where
  pub expiry_buffer : ℤ
  pub key : String
  pub value : Option TokenReply
  pub expires_at : ℤ

-- A store as it is made, with the given buffer.
abbrev pub new_store : ℤ → SingleStore
new_store buffer = record { expiry_buffer = buffer; key = ""; value = none; expires_at = zero_time }

unfoldable pub get : SingleStore → ℤ → String → Option TokenReply
get s now key =
    if not (s.key == key)
    then none
    else if not (is_zero s.expires_at) && ltb_ℤ (s.expires_at -ℤ s.expiry_buffer) now
    then none
    else s.value

-- A lifetime of zero means that the value does not expire.
unfoldable pub set : SingleStore → ℤ → String → Option TokenReply → ℤ → SingleStore
set s now key value ttl = record s {
  key = key;
  value = value;
  expires_at = if eqb_ℤ ttl (pos 0) then zero_time else now +ℤ ttl;
}

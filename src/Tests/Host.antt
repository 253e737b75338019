-- ===== src/Tests/Host.antt =====
-- The in-memory host, as the theorems on reliable hosts take it.
use scafctl_plugin_auth_gith.Prelude.{
  String, ◌<>◌, ◌==◌, eq_iff, eqb, ℕ, true, Bool-cases, inl, inr, Option, none, some, List, [], ◌∷◌,
  ◌≡◌, refl, sym, ◌∙◌, ap, arith,
}
use Prim.Native.Char.{code}
use Prim.Native.String.{String as Text}
use text.Mathlib.TextLemmas.{cons-append, nil-append}
use scafctl_plugin_auth_gith.Prelude.Text.{strip}
use scafctl_plugin_auth_gith.Effect.{ok, panic}
use scafctl_plugin_auth_gith.Types.{TokenCacheEntry}
use scafctl_plugin_auth_gith.Reliable.{Reliable, Among}
use scafctl_plugin_auth_gith.Tests.Store.{
  Secrets, lookup, lookup-insert, lookup-erase, under, without_last_star, keep_key,
}
use scafctl_plugin_auth_gith.Tests.TestWorld.{test_world, secrets_of}

same_code : (n : ℕ) → eqb n n ≡ true
same_code n = ground arith

strip-append : (p rest : String) → strip p (p <> rest) ≡ some rest
strip-append Text.[] rest = ap (strip "") (nil-append rest)
strip-append (Text.◌∷◌ c p) rest =
    ap (strip (Text.◌∷◌ c p)) (cons-append c p rest) ∙ rw (same_code (code c)) (strip-append p rest)

kept :
    (key k : String) (o : Option String) (keys : List String)
    → Among key keys
    → Among key (keep_key k o keys)
kept key k none keys h = h
kept key k (some rest) keys h = inr h

first :
    (key k : String) (o : Option String) (rest : String) (keys : List String)
    → key ≡ k
    → o ≡ some rest
    → Among key (keep_key k o keys)
first key k none rest keys e h = cc
first key k (some x) rest keys e h = inl e

pub under-Among :
    (prefix rest v : String) (m : Secrets)
    → lookup m (prefix <> rest) ≡ some v
    → Among (prefix <> rest) (under prefix m)
under-Among prefix rest v [] h = cc
under-Among prefix rest v ((k, w) ∷ m) h = elim (Bool-cases (k == (prefix <> rest))) [
  | inl same ↦
      first (prefix <> rest) k (strip prefix k) rest (under prefix m)
        (sym ((eq_iff k (prefix <> rest)).0 same))
        (ap (strip prefix) ((eq_iff k (prefix <> rest)).0 same) ∙ strip-append prefix rest)
  | inr other ↦
      kept (prefix <> rest) k (strip prefix k) (under prefix m)
        (under-Among prefix rest v m (rw other at h))
]

unfoldable pub reliable : Reliable test_world secrets_of (λ s. s.time)
reliable = record {
  get_secret = λ c k s. refl;
  set_secret = λ c k v s. refl;
  after_set = λ c k v j s. lookup-insert k j v s.secrets;
  delete_secret = λ c k s. refl;
  after_delete = λ c k j s. lookup-erase k j s.secrets;
  listed = λ s prefix. under prefix s.secrets;
  list_secrets = λ c prefix s. ap (λ q. (ok (under q s.secrets), s)) (without_last_star prefix);
  all_listed = λ prefix rest v s h. under-Among prefix rest v s.secrets h;
  now = λ s. refl;
}

pub encodes : (entry : TokenCacheEntry) (e : String) → ¬ (test_world.encode_entry entry ≡ panic e)
encodes entry e h = cc

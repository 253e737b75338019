-- ===== src/Reliable.antt =====
-- What the theorems about single operations rely on where the host works: its secret service keeps
-- what it is given and returns it, and reading a secret, the listed keys or the clock leaves the
-- state as it is, so that the clock stands still over such a call.
use scafctl_plugin_auth_gith.Prelude.{
  String, ◌<>◌, ◌==◌, ℤ, ltb_ℤ, false, Option, none, some, List, [], ◌∷◌, ◌≡◌, ◌⊎◌, if◌then◌else◌,
}
use scafctl_plugin_auth_gith.Effect.{ok}
use scafctl_plugin_auth_gith.World.{World}

abbrev pub Among : String → List String → Type 0
Among k [] = ⊥
Among k (j ∷ keys) = (k ≡ j) ⊎ Among k keys

-- `secrets` is what the service holds, and `time` what the clock shows.
pub record Reliable (W : World) (secrets : W.State → String → Option String) (time : W.State → ℤ)
    : Type 0 where
  pub get_secret :
      (c : W.HostClient) (k : String) (s : W.State) → W.get_secret c k s ≡ (ok (secrets s k), s)
  pub set_secret :
      (c : W.HostClient) (k v : String) (s : W.State) → (W.set_secret c k v s).0 ≡ ok tt
  pub after_set :
      (c : W.HostClient) (k v j : String) (s : W.State)
      → secrets (W.set_secret c k v s).1 j ≡ (if k == j then some v else secrets s j)
  pub delete_secret :
      (c : W.HostClient) (k : String) (s : W.State) → (W.delete_secret c k s).0 ≡ ok tt
  pub after_delete :
      (c : W.HostClient) (k j : String) (s : W.State)
      → secrets (W.delete_secret c k s).1 j ≡ (if k == j then none else secrets s j)
  -- The keys with a prefix that hold a secret are listed.
  pub listed : W.State → String → List String
  pub list_secrets :
      (c : W.HostClient) (prefix : String) (s : W.State)
      → W.list_secrets c (prefix <> "*") s ≡ (ok (listed s prefix), s)
  pub all_listed :
      (prefix rest v : String) (s : W.State)
      → secrets s (prefix <> rest) ≡ some v
      → Among (prefix <> rest) (listed s prefix)
  pub now : (s : W.State) → W.now s ≡ (ok (time s), s)

-- A host that can be read while time passes: no call of these three changes a secret, and the clock
-- does not run backwards over one.
pub record Passing (W : World) (secrets : W.State → String → Option String) (time : W.State → ℤ)
    : Type 0 where
  pub get_secret :
      (c : W.HostClient) (k : String) (s : W.State) → (W.get_secret c k s).0 ≡ ok (secrets s k)
  pub get_keeps :
      (c : W.HostClient) (k j : String) (s : W.State)
      → secrets (W.get_secret c k s).1 j ≡ secrets s j
  pub get_forward :
      (c : W.HostClient) (k : String) (s : W.State)
      → ltb_ℤ (time (W.get_secret c k s).1) (time s) ≡ false
  pub listed : W.State → String → List String
  pub list_secrets :
      (c : W.HostClient) (prefix : String) (s : W.State)
      → (W.list_secrets c (prefix <> "*") s).0 ≡ ok (listed s prefix)
  pub list_keeps :
      (c : W.HostClient) (pattern j : String) (s : W.State)
      → secrets (W.list_secrets c pattern s).1 j ≡ secrets s j
  pub list_forward :
      (c : W.HostClient) (pattern : String) (s : W.State)
      → ltb_ℤ (time (W.list_secrets c pattern s).1) (time s) ≡ false
  pub now : (s : W.State) → (W.now s).0 ≡ ok (time s)
  pub now_keeps : (j : String) (s : W.State) → secrets (W.now s).1 j ≡ secrets s j
  pub now_forward : (s : W.State) → ltb_ℤ (time (W.now s).1) (time s) ≡ false

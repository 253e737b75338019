-- ===== src/SingleStore/Expiry.antt =====
-- How long the one-entry store returns its value.
use scafctl_plugin_auth_gith.Prelude.{
  Bool, Bool-cases, inl, inr, String, ◌==◌, ℤ, pos, ◌+ℤ◌, ◌-ℤ◌, ltb_ℤ, eqb_ℤ, int_laws, not, ◌&&◌,
  true, false, Option, none, ◌≡◌, refl, if◌then◌else◌,
}
use scafctl_plugin_auth_gith.Types.{TokenReply, is_zero}
use scafctl_plugin_auth_gith.SingleStore.{SingleStore, get, set}

buffer_moves : (a b now : ℤ) → ltb_ℤ (a -ℤ b) now ≡ ltb_ℤ a (now +ℤ b)
buffer_moves a b now = grind (int_laws)

module _ (s : SingleStore) (stored now : ℤ) (key other : String) (value : Option TokenReply) where
  -- A value that is set with a lifetime, whose end is not the zero time, is returned under its key
  -- exactly as long as the store's buffer fits in before that end, and under no other key.
  pub get-set_lifetime :
      (ttl : ℤ)
      → eqb_ℤ ttl (pos 0) ≡ false
      → is_zero (stored +ℤ ttl) ≡ false
      → get (set s stored key value ttl) now other ≡ (
          if key == other && not (ltb_ℤ (stored +ℤ ttl) (now +ℤ s.expiry_buffer))
          then value
          else none)
  unfolding get set
  get-set_lifetime ttl given nonzero = elim (Bool-cases (key == other)) [
    | inl same ↦
        rw (same, given, nonzero, buffer_moves (stored +ℤ ttl) s.expiry_buffer now)
          (late (ltb_ℤ (stored +ℤ ttl) (now +ℤ s.expiry_buffer)))
    | inr differs ↦ rw differs refl
  ]
    where
      late : (b : Bool) → (if b then none else value) ≡ (if not b then value else none)
      late true = refl
      late false = refl

  -- A value that is set with a lifetime of zero is returned at every time under its key, and under
  -- no other key.
  get-set_forever :
      get (set s stored key value (pos 0)) now other ≡ (if key == other then value else none)
  unfolding get set
  get-set_forever = elim (Bool-cases (key == other)) [
    | inl same ↦ rw same refl
    | inr differs ↦ rw differs refl
  ]

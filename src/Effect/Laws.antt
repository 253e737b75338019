-- ===== src/Effect/Laws.antt =====
-- What the ways to build an action say of its result and of the state that it leaves.
use scafctl_plugin_auth_gith.Prelude.{String, ◌≡◌, refl}
use scafctl_plugin_auth_gith.Effect.{
  Result, ok, err, panic, Exec, pure, try, caught, ◌>>=◌, continue,
}

caught-eq-ok {ℓ} : {A : Type ℓ} (q r : Result A) (a : A) → caught q ≡ ok r → r ≡ ok a → q ≡ ok a
unfolding caught
caught-eq-ok (ok b) r a h e = cc
caught-eq-ok (err b) r a h e = cc
caught-eq-ok (panic b) r a h e = cc

module _ {ℓ} {S A : Type ℓ} where
  pub try-eq-ok :
      (m : Exec S A) (s : S) (r : Result A) (a : A) → (try m s).0 ≡ ok r → r ≡ ok a → (m s).0 ≡ ok a
  unfolding try
  try-eq-ok m s r a h e = caught-eq-ok (m s).0 r a h e

  pub try_of_ok : (m : Exec S A) (s : S) (a : A) → (m s).0 ≡ ok a → (try m s).0 ≡ ok (ok a)
  unfolding try caught
  try_of_ok m s a e = rw e refl

module _ {ℓ} {S A B : Type ℓ} where
  -- What follows an action that returns runs in the state that it leaves.
  pub bind_of_ok :
      (m : Exec S A) (f : A → Exec S B) (s : S) (a : A) → (m s).0 ≡ ok a → (m >>= f) s ≡ f a (m s).1
  unfolding ◌>>=◌
  bind_of_ok m f s a e = rw e refl

  pub bind_runs :
      (m : Exec S A) (f : A → Exec S B) (s t : S) (a : A) → m s ≡ (ok a, t) → (m >>= f) s ≡ f a t
  unfolding ◌>>=◌
  bind_runs m f s t a e = rw e refl

  continue-pure_state : (r : Result A) (f : A → B) (t : S) → (continue r (λ a. pure (f a)) t).1 ≡ t
  unfolding pure
  continue-pure_state (ok a) f t = refl
  continue-pure_state (err e) f t = refl
  continue-pure_state (panic e) f t = refl

  pub bind_pure_state : (m : Exec S A) (f : A → B) (s : S) → ((m >>= λ a. pure (f a)) s).1 ≡ (m s).1
  unfolding ◌>>=◌
  bind_pure_state m f s = continue-pure_state (m s).0 f (m s).1

  -- An error, or a panic, is what the whole returns.
  pub bind_of_err :
      (m : Exec S A) (f : A → Exec S B) (s : S) (e : String)
      → (m s).0 ≡ err e
      → (m >>= f) s ≡ (err e, (m s).1)
  unfolding ◌>>=◌
  bind_of_err m f s e h = rw h refl

-- An action that returns, whose result is looked at by what follows.
module _ {ℓ} {S A B : Type ℓ} where
  pub bind_of_tried :
      (m : Exec S A) (f : Result A → Exec S B) (s : S) (a : A)
      → (m s).0 ≡ ok a
      → (try m >>= f) s ≡ f (ok a) (m s).1
  unfolding ◌>>=◌ try caught
  bind_of_tried m f s a e = rw e refl

  -- What follows whatever an action returns, if it does not panic.
  pub tried_returns :
      (m : Exec S A) (s : S) (b : B)
      → ((e : String) → ¬ ((m s).0 ≡ panic e))
      → ((try m >>= λ _. pure b) s).0 ≡ ok b
  unfolding ◌>>=◌ try pure caught
  tried_returns m s b safe = returned (m s).0 (m s).1 safe
    where
      returned :
          (r : Result A) (t : S)
          → ((e : String) → ¬ (r ≡ panic e))
          → (continue (caught r) (λ _. pure b) t).0 ≡ ok b
      returned (ok a) t safe = refl
      returned (err e) t safe = refl
      returned (panic e) t safe = absurd (safe e refl)

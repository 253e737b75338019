-- ===== src/Effect/Yields.antt =====
-- What holds of every value that an action returns, whatever else it may end with.
use scafctl_plugin_auth_gith.Prelude.{String, Bool, true, false, ◌≡◌, refl, subst, if◌then◌else◌}
use scafctl_plugin_auth_gith.Effect.{
  Result, ok, err, panic, Exec, pure, fail, lift, ◌>>=◌, continue,
}

pub record Yields {ℓ} {S A : Type ℓ} (Q : A → Type ℓ) (m : Exec S A) : Type ℓ where
  pub from : (s : S) (a : A) → (m s).0 ≡ ok a → Q a

module _ {ℓ} {A : Type ℓ} where
  same_value : (x y : A) → ok x ≡ ok y → x ≡ y
  same_value x y e = cc

  not_error : (e : String) (x : A) → ¬ (err e ≡ ok x)
  not_error e x h = cc

  not_panic : (e : String) (x : A) → ¬ (panic e ≡ ok x)
  not_panic e x h = cc

module _ {ℓ} {S A : Type ℓ} {Q : A → Type ℓ} where
  pub Yields-pure : (x : A) → Q x → Yields {S = S} Q (pure x)
  unfolding pure
  Yields-pure x q = record { from = λ s y e. subst Q (same_value x y e) q }

  pub Yields-lift : (r : Result A) → ((a : A) → r ≡ ok a → Q a) → Yields {S = S} Q (lift r)
  unfolding lift
  Yields-lift r h = record { from = λ s a e. h a e }

  pub Yields-fail : (e : String) → Yields {S = S} Q (fail e)
  unfolding fail
  Yields-fail e = record { from = λ s y h. absurd (not_error e y h) }

  pub Yields-if :
      (b : Bool) (m n : Exec S A)
      → (b ≡ true → Yields Q m)
      → (b ≡ false → Yields Q n)
      → Yields Q (if b then m else n)
  Yields-if true m n h k = h refl
  Yields-if false m n h k = k refl

module _ {ℓ} {S A B : Type ℓ} {Q : B → Type ℓ} where
  continue-yields :
      (r : Result A) (f : A → Exec S B) (t : S) (b : B)
      → ((a : A) → r ≡ ok a → Yields Q (f a))
      → (continue r f t).0 ≡ ok b
      → Q b
  continue-yields (ok a) f t b h e = (h a refl).from t b e
  continue-yields (err x) f t b h e = absurd (not_error x b e)
  continue-yields (panic x) f t b h e = absurd (not_panic x b e)

  -- The rest may use what the first action returns.
  pub Yields-bind_of_result :
      (m : Exec S A) (f : A → Exec S B)
      → ((s : S) (a : A) → (m s).0 ≡ ok a → Yields Q (f a))
      → Yields Q (m >>= f)
  unfolding ◌>>=◌
  Yields-bind_of_result m f h = record {
    from = λ s b e. continue-yields (m s).0 f (m s).1 b (λ a q. h s a q) e;
  }

  pub Yields-bind :
      (m : Exec S A) (f : A → Exec S B) → ((a : A) → Yields Q (f a)) → Yields Q (m >>= f)
  Yields-bind m f h = Yields-bind_of_result m f (λ s a e. h a)

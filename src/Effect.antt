-- ===== src/Effect.antt =====
-- How the source's functions are written: an action on the outside world that returns a value,
-- returns a Go `error` (its text), or panics. What was done before an error stays done.
pub mod Yields
pub mod Keeps
pub mod Ensures
pub mod Laws
use scafctl_plugin_auth_gith.Prelude.{String, ◌<>◌}

pub data Result {ℓ} (A : Type ℓ) : Type ℓ where
  ok : A → Result A
  err : String → Result A
  panic : String → Result A

abbrev pub Exec {ℓ} : Type ℓ → Type ℓ → Type ℓ
Exec S A = S → Result A × S

module _ {ℓ} {A : Type ℓ} where
  -- `fmt.Errorf("context: %w", err)`.
  unfoldable pub wrapped : String → Result A → Result A
  wrapped context (ok a) = ok a
  wrapped context (err e) = err (context <> (": " <> e))
  wrapped context (panic e) = panic e

  unfoldable pub caught : Result A → Result (Result A)
  caught (ok a) = ok (ok a)
  caught (err e) = ok (err e)
  caught (panic e) = panic e

module _ {ℓ} {S A : Type ℓ} where
  unfoldable pub pure : A → Exec S A
  pure a s = (ok a, s)

  unfoldable pub fail : String → Exec S A
  fail e s = (err e, s)

  unfoldable pub lift : Result A → Exec S A
  lift r s = (r, s)

  unfoldable pub gets : (S → A) → Exec S A
  gets f s = (ok (f s), s)

  -- The call's error is looked at and not returned.
  unfoldable pub try : Exec S A → Exec S (Result A)
  unfolding caught
  try m s = let (r, t) = m s in (caught r, t)

  infixl 12 ◌or_wrap◌
  -- The call's error is returned with a context in front.
  unfoldable pub ◌or_wrap◌ : Exec S A → String → Exec S A
  unfolding wrapped
  ◌or_wrap◌ m context s = let (r, t) = m s in (wrapped context r, t)

-- What a function returns once its deferred call has run: a panic of that call replaces it.
abbrev pub after_deferred {ℓ κ} : {A : Type ℓ} {B : Type κ} → Result A → Result B → Result A
after_deferred r (panic e) = panic e
after_deferred r _ = r

module _ {ℓ} {S A B : Type ℓ} where
  -- `defer cleanup()`: it runs however the action ends, and its error is dropped.
  unfoldable pub finally : Exec S A → Exec S B → Exec S A
  finally m cleanup s = let (r, t) = m s in let (q, u) = cleanup t in (after_deferred r q, u)

module _ {ℓ} {S A B : Type ℓ} where
  abbrev pub continue : Result A → (A → Exec S B) → Exec S B
  continue (ok a) f s = f a s
  continue (err e) f s = (err e, s)
  continue (panic e) f s = (panic e, s)

  infixl 10 ◌>>=◌
  -- Opening this opens the other actions too.
  unfoldable pub ◌>>=◌ : Exec S A → (A → Exec S B) → Exec S B
  unfolding pure fail lift gets try ◌or_wrap◌
  ◌>>=◌ m f s = let (r, t) = m s in continue r f t

  infixl 10 ◌>>◌
  abbrev pub ◌>>◌ : Exec S A → Exec S B → Exec S B
  m >> n = m >>= λ _. n

-- The same, for a computation that touches nothing.
abbrev pub and_then {ℓ κ} : {A : Type ℓ} {B : Type κ} → Result A → (A → Result B) → Result B
and_then (ok a) f = f a
and_then (err e) f = err e
and_then (panic e) f = panic e

-- `value, _ := f(...)`: the string that is left when the error is dropped.
abbrev pub or_empty : Result String → String
or_empty (ok s) = s
or_empty (err e) = ""
or_empty (panic e) = ""

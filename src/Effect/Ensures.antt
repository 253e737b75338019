-- ===== src/Effect/Ensures.antt =====
-- What an action that returns has achieved, from what held before it: a rule for each way to build
-- an action.
use scafctl_plugin_auth_gith.Prelude.{String, ◌≡◌, refl, subst}
use scafctl_plugin_auth_gith.Effect.{
  Result, ok, err, panic, Exec, pure, lift, ◌or_wrap◌, wrapped, ◌>>=◌, continue,
}
use scafctl_plugin_auth_gith.Effect.Keeps.{Keeps}

-- If `P` holds before and the action returns a value, then `Q` holds of the value and the state.
pub record Ensures {κ} {S Value : Type κ} (P : S → Type κ) (action : Exec S Value)
    (Q : Value → S → Type κ) : Type κ where
  pub then : (s : S) (value : Value) → P s → (action s).0 ≡ ok value → Q value (action s).1

pub wrapped-eq-ok {ℓ} :
    {A : Type ℓ} (context : String) (r : Result A) (a : A) → wrapped context r ≡ ok a → r ≡ ok a
unfolding wrapped
wrapped-eq-ok context (ok b) a e = e
wrapped-eq-ok context (err b) a e = cc
wrapped-eq-ok context (panic b) a e = cc

module _ {κ} {S Value Next : Type κ} {R : Value → S → Type κ} {Q : Next → S → Type κ} where
  continued :
      (outcome : Result Value) (after : Value → Exec S Next) (t : S) (next : Next)
      → ((value : Value) → outcome ≡ ok value → R value t)
      → ((value : Value) → Ensures (R value) (after value) Q)
      → (continue outcome after t).0 ≡ ok next
      → Q next (continue outcome after t).1
  continued (ok value) after t next first rest e = (rest value).then t next (first value refl) e
  continued (err x) after t next first rest e = cc
  continued (panic x) after t next first rest e = cc

module _ {κ} {S Value : Type κ} {P : S → Type κ} where
  pub Ensures-of_Keeps : (action : Exec S Value) → Keeps P action → Ensures P action (λ _. P)
  Ensures-of_Keeps action kept = record { then = λ s value holds e. kept.at s holds }

  module _ {Q : Value → S → Type κ} where
    pub Ensures-or_wrap :
        (action : Exec S Value) (context : String)
        → Ensures P action Q
        → Ensures P (action or_wrap context) Q
    unfolding ◌or_wrap◌
    Ensures-or_wrap action context ensured = record {
      then = λ s value holds e. ensured.then s value holds (wrapped-eq-ok context _ value e);
    }

    pub Ensures-pure : (value : Value) → ((s : S) → P s → Q value s) → Ensures P (pure value) Q
    unfolding pure
    Ensures-pure value h = record {
      then = λ s v holds e. subst (λ x. Q x s) (ok-injective value v e) (h s holds);
    }
      where
        ok-injective : (a b : Value) → ok a ≡ ok b → a ≡ b
        ok-injective a b e = cc

    pub Ensures-lift :
        (outcome : Result Value)
        → ((value : Value) (s : S) → outcome ≡ ok value → P s → Q value s)
        → Ensures P (lift outcome) Q
    unfolding lift
    Ensures-lift outcome h = record { then = λ s value holds e. h value s e holds }

module _ {κ} {S Value Next : Type κ} {P : S → Type κ} {R : Value → S → Type κ}
    {Q : Next → S → Type κ} where
  pub Ensures-bind :
      (action : Exec S Value) (after : Value → Exec S Next)
      → Ensures P action R
      → ((value : Value) → Ensures (R value) (after value) Q)
      → Ensures P (action >>= after) Q
  unfolding ◌>>=◌
  Ensures-bind action after first rest = record {
    then = λ s next holds e.
        continued (action s).0 after (action s).1 next (λ value h. first.then s value holds h) rest
          e;
  }

module _ {κ} {S Value Next : Type κ} {P : S → Type κ} {Q : Next → S → Type κ} where
  -- What held before the first action still holds before the rest.
  pub Ensures-after :
      (action : Exec S Value) (after : Value → Exec S Next)
      → Keeps P action
      → ((value : Value) → Ensures P (after value) Q)
      → Ensures P (action >>= after) Q
  Ensures-after action after kept rest =
      Ensures-bind action after (Ensures-of_Keeps action kept) rest

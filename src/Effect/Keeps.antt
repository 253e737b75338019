-- ===== src/Effect/Keeps.antt =====
-- Invariants of actions: one rule for each way to build an action, whether it returns a value,
-- returns an error or panics.
use scafctl_plugin_auth_gith.Prelude.{String, Bool, true, false, ◌≡◌, refl, if◌then◌else◌}
use scafctl_plugin_auth_gith.Effect.{
  Result, ok, err, panic, Exec, pure, fail, lift, gets, try, finally, ◌or_wrap◌, ◌>>=◌, continue,
}

-- Whatever the action's outcome is, the state that it leaves satisfies `P` if the one before did.
pub record Keeps {κ} {S Value : Type κ} (P : S → Type κ) (action : Exec S Value) : Type κ where
  pub at : (before : S) → P before → P (action before).1

module _ {κ} {S Value : Type κ} {P : S → Type κ} where
  -- An action that returns the state it was given.
  keeps_state : (outcome : S → Result Value) → Keeps P (λ before. (outcome before, before))
  keeps_state outcome = record { at = λ before holds. holds }

  pub Keeps-try : (action : Exec S Value) → Keeps P action → Keeps P (try action)
  unfolding try
  Keeps-try action kept = record { at = kept.at }

  pub Keeps-fail : (message : String) → Keeps P (fail {A = Value} message)
  unfolding fail
  Keeps-fail message = keeps_state (λ _. err message)

  pub Keeps-or_wrap :
      (action : Exec S Value) (context : String) → Keeps P action → Keeps P (action or_wrap context)
  unfolding ◌or_wrap◌
  Keeps-or_wrap action context kept = record { at = kept.at }

  pub Keeps-gets : (read : S → Value) → Keeps P (gets read)
  unfolding gets
  Keeps-gets read = keeps_state (λ before. ok (read before))

  pub Keeps-pure : (value : Value) → Keeps P (pure value)
  unfolding pure
  Keeps-pure value = keeps_state (λ _. ok value)

  pub Keeps-lift : (outcome : Result Value) → Keeps P (lift outcome)
  unfolding lift
  Keeps-lift outcome = keeps_state (λ _. outcome)

  -- Either branch may use the outcome of the test.
  pub Keeps-if :
      (test : Bool) (yes_action no_action : Exec S Value)
      → (test ≡ true → Keeps P yes_action)
      → (test ≡ false → Keeps P no_action)
      → Keeps P (if test then yes_action else no_action)
  Keeps-if false _ _ _ otherwise = otherwise refl
  Keeps-if true _ _ kept _ = kept refl

module _ {κ} {S Value Next : Type κ} {P : S → Type κ} where
  continue-keeps_of_eq :
      (outcome : Result Value) (after : Value → Exec S Next)
      → ((value : Value) → outcome ≡ ok value → Keeps P (after value))
      → Keeps P (continue outcome after)
  continue-keeps_of_eq (panic message) after kept = record { at = λ before holds. holds }
  continue-keeps_of_eq (err message) after kept = record { at = λ before holds. holds }
  continue-keeps_of_eq (ok value) after kept = kept value refl

  pub Keeps-lift-bind :
      (outcome : Result Value) (after : Value → Exec S Next)
      → ((value : Value) → outcome ≡ ok value → Keeps P (after value))
      → Keeps P (lift outcome >>= after)
  unfolding ◌>>=◌
  Keeps-lift-bind outcome after kept = record {
    at = λ before holds. (continue-keeps_of_eq outcome after kept).at before holds;
  }

  -- The rest may use what the first action returned.
  pub Keeps-bind_of_result :
      (action : Exec S Value) (after : Value → Exec S Next)
      → Keeps P action
      → ((before : S) (value : Value) → (action before).0 ≡ ok value → Keeps P (after value))
      → Keeps P (action >>= after)
  unfolding ◌>>=◌
  Keeps-bind_of_result action after first rest = record {
    at = λ before holds.
        let (outcome, between) = action before in
        (continue-keeps_of_eq outcome after (λ value e. rest before value e)).at between
          (first.at before holds);
  }

  pub Keeps-bind :
      (action : Exec S Value) (after : Value → Exec S Next)
      → Keeps P action
      → ((value : Value) → Keeps P (after value))
      → Keeps P (action >>= after)
  Keeps-bind action after first rest =
      Keeps-bind_of_result action after first (λ before value _. rest value)

module _ {κ} {S Value Other : Type κ} {P : S → Type κ} where
  pub Keeps-finally :
      (action : Exec S Value) (cleanup : Exec S Other)
      → Keeps P action
      → Keeps P cleanup
      → Keeps P (finally action cleanup)
  unfolding finally
  Keeps-finally action cleanup kept cleaned = record {
    at = λ before holds. cleaned.at (action before).1 (kept.at before holds);
  }

pub ruleset keeps_rules =
    (Keeps-or_wrap, Keeps-if, Keeps-bind, Keeps-try, Keeps-lift, Keeps-gets, Keeps-fail, Keeps-pure)

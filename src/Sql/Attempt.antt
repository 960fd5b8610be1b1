-- ===== src/Sql/Attempt.antt =====
-- How a method of sql/parser/mysql-parser.js ends: it returns, it throws, or the model's fuel ends.
use mycat_js.Prelude.{
  ◌≡◌, refl, Bool, true, false, if◌then◌else◌, Option, none, some, Error, Result, ok, err,
}

pub data Attempt {ℓ} (Value : Type ℓ) : Type ℓ where
  no_fuel : Attempt Value
  throws : Error → Attempt Value
  done : Value → Attempt Value

module _ {ℓ μ} {Value : Type ℓ} {Next : Type μ} where
  infixl 5 ◌>>=◌
  abbrev pub ◌>>=◌ : Attempt Value → (Value → Attempt Next) → Attempt Next
  no_fuel >>= next = no_fuel
  (throws thrown) >>= next = throws thrown
  (done value) >>= next = next value

  pub >>=-eq-done :
      (call : Attempt Value) (next : Value → Attempt Next) {last : Next}
      → (call >>= next) ≡ done last
      → (value : Value) × (call ≡ done value) × (next value ≡ done last)
  >>=-eq-done no_fuel next h = cc
  >>=-eq-done (throws thrown) next h = cc
  >>=-eq-done (done value) next h = (value, refl, h)

module _ {ℓ} {Value : Type ℓ} where
  -- A call that returned did not take the branch that throws.
  pub else_of :
      (b : Bool) (thrown : Error) {x : Attempt Value} {value : Value}
      → (if b then throws thrown else x) ≡ done value
      → (b ≡ false) × (x ≡ done value)
  else_of true thrown h = cc
  else_of false thrown h = (refl, h)

  pub then_of :
      (b : Bool) (thrown : Error) {x : Attempt Value} {value : Value}
      → (if b then x else throws thrown) ≡ done value
      → x ≡ done value
  then_of true thrown h = h
  then_of false thrown h = cc

  abbrev pub of_result : Result Value → Attempt Value
  of_result (err thrown) = throws thrown
  of_result (ok value) = done value

  abbrev pub of_call : Option (Result Value) → Attempt Value
  of_call none = no_fuel
  of_call (some result) = of_result result

-- ===== src/Prelude/Throws.antt =====
-- A JavaScript call that returns or throws. The errors are the classes that the source throws.
use Prim.Native.Nat.{ℕ}
use mathlib.Core.Path.{◌≡◌, refl}

pub data Error : Type 0 where
  range_error type_error argument_error buffer_error conn_error net_error plain_error
        reference_error :
      Error
  -- SqlError: "Unexpected end of SQL", a token that is not parsed yet, and a syntax error at a
  -- position and a line.
  unexpected_end no_token : Error
  sql_error : ℕ → ℕ → Error
  -- SqlError without a position.
  sql_failure : Error

-- How a call ends.
pub data Result {ℓ} (Value : Type ℓ) : Type ℓ where
  err : Error → Result Value
  ok : Value → Result Value

-- The code behind a call: it runs where the call returned.
module _ {ℓ μ} {Value : Type ℓ} {Next : Type μ} where
  infixl 5 ◌>>=◌
  abbrev pub ◌>>=◌ : Result Value → (Value → Result Next) → Result Next
  (err thrown) >>= next = err thrown
  (ok value) >>= next = next value

  pub >>=-eq-ok :
      (call : Result Value) (next : Value → Result Next) {last : Next}
      → (call >>= next) ≡ ok last
      → (value : Value) × (call ≡ ok value) × (next value ≡ ok last)
  >>=-eq-ok (err thrown) next h = cc
  >>=-eq-ok (ok value) next h = (value, refl, h)

pub >>=-ok {ℓ} : {Value : Type ℓ} (call : Result Value) → (call >>= ok) ≡ call
>>=-ok (err thrown) = refl
>>=-ok (ok value) = refl

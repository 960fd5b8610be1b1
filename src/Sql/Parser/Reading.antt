-- ===== src/Sql/Parser/Reading.antt =====
-- What the parser's calls of the lexer leave of the text.
use mycat_js.Prelude.{
  ℕ, ◌≡◌, ◌≢◌, ◌≤◌, Bool, true, false, Option, Error, none, some, length, refl, ap, ok, err, arith,
  Result, if◌then◌else◌,
}
use mycat_js.Sql.Chars.{Text}
use mycat_js.Sql.Lexer.{Lexer, token, skip_blank_comment}
use mycat_js.Sql.Lexer.Progress.{token_ends}
use mycat_js.Sql.Lexer.Reach.{Reads, Called, token-Called, Skipped, skip_blank_comment-Skipped}
use mycat_js.Sql.Attempt.{Attempt, no_fuel, throws, done, ◌>>=◌, of_call}
use mycat_js.Sql.Parser.{Parser, read_token, skip_blanks}

abbrev Final {ℓ} : {Value : Type ℓ} → (Value → Type 0) → Attempt Value → Type 0
Final P no_fuel = ⊥
Final P (throws thrown) = Unit {0}
Final P (done value) = P value

-- The call ends, and what it returns has the property.
pub record Ends {ℓ} {Value : Type ℓ} (P : Value → Type 0) (call : Attempt Value) : Type 0 where
  pub ended : Final P call

module _ {ℓ} {Value : Type ℓ} where
  pub done-Ends : {P : Value → Type 0} {v : Value} → P v → Ends P (done v)
  done-Ends h = record { ended = h }

  pub throws-Ends : {P : Value → Type 0} {e : Error} → Ends P (throws e)
  throws-Ends = record { ended = tt }

  pub if-Ends :
      {P : Value → Type 0} (b : Bool) {x y : Attempt Value}
      → ((b ≡ true) → Ends P x)
      → Ends P y
      → Ends P (if b then x else y)
  if-Ends true h k = h refl
  if-Ends false h k = k

  pub Ends-mono :
      {P Q : Value → Type 0} {call : Attempt Value}
      → ((v : Value) → P v → Q v)
      → Ends P call
      → Ends Q call
  Ends-mono {call = no_fuel} k h = absurd h.ended
  Ends-mono {call = throws e} k h = throws-Ends
  Ends-mono {call = done v} k h = done-Ends (k v h.ended)

  pub Ends-no_fuel : {P : Value → Type 0} {call : Attempt Value} → Ends P call → call ≢ no_fuel
  Ends-no_fuel {call = no_fuel} h = absurd h.ended
  Ends-no_fuel {call = throws e} h = λ k. cc
  Ends-no_fuel {call = done v} h = λ k. cc

module _ {ℓ μ} {Value : Type ℓ} {Next : Type μ} where
  pub >>=-Ends :
      {P : Value → Type 0} {Q : Next → Type 0} (call : Attempt Value) {next : Value → Attempt Next}
      → Ends P call
      → ((value : Value) → P value → Ends Q (next value))
      → Ends Q (call >>= next)
  >>=-Ends no_fuel h k = absurd h.ended
  >>=-Ends (throws thrown) h k = throws-Ends
  >>=-Ends (done value) h k = k value h.ended

-- Likewise for a call of the lexer.
of_call-Ends :
    (sql : Text) (lo : ℕ) (o : Option (Result Lexer))
    → o ≢ none
    → Called sql lo o
    → Ends (Reads sql lo) (of_call o)
of_call-Ends sql lo none h w = absurd (h refl)
of_call-Ends sql lo (some (err e)) h w = throws-Ends
of_call-Ends sql lo (some (ok l)) h w = done-Ends w

-- A token that is read ends, in reach of the offset.
pub read_token-Ends :
    (sql : Text) (lo : ℕ) (check_eos skip_bc user_var : Bool) (p : Parser)
    → Reads sql lo p.lexer
    → Ends (λ (q : Parser). Reads sql lo q.lexer) (read_token check_eos skip_bc user_var p)
unfolding read_token
read_token-Ends sql lo check_eos skip_bc user_var p w =
    let inside : p.lexer.curr ≤ length p.lexer.sql = omega (arith, w.2, ap length w.0) in
    >>=-Ends (of_call (token p.lexer check_eos skip_bc user_var))
      (of_call-Ends sql lo _ (token_ends p.lexer check_eos skip_bc user_var inside)
        (token-Called sql lo p.lexer check_eos skip_bc user_var w))
      (λ l v. done-Ends v)

of_Skipped-Ends :
    (sql : Text) (lo : ℕ) (o : Option (Result (Bool × Lexer)))
    → Skipped sql lo o
    → Ends (λ (r : Bool × Lexer). Reads sql lo r.1) (of_call o)
of_Skipped-Ends sql lo none w = absurd w
of_Skipped-Ends sql lo (some (err e)) w = throws-Ends
of_Skipped-Ends sql lo (some (ok r)) w = done-Ends w

pub skip_blanks-Ends :
    (sql : Text) (lo : ℕ) (p : Parser)
    → Reads sql lo p.lexer
    → Ends (λ (q : Parser). Reads sql lo q.lexer) (skip_blanks p)
unfolding skip_blanks
skip_blanks-Ends sql lo p w =
    >>=-Ends (of_call (skip_blank_comment p.lexer))
      (of_Skipped-Ends sql lo _ (skip_blank_comment-Skipped sql lo p.lexer w)) (λ r v. done-Ends v)

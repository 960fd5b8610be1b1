-- ===== src/Sql/Parser/Ending.antt =====
-- The parser ends on every text: no fuel of sql/parser/mysql-parser.js's loops runs out.
use mycat_js.Prelude.{
  ℕ, Bool, true, false, not, ◌&&◌, ◌||◌, [], ◌∷◌, Option, none, some, length, ok, err, type_error,
  arith, Result, ltb,
}
use mycat_js.Sql.Chars.{Text}
use mycat_js.Sql.Number.{TokenType, id_token, sign_token, eos_token, user_var_token}
use mycat_js.Sql.Lexer.{slice, reset_token}
use mycat_js.Sql.Lexer.Reach.{Reads}
use mycat_js.Sql.Attempt.{Attempt, throws, done, of_result}
use mycat_js.Sql.Words.{codes, is_reserved, big_int_from}
use mycat_js.Sql.Tree.{Name, Scope, max_length_of}
use mycat_js.Backend.Source.{upper, same_text}
use mycat_js.Sql.Parser.{
  Parser, reset, refuse, read_token, skip_blanks, token_text, token_word, is_type, at_sign,
  ends_wrong, quoted, is_integer, check_reserved, parse_identifier, parse_scope, sys_var_named,
  parse_sys_var_expr, parse_user_var_expr, big_int, limit_clause, limit_second, limit_next,
  limit_behind, parse_select_limit,
}
use mycat_js.Sql.Parser.Reading.{
  Ends, done-Ends, throws-Ends, >>=-Ends, if-Ends, read_token-Ends, skip_blanks-Ends,
}

-- A value that comes with the parser.
abbrev pub Keeps {ℓ} : {Value : Type ℓ} → Text → ℕ → Attempt (Value × Parser) → Type 0
Keeps sql lo call = Ends (λ r. Reads sql lo r.1.lexer) call

pub Reads-reset :
    (sql : Text) (lo : ℕ) (p : Parser) → Reads sql lo p.lexer → Reads sql lo (reset p).lexer
unfolding reset_token
Reads-reset sql lo p (same, from, upto) = (same, omega arith, upto)

abbrev pub Any {ℓ} : {Value : Type ℓ} → Value → Type 0
Any v = Unit {0}

pub of_result-Ends {ℓ} : {Value : Type ℓ} (r : Result Value) → Ends Any (of_result r)
of_result-Ends (err e) = throws-Ends
of_result-Ends (ok v) = done-Ends tt

token_text-Ends : (p : Parser) → Ends Any (token_text p)
unfolding token_text
token_text-Ends p = of_result-Ends (slice p.lexer)

pub token_word-Ends : (p : Parser) → Ends Any (token_word p)
unfolding token_word
token_word-Ends p =
    >>=-Ends (of_result (slice p.lexer)) (of_result-Ends (slice p.lexer)) (λ v w. done-Ends tt)

pub refuse-Ends {ℓ} : {Value : Type ℓ} {P : Value → Type 0} (p : Parser) → Ends P (refuse p)
unfolding refuse
refuse-Ends p = throws-Ends

check_reserved-Keeps :
    (sql : Text) (lo : ℕ) (id : Name) (p : Parser)
    → Reads sql lo p.lexer
    → Keeps sql lo (check_reserved id p)
unfolding check_reserved
check_reserved-Keeps sql lo id p w =
    if-Ends (not (same_text p.lexer.prefix (b'.' ∷ [])) && is_reserved (upper id.name))
      (λ e. throws-Ends) (done-Ends w)

parse_identifier-Keeps :
    (sql : Text) (lo type : ℕ) (p : Parser)
    → Reads sql lo p.lexer
    → Keeps sql lo (parse_identifier type p)
unfolding parse_identifier
parse_identifier-Keeps sql lo type p w = >>=-Ends (token_text p) (token_text-Ends p) (λ name v.
    if-Ends (ltb (max_length_of type) (length name)) (λ e. refuse-Ends p)
      (if-Ends (ends_wrong type name) (λ e. refuse-Ends p)
        (>>=-Ends (skip_blanks p) (skip_blanks-Ends sql lo p w)
          (λ q u. check_reserved-Keeps sql lo _ q u))))

parse_scope-Keeps :
    (sql : Text) (lo : ℕ) (id : Text) (p : Parser)
    → Reads sql lo p.lexer
    → Keeps sql lo (parse_scope id p)
unfolding parse_scope
parse_scope-Keeps sql lo id p w =
    if-Ends (same_text id (codes "SESSION") || same_text id (codes "GLOBAL"))
      (λ e. >>=-Ends (skip_blanks p) (skip_blanks-Ends sql lo p w) (λ q u.
        if-Ends (at_sign q b'.')
          (λ f.
            >>=-Ends (skip_blanks q) (skip_blanks-Ends sql lo q u)
              (λ r v. if-Ends (is_type r.lexer.type id_token) (λ g. done-Ends v) (refuse-Ends r)))
          (refuse-Ends q)))
      (done-Ends w)

sys_var_named-Keeps :
    (sql : Text) (lo start : ℕ) (scope : Scope) (p : Parser)
    → Reads sql lo p.lexer
    → Keeps sql lo (sys_var_named start scope p)
unfolding sys_var_named
sys_var_named-Keeps sql lo start scope p w =
    >>=-Ends (parse_identifier _ p) (parse_identifier-Keeps sql lo _ p w) (λ r u. done-Ends u)

pub parse_sys_var_expr-Keeps :
    (sql : Text) (lo : ℕ) (p : Parser) → Reads sql lo p.lexer → Keeps sql lo (parse_sys_var_expr p)
unfolding parse_sys_var_expr
parse_sys_var_expr-Keeps sql lo p w =
    >>=-Ends (read_token true false false p) (read_token-Ends sql lo true false false p w) (λ q u.
      if-Ends (not (is_type q.lexer.type id_token)) (λ e. refuse-Ends q)
        (if-Ends (quoted q) (λ e. sys_var_named-Keeps sql lo _ _ q u)
          (>>=-Ends (token_word q) (token_word-Ends q) (λ id v.
            >>=-Ends (parse_scope id q) (parse_scope-Keeps sql lo id q u)
              (λ r x. sys_var_named-Keeps sql lo _ _ r.1 x)))))

pub parse_user_var_expr-Keeps :
    (sql : Text) (lo : ℕ) (p : Parser) → Reads sql lo p.lexer → Keeps sql lo (parse_user_var_expr p)
unfolding parse_user_var_expr
parse_user_var_expr-Keeps sql lo p w =
    >>=-Ends (read_token false false true p) (read_token-Ends sql lo false false true p w) (λ q u.
      if-Ends (is_type q.lexer.type user_var_token)
        (λ e.
          >>=-Ends (token_text q) (token_text-Ends q)
            (λ text v. done-Ends (Reads-reset sql lo q u)))
        (refuse-Ends q))

big_int-Ends : (p : Parser) → Ends Any (big_int p)
unfolding big_int
big_int-Ends p = >>=-Ends (token_text p) (token_text-Ends p) (λ s v. valued (big_int_from 0 s))
  where
    valued :
        (o : Option ℕ)
        → Ends Any (elim o as (λ _. Attempt ℕ) [ none ↦ throws type_error | some n ↦ done n ])
    valued none = throws-Ends
    valued (some n) = done-Ends tt

limit_clause-Keeps :
    (sql : Text) (lo rows offset start end : ℕ) (p : Parser)
    → Reads sql lo p.lexer
    → Keeps sql lo (limit_clause rows offset start end p)
unfolding limit_clause
limit_clause-Keeps sql lo rows offset start end p w = done-Ends (Reads-reset sql lo p w)

limit_second-Keeps :
    (sql : Text) (lo start first : ℕ) (swap : Bool) (p : Parser)
    → Reads sql lo p.lexer
    → Keeps sql lo (limit_second start first swap p)
unfolding limit_second
limit_second-Keeps sql lo start first swap p w =
    if-Ends (is_integer p.lexer.type)
      (λ e. >>=-Ends (big_int p) (big_int-Ends p) (λ second v.
        if-Ends swap (λ f. limit_clause-Keeps sql lo _ _ _ _ p w)
          (limit_clause-Keeps sql lo _ _ _ _ p w)))
      (refuse-Ends p)

limit_next-Keeps :
    (sql : Text) (lo start first : ℕ) (swap : Bool) (p : Parser)
    → Reads sql lo p.lexer
    → Keeps sql lo (limit_next start first swap p)
unfolding limit_next
limit_next-Keeps sql lo start first swap p w =
    >>=-Ends (read_token true true false (reset p))
      (read_token-Ends sql lo true true false (reset p) (Reads-reset sql lo p w))
      (λ q u. limit_second-Keeps sql lo start first swap q u)

limit_behind-Keeps :
    (sql : Text) (lo : ℕ) (t : TokenType) (start end first : ℕ) (p : Parser)
    → Reads sql lo p.lexer
    → Keeps sql lo (limit_behind t start end first p)
unfolding limit_behind
limit_behind-Keeps sql lo eos_token start end first p w =
    limit_clause-Keeps sql lo first 0 start end p w
limit_behind-Keeps sql lo sign_token start end first p w =
    if-Ends (same_text p.lexer.prefix (b',' ∷ []))
      (λ e. limit_next-Keeps sql lo start first true p w)
      (if-Ends (same_text p.lexer.prefix (b';' ∷ []))
        (λ e. limit_clause-Keeps sql lo first 0 start end p w)
        (limit_second-Keeps sql lo start first true p w))
limit_behind-Keeps sql lo id_token start end first p w =
    if-Ends (quoted p) (λ e. limit_second-Keeps sql lo start first true p w)
      (>>=-Ends (token_word p) (token_word-Ends p) (λ id v.
        if-Ends (same_text id (codes "OFFSET")) (λ e. limit_next-Keeps sql lo start first false p w)
          (limit_second-Keeps sql lo start first true p w)))
limit_behind-Keeps sql lo _ start end first p w = refuse-Ends p

pub parse_select_limit-Keeps :
    (sql : Text) (lo start : ℕ) (p : Parser)
    → Reads sql lo p.lexer
    → Keeps sql lo (parse_select_limit start p)
unfolding parse_select_limit
parse_select_limit-Keeps sql lo start p w =
    >>=-Ends (read_token true true false p) (read_token-Ends sql lo true true false p w) (λ q u.
      if-Ends (is_integer q.lexer.type)
        (λ e. >>=-Ends (big_int q) (big_int-Ends q) (λ first v.
          >>=-Ends (skip_blanks q) (skip_blanks-Ends sql lo q u)
            (λ r x. limit_behind-Keeps sql lo r.lexer.type start q.lexer.end first r x)))
        (refuse-Ends q))

-- ===== src/Sql/Parser/Total.antt =====
-- parse of sql/parser/mysql-parser.js ends on every text.
use mycat_js.Prelude.{
  ℕ, zero, suc, ◌+◌, ◌≡◌, ◌≢◌, ◌<◌, true, false, not, ◌&&◌, ◌||◌, List, [], ◌∷◌, ◌++◌, length, ap,
  refl, ok, err, arith, Result,
}
use mycat_js.Sql.Chars.{Text}
use mycat_js.Sql.Number.{TokenType, id_token, eos_token}
use mycat_js.Sql.Number.Digits.{moves_on}
use mycat_js.Sql.Lexer.{Lexer, char_at, skip, reset_token, next_token, eos}
use mycat_js.Sql.Lexer as Lexer
use mycat_js.Sql.Lexer.Reach.{At, Reads, Reads-At, next_token-Found}
use mycat_js.Sql.Attempt.{no_fuel, of_result}
use mycat_js.Sql.Words.{codes}
use mycat_js.Sql.Tree.{Select, Comment}
use mycat_js.Backend.Source.{same_text}
use mycat_js.Sql.Parser.{Parser, skip_blanks, token_word, is_type, quoted}
use mycat_js.Sql.Parser.Select.{
  parse_select, is_comment, is_blank, comment_of, read_comments, parse_statement, parse_statements,
  parse,
}
use mycat_js.Sql.Parser.Reading.{
  Ends, Ends-no_fuel, Ends-mono, done-Ends, throws-Ends, >>=-Ends, if-Ends, skip_blanks-Ends,
}
use mycat_js.Sql.Parser.Ending.{Keeps, Any, token_word-Ends, refuse-Ends}
use mycat_js.Sql.Parser.SelectEnding.{Reads-less, parse_select-Keeps}

-- A comment or a blank took a character.
At-behind :
    (sql : Text) (lo : ℕ) (l : Lexer) → moves_on l.type ≡ true → Reads sql lo l → At sql (lo + 1) l
At-behind sql lo l h (same, from, upto) = (same, (rw h at from), upto)

comment_moves : (t : TokenType) → is_comment t ≡ true → moves_on t ≡ true
comment_moves t h = ground arith

blank_moves : (t : TokenType) → is_blank t ≡ true → moves_on t ≡ true
blank_moves t h = ground arith

next_token-Ends :
    (sql : Text) (lo : ℕ) (l : Lexer)
    → At sql lo l
    → Ends (Reads sql lo) (of_result (next_token l true false))
next_token-Ends sql lo l w = found (next_token l true false) refl
  where
    found : (r : Result Lexer) → next_token l true false ≡ r → Ends (Reads sql lo) (of_result r)
    found (err e) h = throws-Ends
    found (ok m) h = done-Ends (next_token-Found sql lo l true false (ok m) w h)

read_comments-Keeps :
    (sql : Text) (fuel lo : ℕ) (comments : List Comment) (p : Parser)
    → length sql < fuel + lo
    → At sql lo p.lexer
    → Keeps sql lo (read_comments fuel comments p)
unfolding read_comments
read_comments-Keeps sql zero lo comments p h (same, from, upto) = absurd (omega arith)
read_comments-Keeps sql (suc fuel) lo comments p h w =
    >>=-Ends (of_result (next_token p.lexer true false)) (next_token-Ends sql lo p.lexer w) (λ l u.
      let q = record p { lexer = l } in
      if-Ends (is_comment l.type)
        (λ e.
          Ends-mono (λ t y. Reads-less sql lo t.1.lexer y)
            (read_comments-Keeps sql fuel (lo + 1) (comments ++ comment_of l ∷ []) q (omega arith)
              (At-behind sql lo l (comment_moves l.type e) u)))
        (if-Ends (is_blank l.type)
          (λ e.
            Ends-mono (λ t y. Reads-less sql lo t.1.lexer y)
              (read_comments-Keeps sql fuel (lo + 1) comments q (omega arith)
                (At-behind sql lo l (blank_moves l.type e) u)))
          (done-Ends u)))

parse_statement-Keeps :
    (sql : Text) (lo : ℕ) (comments : List Comment) (p : Parser)
    → Reads sql lo p.lexer
    → Keeps sql (lo + 1) (parse_statement comments p)
unfolding parse_statement
parse_statement-Keeps sql lo comments p w =
    if-Ends (not (is_type p.lexer.type id_token) || quoted p) (λ e. refuse-Ends p)
      (>>=-Ends (token_word p) (token_word-Ends p) (λ command v.
        if-Ends (same_text command (codes "SELECT"))
          (λ e. >>=-Ends (skip_blanks p) (skip_blanks-Ends sql lo p w) (λ q u.
            >>=-Ends (parse_select p.lexer.start q) (parse_select-Keeps sql lo p.lexer.start q u)
              (λ r x. done-Ends x)))
          (refuse-Ends p)))

parse_statements-Ends :
    (sql : Text) (fuel lo : ℕ) (stmts : List Select) (p : Parser)
    → length sql < fuel + lo
    → At sql lo p.lexer
    → Ends Any (parse_statements fuel stmts p)
unfolding parse_statements
parse_statements-Ends sql zero lo stmts p h (same, from, upto) = absurd (omega arith)
parse_statements-Ends sql (suc fuel) lo stmts p h w =
    let size : length p.lexer.sql ≡ length sql = ap length w.0 in
    >>=-Ends (read_comments (length p.lexer.sql + 2) [] p)
      (read_comments-Keeps sql (length p.lexer.sql + 2) lo [] p (omega arith) w)
      (λ (comments, q) u.
        if-Ends
          (is_type q.lexer.type eos_token || eos q.lexer && same_text q.lexer.prefix (b';' ∷ []))
          (λ e. done-Ends tt)
          (>>=-Ends (parse_statement comments q) (parse_statement-Keeps sql lo comments q u)
            (λ (stmt, r) x.
              parse_statements-Ends sql fuel (lo + 1) (stmts ++ stmt ∷ []) r (omega arith)
                (Reads-At sql (lo + 1) r.lexer x))))

-- On every text, `parse` ends: it returns statements or it throws, and no loop runs out of fuel.
pub parse_ends : (l : Lexer) (sql : Text) → parse l sql ≢ no_fuel
unfolding parse Lexer.reset reset_token
parse_ends l sql = Ends-no_fuel {P = Any} (
    >>=-Ends
      (parse_statements (length sql + 1) [] (record { lexer = Lexer.reset l sql; visits = [] }))
      (parse_statements-Ends sql (length sql + 1) 0 [] _ (omega arith)
        (refl, omega arith, omega arith))
      (λ r v. done-Ends tt))

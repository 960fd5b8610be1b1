-- ===== src/Sql/Parser/SelectEnding.antt =====
-- parseSelect of sql/parser/mysql-parser.js ends, and takes a character of the text.
use mycat_js.Prelude.{
  ℕ, zero, suc, ◌+◌, ◌≡◌, ◌≤◌, ◌<◌, true, false, List, [], ◌∷◌, ◌++◌, some, length, ap, arith, ◌==◌,
  get_elem?, Option-cases, inl, inr,
}
use mycat_js.Sql.Chars.{Text}
use mycat_js.Sql.Number.{TokenType, id_token, sign_token, eos_token}
use mycat_js.Sql.Number.Digits.{moves_on}
use mycat_js.Sql.Lexer.{Lexer, char_at, skip, reset_token}
use mycat_js.Sql.Lexer.Reach.{Reads}
use mycat_js.Sql.Attempt.{of_result}
use mycat_js.Sql.Words.{codes}
use mycat_js.Sql.Tree.{Expr, Select}
use mycat_js.Backend.Source.{same_text}
use mycat_js.Sql.Parser.{Parser, reset, read_token, token_word, at_sign, quoted, parse_select_limit}
use mycat_js.Sql.Parser.Select.{
  parse_select_expr, behind_expr, parse_select_exprs, end_select, limit_select, select_behind,
  parse_select,
}
use mycat_js.Sql.Parser.Reading.{
  Ends, Ends-mono, done-Ends, throws-Ends, >>=-Ends, if-Ends, read_token-Ends,
}
use mycat_js.Sql.Parser.Ending.{
  Keeps, Reads-reset, token_word-Ends, refuse-Ends, parse_sys_var_expr-Keeps,
  parse_user_var_expr-Keeps, parse_select_limit-Keeps,
}

-- A sign took a character.
sign_moves : (q : Parser) (c : ℕ) → at_sign q c ≡ true → moves_on q.lexer.type ≡ true
sign_moves q c h = ground arith

Reads-sign :
    (sql : Text) (lo c : ℕ) (q : Parser)
    → at_sign q c ≡ true
    → Reads sql lo q.lexer
    → Reads sql (lo + 1) (reset q).lexer
unfolding reset_token
Reads-sign sql lo c q h (same, from, upto) =
    let from' : lo + 1 ≤ q.lexer.curr = rw (sign_moves q c h) at from in (same, omega arith, upto)

get_elem?-lt : (s : Text) (i c : ℕ) → get_elem? s i ≡ some c → i < length s
get_elem?-lt [] i c h = cc
get_elem?-lt (x ∷ xs) zero c h = omega arith
get_elem?-lt (x ∷ xs) (suc i) c h = omega (arith, get_elem?-lt xs i c h)

char_at-Ends : (l : Lexer) → Ends (λ c. l.curr < length l.sql) (of_result (char_at l l.curr))
unfolding char_at
char_at-Ends l = elim (Option-cases (get_elem? l.sql l.curr)) [
  | inl e ↦ rw (char_at, e) throws-Ends
  | inr (c, e) ↦ rw (char_at, e) (done-Ends (get_elem?-lt l.sql l.curr c e))
]

Reads-skip :
    (sql : Text) (lo : ℕ) (l : Lexer)
    → l.curr < length l.sql
    → Reads sql lo l
    → Reads sql lo (skip l 1)
unfolding skip
Reads-skip sql lo l h (same, from, upto) =
    let size : length l.sql ≡ length sql = ap length same in (same, omega arith, omega arith)

parse_select_expr-Keeps :
    (sql : Text) (lo : ℕ) (p : Parser)
    → Reads sql lo p.lexer
    → Keeps sql (lo + 1) (parse_select_expr p)
unfolding parse_select_expr
parse_select_expr-Keeps sql lo p w =
    >>=-Ends (read_token true true false p) (read_token-Ends sql lo true true false p w) (λ q u.
      if-Ends (at_sign q b'@')
        (λ e.
          let v = Reads-sign sql lo b'@' q e u in
          let l = (reset q).lexer in
          >>=-Ends (of_result (char_at l l.curr)) (char_at-Ends l) (λ c x.
            if-Ends (c == b'@')
              (λ f. parse_sys_var_expr-Keeps sql (lo + 1) _ (Reads-skip sql (lo + 1) l x v))
              (parse_user_var_expr-Keeps sql (lo + 1) (reset q) v)))
        (refuse-Ends q))

behind_expr-Keeps :
    (sql : Text) (lo : ℕ) (t : TokenType) (p : Parser)
    → Reads sql lo p.lexer
    → Keeps sql lo (behind_expr t p)
unfolding behind_expr
behind_expr-Keeps sql lo sign_token p w =
    if-Ends (same_text p.lexer.prefix (b';' ∷ [])) (λ e. done-Ends w)
      (if-Ends (same_text p.lexer.prefix (b',' ∷ [])) (λ e. done-Ends (Reads-reset sql lo p w))
        throws-Ends)
behind_expr-Keeps sql lo _ p w = done-Ends w

pub Reads-less : (sql : Text) (lo : ℕ) (l : Lexer) → Reads sql (lo + 1) l → Reads sql lo l
Reads-less sql lo l (same, from, upto) = (same, omega arith, upto)

parse_select_exprs-Ends :
    (sql : Text) (fuel lo : ℕ) (exprs : List Expr) (p : Parser)
    → length sql < fuel + lo
    → Reads sql lo p.lexer
    → Ends (λ r. Reads sql (lo + 1) r.2.lexer) (parse_select_exprs fuel exprs p)
unfolding parse_select_exprs
parse_select_exprs-Ends sql zero lo exprs p h (same, from, upto) = absurd (omega arith)
parse_select_exprs-Ends sql (suc fuel) lo exprs p h w =
    >>=-Ends (parse_select_expr p) (parse_select_expr-Keeps sql lo p w) (λ (expr, q) u.
      >>=-Ends (read_token true true false q) (read_token-Ends sql (lo + 1) true true false q u)
        (λ r v.
          >>=-Ends (behind_expr r.lexer.type r) (behind_expr-Keeps sql (lo + 1) r.lexer.type r v)
            (λ (next, s) x.
              if-Ends next
                (λ e.
                  Ends-mono (λ t y. Reads-less sql (lo + 1) t.2.lexer y)
                    (parse_select_exprs-Ends sql fuel (lo + 1) (exprs ++ expr ∷ []) s (omega arith)
                      x))
                (done-Ends x))))

end_select-Keeps :
    (sql : Text) (lo : ℕ) (t : TokenType) (stmt : Select) (p : Parser)
    → Reads sql lo p.lexer
    → Keeps sql lo (end_select t stmt p)
unfolding end_select
end_select-Keeps sql lo sign_token stmt p w =
    if-Ends (same_text p.lexer.prefix (b';' ∷ [])) (λ e. done-Ends (Reads-reset sql lo p w))
      (refuse-Ends p)
end_select-Keeps sql lo eos_token stmt p w = done-Ends w
end_select-Keeps sql lo _ stmt p w = refuse-Ends p

limit_select-Keeps :
    (sql : Text) (lo : ℕ) (stmt : Select) (p : Parser)
    → Reads sql lo p.lexer
    → Keeps sql lo (limit_select stmt p)
unfolding limit_select
limit_select-Keeps sql lo stmt p w =
    if-Ends (quoted p) (λ e. refuse-Ends p)
      (>>=-Ends (token_word p) (token_word-Ends p) (λ id v.
        if-Ends (same_text id (codes "LIMIT"))
          (λ e.
            >>=-Ends (parse_select_limit p.lexer.start (reset p))
              (parse_select_limit-Keeps sql lo p.lexer.start (reset p) (Reads-reset sql lo p w))
              (λ (limit, q) u.
                >>=-Ends (read_token true true false q) (read_token-Ends sql lo true true false q u)
                  (λ r x. end_select-Keeps sql lo r.lexer.type _ r x)))
          (refuse-Ends p)))

select_behind-Keeps :
    (sql : Text) (lo : ℕ) (t : TokenType) (stmt : Select) (p : Parser)
    → Reads sql lo p.lexer
    → Keeps sql lo (select_behind t stmt p)
unfolding select_behind
select_behind-Keeps sql lo sign_token stmt p w =
    if-Ends (same_text p.lexer.prefix (b';' ∷ [])) (λ e. done-Ends (Reads-reset sql lo p w))
      (refuse-Ends p)
select_behind-Keeps sql lo eos_token stmt p w = done-Ends (Reads-reset sql lo p w)
select_behind-Keeps sql lo id_token stmt p w = limit_select-Keeps sql lo stmt p w
select_behind-Keeps sql lo _ stmt p w = refuse-Ends p

pub parse_select-Keeps :
    (sql : Text) (lo start : ℕ) (p : Parser)
    → Reads sql lo p.lexer
    → Keeps sql (lo + 1) (parse_select start p)
unfolding parse_select
parse_select-Keeps sql lo start p w =
    let size : length p.lexer.sql ≡ length sql = ap length w.0 in
    >>=-Ends (parse_select_exprs (length p.lexer.sql + 1) [] p)
      (parse_select_exprs-Ends sql (length p.lexer.sql + 1) lo [] p (omega arith) w)
      (λ (exprs, end, q) u.
        >>=-Ends (read_token true true false q) (read_token-Ends sql (lo + 1) true true false q u)
          (λ r x. select_behind-Keeps sql (lo + 1) r.lexer.type _ r x))

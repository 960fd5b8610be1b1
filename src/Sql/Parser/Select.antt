-- ===== src/Sql/Parser/Select.antt =====
-- parseSelect and parse of sql/parser/mysql-parser.js.
use mycat_js.Prelude.{
  ℕ, zero, suc, ◌+◌, Bool, true, false, not, ◌&&◌, ◌||◌, List, [], ◌∷◌, ◌++◌, none, some, ◌==◌,
  if◌then◌else◌, sql_failure, length,
}
use mycat_js.Sql.Chars.{Text}
use mycat_js.Sql.Number.{TokenType, id_token, sign_token, eos_token, comment_token, blank_token}
use mycat_js.Sql.Lexer.{Lexer, skip, char_at, next_token, eos}
use mycat_js.Sql.Lexer as Lexer
use mycat_js.Sql.Attempt.{Attempt, no_fuel, throws, done, ◌>>=◌, of_result}
use mycat_js.Sql.Words.{codes}
use mycat_js.Sql.Tree.{Expr, Select, Comment, Parsed, one_statement, statements, visits_select}
use mycat_js.Backend.Source.{same_text}
use mycat_js.Sql.Parser.{
  Parser, visit, reset, refuse, read_token, skip_blanks, token_word, quoted, is_type, at_sign,
  parse_sys_var_expr, parse_user_var_expr, parse_select_limit,
}

abbrev pub is_comment : TokenType → Bool
is_comment comment_token = true
is_comment _ = false

abbrev pub is_blank : TokenType → Bool
is_blank blank_token = true
is_blank _ = false

-- One expression of parseSelectExprs. `charAt` looks at the character behind the sign.
unfoldable pub parse_select_expr : Parser → Attempt (Expr × Parser)
parse_select_expr p = do
  q ← read_token true true false p
  let l = (reset q).lexer
  let variable = do
    c ← of_result (char_at l l.curr)
    if c == b'@'
        then parse_sys_var_expr (record q { lexer = skip l 1 })
        else parse_user_var_expr (reset q)
  if at_sign q b'@' then variable else refuse q

-- What parseSelectExprs does behind an expression, by the type of the token there: whether it goes
-- on, and the parser then.
unfoldable pub behind_expr : TokenType → Parser → Attempt (Bool × Parser)
behind_expr sign_token p =
    if same_text p.lexer.prefix (b';' ∷ [])
    then done (false, p)
    else if same_text p.lexer.prefix (b',' ∷ [])
    then done (true, reset p)
    else throws sql_failure
behind_expr _ p = done (false, p)

-- parseSelectExprs: the expressions, the end that it gives the statement, and the parser.
unfoldable pub parse_select_exprs : ℕ → List Expr → Parser → Attempt (List Expr × ℕ × Parser)
parse_select_exprs zero exprs p = no_fuel
parse_select_exprs (suc fuel) exprs p = do
  (expr, q) ← parse_select_expr p
  r ← read_token true true false q
  (next, s) ← behind_expr r.lexer.type r
  let rest = parse_select_exprs fuel (exprs ++ expr ∷ []) s
  if next then rest else done (exprs ++ expr ∷ [], s.lexer.curr, s)

-- The end of a statement with a LIMIT clause, by the type of the token there. A last sign is not
-- left as the current token.
unfoldable pub end_select : TokenType → Select → Parser → Attempt (Select × Parser)
end_select sign_token stmt p =
    let ended = record stmt { end = p.lexer.end } in
    if same_text p.lexer.prefix (b';' ∷ [])
    then done (ended, visit (visits_select ended) (reset p))
    else refuse p
end_select eos_token stmt p =
    let ended = record stmt { end = p.lexer.end } in done (ended, visit (visits_select ended) p)
end_select _ stmt p = refuse p

-- parseSelect from the word LIMIT on.
unfoldable pub limit_select : Select → Parser → Attempt (Select × Parser)
limit_select stmt p =
    let clause = (do
      (limit, q) ← parse_select_limit p.lexer.start (reset p)
      r ← read_token true true false q
      end_select r.lexer.type (record stmt { limit = some limit }) r) in
    if quoted p
    then refuse p
    else (token_word p >>= λ id. if same_text id (codes "LIMIT") then clause else refuse p)

-- parseSelect behind the expressions, by the type of the token there.
unfoldable pub select_behind : TokenType → Select → Parser → Attempt (Select × Parser)
select_behind sign_token stmt p =
    if same_text p.lexer.prefix (b';' ∷ [])
    then done (record stmt { end = p.lexer.end }, reset p)
    else refuse p
select_behind eos_token stmt p = done (record stmt { end = p.lexer.end }, reset p)
select_behind id_token stmt p = limit_select stmt p
select_behind _ stmt p = refuse p

-- parseSelect. Each expression takes its `@` from the text, so the fuel is enough.
unfoldable pub parse_select : ℕ → Parser → Attempt (Select × Parser)
parse_select start p = do
  (exprs, end, q) ← parse_select_exprs (length p.lexer.sql + 1) [] p
  r ← read_token true true false q
  select_behind r.lexer.type
      (record { start = start; end = end; exprs = exprs; limit = none; comments = [] }) r

-- What the loop over comments and blanks keeps of a token.
abbrev pub comment_of : Lexer → Comment
comment_of l = record { sign = l.prefix; start = l.start; end = l.end }

-- The loop over comments and blanks before a statement.
unfoldable pub read_comments : ℕ → List Comment → Parser → Attempt (List Comment × Parser)
read_comments zero comments p = no_fuel
read_comments (suc fuel) comments p = of_result (next_token p.lexer true false) >>= λ l.
    (let behind = λ (found : List Comment). read_comments fuel found (record p { lexer = l }) in
      if is_comment l.type
      then behind (comments ++ comment_of l ∷ [])
      else if is_blank l.type
      then behind comments
      else done (comments, record p { lexer = l }))

-- A statement, from its first word on.
unfoldable pub parse_statement : List Comment → Parser → Attempt (Select × Parser)
parse_statement comments p =
    let select = (do
      q ← skip_blanks p
      (stmt, r) ← parse_select p.lexer.start q
      done (record stmt { comments = comments }, r)) in
    if not (is_type p.lexer.type id_token) || quoted p
    then refuse p
    else (token_word p >>= λ command.
        if same_text command (codes "SELECT") then select else refuse p)

-- The loop over the statements.
unfoldable pub parse_statements : ℕ → List Select → Parser → Attempt (List Select × Parser)
parse_statements zero stmts p = no_fuel
parse_statements (suc fuel) stmts p = do
  (comments, q) ← read_comments (length p.lexer.sql + 2) [] p
  let more = do (stmt, r) ← parse_statement comments q; parse_statements fuel (stmts ++ stmt ∷ []) r
  if is_type q.lexer.type eos_token || eos q.lexer && same_text q.lexer.prefix (b';' ∷ [])
      then done (stmts, q)
      else more

-- A single statement comes without its array.
unfoldable pub parsed : List Select → Parsed
parsed [] = statements []
parsed (stmt ∷ []) = one_statement stmt
parsed (stmt ∷ (other ∷ rest)) = statements (stmt ∷ (other ∷ rest))

-- `parse`. Each statement takes an `@` from the text, so the fuel is enough.
unfoldable pub parse : Lexer → Text → Attempt (Parsed × Parser)
parse l sql = do
  (stmts, p) ←
      parse_statements (length sql + 1) [] (record { lexer = Lexer.reset l sql; visits = [] })
  done (parsed stmts, p)

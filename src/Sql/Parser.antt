-- ===== src/Sql/Parser.antt =====
-- The class ParseHelper of sql/parser/mysql-parser.js. Each method takes the parser and gives it
-- back; a method that throws loses it.
pub mod Select
pub mod Reading
pub mod Ending
pub mod SelectEnding
pub mod Total
pub mod Names
pub mod Visits
use mycat_js.Prelude.{
  ℕ, ◌+◌, ◌-◌, Bool, true, false, not, ◌&&◌, ◌||◌, List, [], ◌∷◌, ◌++◌, Option, none, some, ◌==◌,
  ltb, if◌then◌else◌, Error, sql_error, sql_failure, type_error, Result, length,
}
use mycat_js.Sql.Chars.{Text}
use mycat_js.Sql.Number.{
  TokenType, undefined_token, id_token, int_token, bigint_token, sign_token, user_var_token,
  eos_token,
}
use mycat_js.Sql.Lexer.{
  Lexer, reset_token, skip, char_at, slice, token, next_token, skip_blank_comment,
}
use mycat_js.Sql.Attempt.{Attempt, no_fuel, throws, done, ◌>>=◌, of_result, of_call}
use mycat_js.Sql.Words.{codes, is_reserved, ends_blank, big_int_from}
use mycat_js.Sql.Tree.{
  Name, Scope, global_scope, session_scope, Expr, sys_var_expr, user_var_expr, Limit, Visit,
  visits_identifier, visits_sys_var, visits_user_var, visits_limit, max_length_of, type_id_schema,
  type_id_table, type_id_column, type_id_sys_var, type_id_user_var,
}
use mycat_js.Backend.Source.{upper, same_text}

-- The lexer, and the calls of visitors so far.
pub record Parser : Type 0 where
  pub lexer : Lexer
  pub visits : List Visit

abbrev pub visit : Visit → Parser → Parser
visit v p = record p { visits = p.visits ++ v ∷ [] }

abbrev pub reset : Parser → Parser
reset p = record p { lexer = reset_token p.lexer }

-- `throw lexer.getError()`
unfoldable pub refuse {ℓ} : {Value : Type ℓ} → Parser → Attempt Value
refuse p = throws (sql_error p.lexer.start p.lexer.line)

-- `lexer.token(...)`, which gives the type of the token that it makes the current one.
unfoldable pub read_token : Bool → Bool → Bool → Parser → Attempt Parser
read_token check_eos skip_bc user_var p =
    of_call (token p.lexer check_eos skip_bc user_var) >>= λ l. done (record p { lexer = l })

unfoldable pub skip_blanks : Parser → Attempt Parser
skip_blanks p =
    of_call (skip_blank_comment p.lexer) >>= λ (skipped, l). done (record p { lexer = l })

-- `lexer.slice(false)` and `lexer.slice()`.
unfoldable pub token_text : Parser → Attempt Text
token_text p = of_result (slice p.lexer)

unfoldable pub token_word : Parser → Attempt Text
token_word p = of_result (slice p.lexer) >>= λ s. done (upper s)

abbrev pub is_quoted : Option ℕ → Bool
is_quoted none = false
is_quoted (some q) = true

abbrev pub quoted : Parser → Bool
quoted p = is_quoted p.lexer.quotes

abbrev pub is_type : TokenType → TokenType → Bool
is_type id_token id_token = true
is_type int_token int_token = true
is_type bigint_token bigint_token = true
is_type sign_token sign_token = true
is_type user_var_token user_var_token = true
is_type eos_token eos_token = true
is_type _ _ = false

abbrev pub at_sign : Parser → ℕ → Bool
at_sign p c = is_type p.lexer.type sign_token && same_text p.lexer.prefix (c ∷ [])

abbrev pub is_integer : TokenType → Bool
is_integer int_token = true
is_integer bigint_token = true
is_integer _ = false

-- The check of the name behind the identifier, and its visit.
unfoldable pub check_reserved : Name → Parser → Attempt (Name × Parser)
check_reserved id p =
    if not (same_text p.lexer.prefix (b'.' ∷ [])) && is_reserved (upper id.name)
    then throws (sql_error id.start p.lexer.line)
    else done (id, visit (visits_identifier id) p)

-- A name that ends with a blank, of a type that may not.
abbrev pub ends_wrong : ℕ → Text → Bool
ends_wrong type name =
    ends_blank name && (type == type_id_schema || type == type_id_table || type == type_id_column)

-- parseIdentifier
unfoldable pub parse_identifier : ℕ → Parser → Attempt (Name × Parser)
parse_identifier type p = do
  name ← token_text p
  let id : Name = record {
    name = name;
    quotes = p.lexer.quotes;
    type = type;
    start = p.lexer.start;
    end = p.lexer.end;
  }
  if ltb (max_length_of type) (length name)
      then refuse p
      else if ends_wrong type name
      then refuse p
      else skip_blanks p >>= check_reserved id

-- The scope before a system variable, and the parser at the identifier.
unfoldable pub parse_scope : Text → Parser → Attempt (Scope × Parser)
parse_scope id p =
    if same_text id (codes "SESSION") || same_text id (codes "GLOBAL")
    then (do
      q ← skip_blanks p
      let scope = if length id == 6 then global_scope else session_scope
      let named = do
        r ← skip_blanks q
        if is_type r.lexer.type id_token then done (scope, r) else refuse r
      if at_sign q b'.' then named else refuse q)
    else done (session_scope, p)

-- parseSysVarExpr behind the scope.
unfoldable pub sys_var_named : ℕ → Scope → Parser → Attempt (Expr × Parser)
sys_var_named start scope p = do
  (id, q) ← parse_identifier type_id_sys_var p
  let end = if is_quoted id.quotes then id.end + 1 else id.end
  let expr = sys_var_expr scope id start end
  done (expr, visit (visits_sys_var expr) q)

-- parseSysVarExpr, behind `@@`.
unfoldable pub parse_sys_var_expr : Parser → Attempt (Expr × Parser)
parse_sys_var_expr p = do
  q ← read_token true false false p
  let start = q.lexer.start - 2
  let plain = do id ← token_word q; (scope, r) ← parse_scope id q; sys_var_named start scope r
  if not (is_type q.lexer.type id_token)
      then refuse q
      else if quoted q
      then sys_var_named (start - 1) session_scope q
      else plain

-- parseUserVarExpr, behind `@`.
unfoldable pub parse_user_var_expr : Parser → Attempt (Expr × Parser)
parse_user_var_expr p = do
  q ← read_token false false true p
  let start = q.lexer.start - 1
  let named = do
    text ← token_text q
    let name : Name = record {
      name = text;
      quotes = q.lexer.quotes;
      type = type_id_user_var;
      start = q.lexer.start;
      end = q.lexer.end;
    }
    let expr = user_var_expr name (if quoted q then start - 1 else start) q.lexer.curr
    done (expr, visit (visits_user_var expr) (reset q))
  if is_type q.lexer.type user_var_token then named else refuse q

-- BigInt of the current token, which fails on a text that is no number.
unfoldable pub big_int : Parser → Attempt ℕ
big_int p =
    token_text p >>= λ s. elim (big_int_from 0 s) [ none ↦ throws type_error | some n ↦ done n ]

-- The clause, its visit, and the token behind it reset.
unfoldable pub limit_clause : ℕ → ℕ → ℕ → ℕ → Parser → Attempt (Limit × Parser)
limit_clause rows offset start end p =
    let clause : Limit = record { rows = rows; offset = offset; start = start; end = end } in
    done (clause, visit (visits_limit clause) (reset p))

-- The second number of parseSelectLimit: the current token.
unfoldable pub limit_second : ℕ → ℕ → Bool → Parser → Attempt (Limit × Parser)
limit_second start first swap p =
    let clause = (do
      second ← big_int p
      if swap
          then limit_clause second first start p.lexer.end p
          else limit_clause first second start p.lexer.end p) in
    if is_integer p.lexer.type then clause else refuse p

-- The second number is behind the current token.
unfoldable pub limit_next : ℕ → ℕ → Bool → Parser → Attempt (Limit × Parser)
limit_next start first swap p =
    read_token true true false (reset p) >>= limit_second start first swap

-- The branches on the type of the token behind the first number.
unfoldable pub limit_behind : TokenType → ℕ → ℕ → ℕ → Parser → Attempt (Limit × Parser)
limit_behind eos_token start end first p = limit_clause first 0 start end p
limit_behind sign_token start end first p =
    if same_text p.lexer.prefix (b',' ∷ [])
    then limit_next start first true p
    else if same_text p.lexer.prefix (b';' ∷ [])
    then limit_clause first 0 start end p
    else limit_second start first true p
limit_behind id_token start end first p =
    if quoted p
    then limit_second start first true p
    else (token_word p >>= λ id.
        if same_text id (codes "OFFSET")
        then limit_next start first false p
        else limit_second start first true p)
limit_behind _ start end first p = refuse p

-- parseSelectLimit, behind LIMIT.
unfoldable pub parse_select_limit : ℕ → Parser → Attempt (Limit × Parser)
parse_select_limit start p = do
  q ← read_token true true false p
  let clause = do
    first ← big_int q
    r ← skip_blanks q
    limit_behind r.lexer.type start q.lexer.end first r
  if is_integer q.lexer.type then clause else refuse q

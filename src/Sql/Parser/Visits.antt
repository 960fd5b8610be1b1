-- ===== src/Sql/Parser/Visits.antt =====
-- The statements that parseSelect of sql/parser/mysql-parser.js shows to the visitor.
use mycat_js.Prelude.{
  Bool, List, ◌⊎◌, inl, inr, ◌+◌, ◌++◌, length, ℕ, ◌≡◌, refl, true, false, [], ◌∷◌, none, some,
  sql_error, arith,
}
use mycat_js.Sql.Chars.{Text}
use mycat_js.Sql.Number.{TokenType, id_token, sign_token, eos_token}
use mycat_js.Sql.Lexer.{token}
use mycat_js.Sql.Attempt.{of_call, done, >>=-eq-done, else_of, then_of}
use mycat_js.Sql.Words.{codes}
use mycat_js.Sql.Tree.{Select, Limit, Visit, visits_select, Expr}
use mycat_js.Backend.Source.{same_text}
use mycat_js.Sql.Parser.{Parser, reset, refuse, read_token, quoted, token_word, parse_select_limit}
use mycat_js.Sql.Parser.Select.{
  end_select, limit_select, select_behind, parse_select, parse_select_exprs,
}

end_select-limit :
    (t : TokenType) (stmt : Select) (p : Parser) {s : Select} {q : Parser}
    → end_select t stmt p ≡ done (s, q)
    → s.limit ≡ stmt.limit
unfolding end_select refuse
end_select-limit t stmt p h = ground arith

end_select-visits :
    (t : TokenType) (stmt : Select) (p : Parser) {s : Select} {q : Parser}
    → end_select t stmt p ≡ done (s, q)
    → q.visits ≡ p.visits ++ visits_select s ∷ []
unfolding end_select refuse
end_select-visits t stmt p h = ground arith

-- How the visitors are called once a statement's expressions are parsed: not at all without a
-- LIMIT clause, and with the statement, as the last call, with one.
abbrev pub VisitsOnly : Parser → Select × Parser → Type 0
VisitsOnly p (s, q) =
    ((s.limit ≡ none) × (q.visits ≡ p.visits))
    ⊎ ((limit : Limit) × (s.limit ≡ some limit)
        × (before : List Visit) × (q.visits ≡ before ++ visits_select s ∷ []))

limit_select-VisitsOnly :
    (stmt : Select) (p : Parser) {s : Select} {q : Parser}
    → limit_select stmt p ≡ done (s, q)
    → VisitsOnly p (s, q)
unfolding limit_select refuse
limit_select-VisitsOnly stmt p {s} {q} h =
    let thrown = sql_error p.lexer.start p.lexer.line in
    let (unquoted, g) = else_of (quoted p) thrown h in
    let (id, worded, k) = >>=-eq-done {Value = Text} (token_word p) _ g in
    let ((limit, r), parsed, m) =
      >>=-eq-done {Value = Limit × Parser} (parse_select_limit p.lexer.start (reset p)) _
        (then_of (same_text id (codes "LIMIT")) thrown k) in
    let (u, next, n) = >>=-eq-done {Value = Parser} (read_token true true false r) _ m in
    let stmt' : Select = record stmt { limit = some limit } in
    inr (
      limit,
      end_select-limit u.lexer.type stmt' u n,
      u.visits,
      end_select-visits u.lexer.type stmt' u n,
    )

select_behind-VisitsOnly :
    (t : TokenType) (stmt : Select) (p : Parser) (s : Select) (q : Parser)
    → stmt.limit ≡ none
    → select_behind t stmt p ≡ done (s, q)
    → VisitsOnly p (s, q)
unfolding select_behind refuse
select_behind-VisitsOnly sign_token stmt p s q free h = inl (ground arith, ground arith)
select_behind-VisitsOnly eos_token stmt p s q free h = inl (ground arith, ground arith)
select_behind-VisitsOnly id_token stmt p s q free h = limit_select-VisitsOnly stmt p h
select_behind-VisitsOnly _ stmt p s q free h = absurd (ground arith)

read_token-visits :
    (comments blanks eos : Bool) (p : Parser) {q : Parser}
    → read_token comments blanks eos p ≡ done q
    → q.visits ≡ p.visits
unfolding read_token
read_token-visits comments blanks eos p h =
    let (l, e, f) = >>=-eq-done (of_call (token p.lexer comments blanks eos)) _ h in cc f

-- Where parseSelect returns, its expressions have been parsed, and behind them no visitor has
-- been called if the statement has no LIMIT clause; if it has one, the last call is that of
-- `visitSelectStmt` with the statement.
pub parse_select-VisitsOnly :
    (start : ℕ) (p : Parser) (s : Select) (q : Parser)
    → parse_select start p ≡ done (s, q)
    → (exprs : List Expr) × (end : ℕ) × (r : Parser) × (parse_select_exprs
          (length p.lexer.sql + 1)
          []
          p
        ≡ done (exprs, end, r))
      × VisitsOnly r (s, q)
unfolding parse_select
parse_select-VisitsOnly start p s q h =
    let ((exprs, end, r), parsed, g) =
      >>=-eq-done {Value = List Expr × ℕ × Parser}
        (parse_select_exprs (length p.lexer.sql + 1) [] p) _ h in
    let (u, next, k) = >>=-eq-done {Value = Parser} (read_token true true false r) _ g in
    let stmt : Select = record {
      start = start;
      end = end;
      exprs = exprs;
      limit = none;
      comments = [];
    } in
    (
      exprs,
      end,
      r,
      parsed,
      rw (← read_token-visits true true false r next)
          (select_behind-VisitsOnly u.lexer.type stmt u s q refl k),
    )

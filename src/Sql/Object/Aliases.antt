-- ===== src/Sql/Object/Aliases.antt =====
-- The alias that `toSql` of sql/sql-expr.js gives a replaced expression of a select statement.
use mycat_js.Prelude.{
  ℕ, ◌+◌, ◌-◌, ◌≡◌, refl, ap, ◌∙◌, Bool, true, false, [], ◌∷◌, ◌++◌, ◌==◌, ◌&&◌, ◌>>=◌,
  if◌then◌else◌, ok, length, Bool-cases, inl, inr,
}
use mathlib.Core.List.{append_assoc}
use mycat_js.Sql.Chars.{Text}
use mycat_js.Sql.Scan.{quoted_loop}
use mycat_js.Sql.Scan.Quotes.{Allowed, StartsOther, lines, quoted_loop-escape}
use mycat_js.Sql.Scan.Quotes as Quotes
use mycat_js.Sql.Object.{
  Shape, Replace, text_slice, escape, escape_range, as_word, alias_sql, alias_with, starts_with,
  is_empty, expr_sql, value_sql, replace_sql,
}
use mycat_js.Sql.Object.Escape.{collapse, escape_doubles}

collapse-Allowed : (nul : Bool) (c : ℕ) (s : Text) → Allowed nul s → Allowed nul (collapse c s)
unfolding collapse
collapse-Allowed nul c [] h = tt
collapse-Allowed nul c (x ∷ []) h = h
collapse-Allowed nul c (x ∷ (y ∷ r)) (allowed, (next, others)) = elim (Bool-cases (x == c)) [
  | inl e ↦ elim (Bool-cases (y == c)) [
    | inl g ↦ rw (e, g) (allowed, collapse-Allowed nul c r others)
    | inr g ↦ rw (e, g) (allowed, collapse-Allowed nul c (y ∷ r) (next, others))
  ]
  | inr e ↦ rw (e) (allowed, collapse-Allowed nul c (y ∷ r) (next, others))
]

alias_plain :
    (o : Shape) (sql a : Text)
    → starts_with o.quotes a ≡ false
    → alias_with o sql a
      ≡ (sql ++ as_word ++ o.quotes ∷ escape a o.quotes ++ o.quotes ∷ [], record o { alias = a })
unfolding alias_with
alias_plain o sql a h =
    ap
      (λ t.
        if t
        then (
          sql ++ as_word ++ escape_range a o.quotes 1 (length a - 1),
          record o { alias = text_slice a 1 (length a - 1) },
        )
        else (
          sql ++ as_word ++ o.quotes ∷ escape a o.quotes ++ o.quotes ∷ [],
          record o { alias = a },
        ))
      h

-- An expression that does not start with the quote gets an alias that the lexer's scan of a quoted
-- identifier reads up to its closing quote.
pub alias_closes :
    (o : Shape) (sql a rest : Text) (i line : ℕ)
    → text_slice o.source o.start o.end ≡ a
    → starts_with o.quotes a ≡ false
    → Allowed true a
    → StartsOther o.quotes rest
    → (text : Text) × ((alias_sql o sql).0 ≡ sql ++ as_word ++ o.quotes ∷ (text ++ o.quotes ∷ []))
      × (quoted_loop true true o.quotes (text ++ o.quotes ∷ rest) i line
          ≡ ok (i + length text + 1, lines true o.quotes (collapse o.quotes a) line))
unfolding alias_sql
alias_closes o sql a rest i line shown other allowed behind = (
  Quotes.escape o.quotes (collapse o.quotes a),
  ap (λ t. (alias_with o sql t).0) shown
      ∙ ap (λ p. p.0) (alias_plain o sql a other)
      ∙ append_assoc (sql ++ as_word) (o.quotes ∷ escape a o.quotes) (o.quotes ∷ [])
      ∙ ap (λ t. sql ++ as_word ++ o.quotes ∷ (t ++ o.quotes ∷ [])) (escape_doubles a o.quotes).1,
  quoted_loop-escape true true o.quotes (collapse o.quotes a) rest i line
      (collapse-Allowed true o.quotes a allowed) behind,
)

names :
    (o : Shape) (in_select : Bool) (sql : Text)
    → (o.is_expr && (o.rewritten && (is_empty o.alias && in_select))) ≡ true
    → expr_sql o in_select sql ≡ alias_sql o sql
unfolding expr_sql
names o in_select sql h = ap (λ t. if t then alias_sql o sql else (sql, o)) h

leaves :
    (o : Shape) (in_select : Bool) (sql : Text)
    → (o.is_expr && (o.rewritten && (is_empty o.alias && in_select))) ≡ false
    → expr_sql o in_select sql ≡ (sql, o)
unfolding expr_sql
leaves o in_select sql h = ap (λ t. if t then alias_sql o sql else (sql, o)) h

-- Where an expression of a select statement without an alias, whose part of the source does not
-- begin with the quote, is replaced by a value that has a text, the first call of `toSql` gives
-- that text with an alias; the second one, on the fields that the first leaves, gives the text
-- alone.
pub replace_sql_again :
    (r : Replace) (c : ℕ) (cs v : Text)
    → r.shape.is_expr ≡ true
    → r.in_select ≡ true
    → r.shape.alias ≡ []
    → text_slice r.shape.source r.shape.start r.shape.end ≡ c ∷ cs
    → (c == r.shape.quotes) ≡ false
    → value_sql r.value ≡ ok v
    → (shape : Shape) × (text : Text) × (replace_sql r ≡ ok (v ++ as_word ++ text, shape))
      × (replace_sql (record r { shape = shape }) ≡ ok (v, shape))
unfolding replace_sql alias_sql
replace_sql_again r c cs v expr selected unnamed shown other rendered =
    let o = record r.shape { rewritten = true } in
    let q = o.quotes in
    let named = record o { alias = c ∷ cs } in
    (
      named,
      q ∷ (escape (c ∷ cs) q ++ q ∷ []),
      ap (λ call. call >>= λ sql. ok (expr_sql o r.in_select sql)) rendered
          ∙ ap ok (
              names o r.in_select v (rw (expr, unnamed, selected) refl)
              ∙ ap (alias_with o v) shown
              ∙ alias_plain o v (c ∷ cs) other
              ∙ ap (λ t. (t, named))
                  (append_assoc (v ++ as_word) (q ∷ escape (c ∷ cs) q) (q ∷ []))),
      ap (λ call. call >>= λ sql. ok (expr_sql named r.in_select sql)) rendered
          ∙ ap ok (leaves named r.in_select v (rw (expr) refl)),
    )

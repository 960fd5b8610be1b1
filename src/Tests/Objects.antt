-- ===== src/Tests/Objects.antt =====
-- What parsed objects become as text, at concrete inputs.
use mycat_js.Prelude.{ℕ, ◌≡◌, refl, [], ◌∷◌, ◌++◌, Bool, true, false, none, some, ok, arith, ◌>>=◌}
use mycat_js.Sql.Chars.{Text}
use mycat_js.Sql.Scan.Quotes as Quotes
use mycat_js.Sql.Lexer.{Lexer, next_token, slice}
use mycat_js.Sql.Lexer.Strings.{behind_string}
use mycat_js.Sql.Object.{
  Children, Shape, sql_object, no_child, child, scalar_value, Replace, replace_of, value_sql,
  replace_sql, text_slice, escape, escape_mid, as_word, to_sql, escape_loop, expr_sql, index_of,
  replaced,
}
use mycat_js.Sql.Object.Escape.{collapse, escape_doubles}
use mycat_js.Sql.Object.Splice.{
  child_free, child_valued, no_child_left, Hole, to_sql-Fits, Fits, result_of, source_of,
}
use mycat_js.Sql.Object.Replaced.{to_sql_untouched}
use mycat_js.Sql.Object.Aliases.{replace_sql_again}
use mycat_js.Sql.Object.Literals.{text_value-token}
use mycat_js.Sql.Words.{codes}
use mycat_js.Tests.Words.{at_text}

-- it''s a 'b
abbrev mixed : Text
mixed = codes "it''s a 'b"

escape_doubles_example :
    (escape_mid 39 mixed ≡ some (codes "it''s a ''b")) × (escape mixed 39 ≡ codes "it''s a ''b")
unfolding collapse Quotes.escape
escape_doubles_example = escape_doubles mixed 39

-- An object in the text.
abbrev shape_of : Text → ℕ → ℕ → Bool → Shape
shape_of source start end is_expr = record {
  source = source;
  start = start;
  end = end;
  value = none;
  is_expr = is_expr;
  is_select = false;
  quotes = b'`';
  alias = [];
  rewritten = false;
}

abbrev seven : Shape
seven = record (shape_of (codes "s @a z") 2 4 false) { value = some (scalar_value (codes "7")) }

abbrev a_hole : Hole
a_hole = record {
  before = codes "s ";
  covered = codes "@a";
  text = codes "7";
  replace = replace_of seven false (scalar_value (codes "7"));
  later = record seven { rewritten = true };
}

-- An object that is not replaced, around the one that is.
abbrev around_seven : Children
around_seven =
    child
      (sql_object (shape_of (codes "s @a z") 0 4 false)
        (child (sql_object seven no_child) no_child))
      no_child

to_sql-Fits_example :
    (to_sql false (sql_object (shape_of (codes "s @a z") 0 6 false) around_seven)
      >>= λ (sql, shape, later). ok sql)
    ≡ ok (codes "s 7 z")
unfolding source_of Fits replace_sql value_sql expr_sql result_of
to_sql-Fits_example =
    to_sql-Fits false (shape_of (codes "s @a z") 0 6 false) around_seven [] [] (codes " z")
      (a_hole ∷ []) refl refl refl refl refl
      (child_free refl (child_valued refl no_child_left) no_child_left) (refl, refl, refl, tt)

to_sql_untouched_example :
    to_sql true (sql_object (shape_of (codes "s @a z") 2 4 true) no_child)
    ≡ ok (codes "@a", shape_of (codes "s @a z") 2 4 true, [])
unfolding replaced text_slice
to_sql_untouched_example =
    to_sql_untouched true (shape_of (codes "s @a z") 2 4 true) no_child refl refl

abbrev selected : Replace
selected = replace_of (shape_of (codes "@a") 0 2 true) true (scalar_value (codes "7"))

replace_sql_again_example :
    (shape : Shape) × (text : Text) × (replace_sql selected
      ≡ ok (codes "7" ++ as_word ++ text, shape))
    × (replace_sql (record selected { shape = shape }) ≡ ok (codes "7", shape))
unfolding text_slice value_sql
replace_sql_again_example =
    replace_sql_again selected 64 (codes "a") (codes "7") refl refl refl refl refl refl

abbrev quoted_text : Lexer
quoted_text = at_text (codes "'it''s a ''b';") 0

text_value-token_example :
    (next_token quoted_text true false ≡ ok (behind_string quoted_text (collapse 39 mixed)))
    × (slice (behind_string quoted_text (collapse 39 mixed)) ≡ ok (escape mixed 39))
unfolding value_sql escape escape_mid index_of escape_loop
text_value-token_example =
    text_value-token quoted_text mixed (codes "'it''s a ''b'") (codes ";") refl refl (omega arith)

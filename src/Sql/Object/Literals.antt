-- ===== src/Sql/Object/Literals.antt =====
-- The text that `toSql` of sql/sql-object.js gives a value is one string of the lexer.
use mycat_js.Prelude.{◌≡◌, sym, ap, ◌∙◌, true, false, [], ◌∷◌, ◌++◌, ok, drop}
use mathlib.Core.List.{append_assoc}
use mycat_js.Sql.Chars.{Text}
use mycat_js.Sql.Scan.Quotes.{StartsOther}
use mycat_js.Sql.Scan.Quotes as Quotes
use mycat_js.Sql.Lexer.{Lexer, next_token, slice}
use mycat_js.Sql.Lexer.Strings.{behind_string, next_token-string, apostrophe}
use mycat_js.Sql.Object.{value_sql, text_value, escape}
use mycat_js.Sql.Object.Escape.{collapse, escape_doubles}

literal_text :
    (s rest : Text)
    → (apostrophe ∷ escape s apostrophe ++ apostrophe ∷ []) ++ rest
      ≡ apostrophe ∷ (Quotes.escape apostrophe (collapse apostrophe s) ++ apostrophe ∷ rest)
literal_text s rest =
    ap (λ t. (apostrophe ∷ t ++ apostrophe ∷ []) ++ rest) (escape_doubles s apostrophe).1
    ∙ append_assoc (apostrophe ∷ Quotes.escape apostrophe (collapse apostrophe s)) (apostrophe ∷ [])
        rest

-- Where the text that replaces an object by a string stands at the lexer's offset, and no further
-- apostrophe follows it, the next token is that whole text, as one string: whatever the string
-- is, nothing of it is read as anything else.
pub text_value-token :
    (l : Lexer) (s sql rest : Text)
    → value_sql (text_value s) ≡ ok sql
    → drop l.curr l.sql ≡ sql ++ rest
    → StartsOther apostrophe rest
    → (next_token l true false ≡ ok (behind_string l (collapse apostrophe s)))
      × (slice (behind_string l (collapse apostrophe s)) ≡ ok (escape s apostrophe))
unfolding value_sql
text_value-token l s sql rest rendered h other =
    let text : sql ≡ apostrophe ∷ escape s apostrophe ++ apostrophe ∷ [] = cc rendered in
    let (token, sliced) =
      next_token-string l (collapse apostrophe s) rest
        (h ∙ ap (λ t. t ++ rest) text ∙ literal_text s rest) other in
    (token, sliced ∙ ap ok (sym (escape_doubles s apostrophe).1))

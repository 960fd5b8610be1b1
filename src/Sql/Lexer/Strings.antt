-- ===== src/Sql/Lexer/Strings.antt =====
-- The tokens in quotes.
use mycat_js.Prelude.{
  ℕ, zero, suc, ◌+◌, ◌-◌, ◌≡◌, refl, ◌∙◌, ap, true, false, [], ◌∷◌, ◌++◌, length, ok, arith, take,
  drop, take-append,
}
use mycat_js.Sql.Chars.{Text, is_blank}
use mycat_js.Sql.Scan.Quotes.{escape, lines, Allowed, StartsOther, quoted_loop-escape}
use mycat_js.Sql.Number.{string_token}
use mycat_js.Sql.Lexer.{Lexer, dispatch, str_token, next_token, next_of, reset_token, slice}

drop-suc : (n : ℕ) (x : ℕ) (xs ys : Text) → drop n xs ≡ x ∷ ys → drop (suc n) xs ≡ ys
drop-suc zero x [] ys h = cc
drop-suc zero x (y ∷ zs) ys h = cc
drop-suc (suc n) x [] ys h = cc
drop-suc (suc n) x (y ∷ zs) ys h = drop-suc n x zs ys h

all-Allowed : (s : Text) → Allowed false s
all-Allowed [] = tt
all-Allowed (c ∷ cs) = (refl, all-Allowed cs)

abbrev pub apostrophe : ℕ
apostrophe = 39

-- The lexer behind a string with the text `s`.
abbrev pub behind_string : Lexer → Text → Lexer
behind_string l s = record (reset_token l) {
  type = string_token;
  prefix = apostrophe ∷ [];
  start = l.curr + 1;
  end = l.curr + 1 + length (escape apostrophe s);
  curr = l.curr + 1 + length (escape apostrophe s) + 1;
  line = lines true apostrophe s l.line;
}

string_of :
    (l : Lexer) (s rest : Text)
    → StartsOther apostrophe rest
    → str_token l apostrophe (l.curr + 1) (escape apostrophe s ++ apostrophe ∷ rest)
      ≡ ok (record l {
        type = string_token;
        prefix = apostrophe ∷ [];
        start = l.curr + 1;
        end = l.curr + 1 + length (escape apostrophe s);
        curr = l.curr + 1 + length (escape apostrophe s) + 1;
        line = lines true apostrophe s l.line;
      })
unfolding str_token
string_of l s rest other = ground (
  arith,
  quoted_loop-escape true false apostrophe s rest (l.curr + 1) l.line (all-Allowed s) other,
)

string_slice :
    (l : Lexer) (s rest : Text)
    → drop l.curr l.sql ≡ apostrophe ∷ (escape apostrophe s ++ apostrophe ∷ rest)
    → slice (behind_string l s) ≡ ok (escape apostrophe s)
unfolding slice reset_token
string_slice l s rest h =
    let next : l.curr + 1 ≡ suc l.curr = omega arith in
    let shown = drop-suc l.curr apostrophe l.sql (escape apostrophe s ++ apostrophe ∷ rest) h in
    let size : (l.curr + 1 + length (escape apostrophe s)) - (l.curr + 1)
        ≡ length (escape apostrophe s) =
      omega arith in
    ap ok (
      ap (λ n. take n (drop (l.curr + 1) l.sql)) size
      ∙ ap (λ n. take (length (escape apostrophe s)) (drop n l.sql)) next
      ∙ ap (take (length (escape apostrophe s))) shown
      ∙ take-append (escape apostrophe s) (apostrophe ∷ rest))

-- Where the text from the offset on is a string in apostrophes, with each apostrophe of its text
-- doubled, and no further apostrophe follows it, the next token is that string: its slice is the
-- doubled text, the offset stands behind the closing apostrophe and the line counts the newlines.
pub next_token-string :
    (l : Lexer) (s rest : Text)
    → drop l.curr l.sql ≡ apostrophe ∷ (escape apostrophe s ++ apostrophe ∷ rest)
    → StartsOther apostrophe rest
    → (next_token l true false ≡ ok (behind_string l s))
      × (slice (behind_string l s) ≡ ok (escape apostrophe s))
unfolding next_token next_of dispatch is_blank reset_token
next_token-string l s rest h other = (
  ap (next_of (reset_token l) true) h ∙ string_of (reset_token l) s rest other,
  string_slice l s rest h,
)

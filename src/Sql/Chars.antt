-- ===== src/Sql/Chars.antt =====
-- The tests on characters of sql/parser/sql-lexer.js.
use mycat_js.Prelude.{ℕ, Bool, List, ◌||◌, ◌&&◌, leb, ◌==◌}

abbrev pub Text : Type 0
Text = List ℕ

-- isBlank: space, newline, carriage return, tab, vertical tab, form feed.
unfoldable pub is_blank : ℕ → Bool
is_blank c = c == 32 || c == 10 || c == 13 || c == 9 || c == 11 || c == 12

unfoldable pub is_digit : ℕ → Bool
is_digit c = leb b'0' c && leb c b'9'

-- Letters, `$`, `_` and the characters from U+0080 to U+FFFF.
unfoldable pub is_letter : ℕ → Bool
is_letter c =
    leb b'a' c && leb c b'z'
    || leb b'A' c && leb c b'Z'
    || c == b'$'
    || c == b'_'
    || leb 128 c && leb c 65535

-- What a user variable without quotes is made of.
unfoldable pub is_var_char : ℕ → Bool
unfolding is_digit is_letter
is_var_char c = is_digit c || is_letter c || c == b'.'

-- ===== src/Sql/Scan.antt =====
-- The loops of sql/parser/sql-lexer.js over the text that follows an offset. Each takes that text
-- and the offset where it starts.
pub mod Bounds
pub mod Quotes
use mycat_js.Prelude.{
  ℕ, ◌+◌, ◌≡◌, Bool, true, false, not, ◌&&◌, List, [], ◌∷◌, ◌==◌, if◌then◌else◌, Error,
  unexpected_end, sql_error, Result, ok, err, ◌>>=◌,
}
use mycat_js.Sql.Chars.{Text, is_blank, is_var_char}

abbrev count_line : ℕ → ℕ → ℕ
count_line c line = if c == 10 then line + 1 else line

-- blankToken: the offset of the first character that is no blank, and the line there.
unfoldable pub blank_loop : Text → ℕ → ℕ → ℕ × ℕ
blank_loop [] i line = (i, line)
blank_loop (c ∷ cs) i line =
    let next = blank_loop cs (i + 1) (count_line c line) in if is_blank c then next else (i, line)

-- lineComment: the character before the last one read, the offset behind it, and the line.
unfoldable pub line_comment_loop : Text → ℕ → ℕ → ℕ → ℕ → ℕ × ℕ × ℕ
line_comment_loop [] b c i line = (b, i, line)
line_comment_loop (d ∷ ds) b c i line =
    let next = line_comment_loop ds c d (i + 1) line in
    if d == 10 then (c, i + 1, line + 1) else next

-- multiComment: the variables `b` and `c`, the offset and the line when the loop ends.
unfoldable pub multi_comment_loop : Text → ℕ → ℕ → ℕ → ℕ → ℕ × ℕ × ℕ × ℕ
multi_comment_loop [] b c i line = (b, c, i, line)
multi_comment_loop (x ∷ []) b c i line = (b, x, i + 1, count_line x line)
multi_comment_loop (x ∷ (y ∷ r)) b c i line =
    let behind = multi_comment_loop r x y (i + 2) line in
    let next = multi_comment_loop (y ∷ r) b x (i + 1) (count_line x line) in
    if x == b'*' then (if y == b'/' then (x, y, i + 2, line) else behind) else next

-- The loop of quotedId, strToken and parseUserVar: up to the closing quote `q`, where two quotes
-- stand for one. The offset behind the closing quote, and the line. `counts` says whether it counts
-- lines, and `refuses_nul` whether it refuses the character U+0000.
unfoldable pub quoted_loop : Bool → Bool → ℕ → Text → ℕ → ℕ → Result (ℕ × ℕ)
quoted_loop counts refuses_nul q [] i line = err unexpected_end
quoted_loop counts refuses_nul q (c ∷ []) i line =
    if c == q
    then ok (i + 1, line)
    else if refuses_nul && c == 0
    then err (sql_error i line)
    else err unexpected_end
quoted_loop counts refuses_nul q (c ∷ (d ∷ r)) i line =
    let behind = quoted_loop counts refuses_nul q r (i + 2) line in
    let next =
      quoted_loop counts refuses_nul q (d ∷ r) (i + 1)
        (if counts then count_line c line else line) in
    if c == q
    then (if not (d == q) then ok (i + 1, line) else behind)
    else if refuses_nul && c == 0
    then err (sql_error i line)
    else next

-- parseUserVar without quotes: the offset behind the variable.
unfoldable pub var_loop : Text → ℕ → ℕ
var_loop [] i = i
var_loop (c ∷ cs) i = let next = var_loop cs (i + 1) in if is_var_char c then next else i

-- ===== src/Util/Splitter.antt =====
-- StringSplitter.split of util/string-splitter.js. A text is the list of its UTF-16 code units. The
-- separator is not empty: with an empty one the code's loop does not end.
pub mod Pieces
use mycat_js.Prelude.{
  ℕ, ◌+◌, ◌≡◌, Bool, true, false, ◌&&◌, ◌||◌, List, [], ◌∷◌, ◌++◌, ◌==◌, leb, if◌then◌else◌, Option,
  none, some,
}
use mycat_js.Sql.Chars.{Text}

-- The white space that String.prototype.trim removes.
unfoldable pub is_white : ℕ → Bool
is_white c =
    (leb 9 c && leb c 13)
    || c == 32
    || c == 160
    || c == 5760
    || (leb 8192 c && leb c 8202)
    || c == 8232
    || c == 8233
    || c == 8239
    || c == 8287
    || c == 12288
    || c == 65279

unfoldable pub trim_start : Text → Text
trim_start [] = []
trim_start (c ∷ cs) = if is_white c then trim_start cs else c ∷ cs

unfoldable pub trim_end : Text → Text
trim_end [] = []
trim_end (c ∷ cs) = elim (trim_end cs) [
  | [] ↦ if is_white c then [] else c ∷ []
  | d ∷ ds ↦ c ∷ (d ∷ ds)
]

unfoldable pub trim : Text → Text
trim s = trim_end (trim_start s)

unfoldable pub trim_if : Bool → Text → Text
trim_if true s = trim s
trim_if false s = s

unfoldable pub starts_with : Text → Text → Bool
starts_with [] s = true
starts_with (x ∷ xs) [] = false
starts_with (x ∷ xs) (c ∷ cs) = x == c && starts_with xs cs

-- The loop over `indexOf`: `it` is the text from the last separator to the current offset. A
-- separator found at `i` ends the piece, and the next one starts at `i + 1`.
unfoldable pub split_loop : Text → Bool → Text → Text → List Text
split_loop sep trims it [] = trim_if trims it ∷ []
split_loop sep trims it (c ∷ cs) =
    if starts_with sep (c ∷ cs)
    then trim_if trims it ∷ split_loop sep trims [] cs
    else split_loop sep trims (it ++ c ∷ []) cs

-- `none` is the source's `null`.
unfoldable pub split : Option Text → Text → Bool → Option (List Text)
split none sep trims = none
split (some src) sep trims = some (split_loop sep trims [] (trim_if trims src))

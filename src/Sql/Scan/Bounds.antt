-- ===== src/Sql/Scan/Bounds.antt =====
-- Where the loops stop: inside the text, and behind what they start from.
use mycat_js.Prelude.{ℕ, ◌+◌, ◌≡◌, ◌≤◌, ◌<◌, Bool, [], ◌∷◌, length, ok, arith}
use mycat_js.Sql.Chars.{Text}
use mycat_js.Sql.Scan.{blank_loop, line_comment_loop, multi_comment_loop, quoted_loop, var_loop}

pub blank_loop_bounds :
    (t : Text) (i line : ℕ)
    → (i ≤ (blank_loop t i line).0) × ((blank_loop t i line).0 ≤ i + length t)
unfolding blank_loop
blank_loop_bounds [] i line = omega arith
blank_loop_bounds (c ∷ cs) i line =
    ground (arith, blank_loop_bounds cs (i + 1) (line + 1), blank_loop_bounds cs (i + 1) line)

pub line_comment_loop_bounds :
    (t : Text) (b c i line : ℕ)
    → (i ≤ (line_comment_loop t b c i line).1) × ((line_comment_loop t b c i line).1 ≤ i + length t)
unfolding line_comment_loop
line_comment_loop_bounds [] b c i line = omega arith
line_comment_loop_bounds (d ∷ ds) b c i line =
    ground (arith, line_comment_loop_bounds ds c d (i + 1) line)

pub multi_comment_loop_bounds :
    (t : Text) (b c i line : ℕ)
    → (i ≤ (multi_comment_loop t b c i line).2)
      × ((multi_comment_loop t b c i line).2 ≤ i + length t)
unfolding multi_comment_loop
multi_comment_loop_bounds [] b c i line = omega arith
multi_comment_loop_bounds (x ∷ []) b c i line = omega arith
multi_comment_loop_bounds (x ∷ (y ∷ r)) b c i line = ground (
  arith,
  multi_comment_loop_bounds r x y (i + 2) line,
  multi_comment_loop_bounds (y ∷ r) b x (i + 1) (line + 1),
  multi_comment_loop_bounds (y ∷ r) b x (i + 1) line,
)

pub quoted_loop_bounds :
    (counts nul : Bool) (q : ℕ) (t : Text) (i line j line' : ℕ)
    → quoted_loop counts nul q t i line ≡ ok (j, line')
    → (i < j) × (j ≤ i + length t)
unfolding quoted_loop
quoted_loop_bounds counts nul q [] i line j line' h = cc
quoted_loop_bounds counts nul q (c ∷ []) i line j line' h = ground arith
quoted_loop_bounds counts nul q (c ∷ (d ∷ r)) i line j line' h = ground (
  arith,
  quoted_loop_bounds counts nul q r (i + 2) line j line',
  quoted_loop_bounds counts nul q (d ∷ r) (i + 1) (line + 1) j line',
  quoted_loop_bounds counts nul q (d ∷ r) (i + 1) line j line',
)

pub var_loop_bounds : (t : Text) (i : ℕ) → (i ≤ var_loop t i) × (var_loop t i ≤ i + length t)
unfolding var_loop
var_loop_bounds [] i = omega arith
var_loop_bounds (c ∷ cs) i = ground (arith, var_loop_bounds cs (i + 1))

-- ===== src/Sql/Lexer/Comments.antt =====
-- Where comments end, and which newlines are counted.
use mycat_js.Prelude.{ℕ, ◌+◌, ◌≡◌, ◌≢◌, refl, ◌∙◌, [], ◌∷◌, ◌++◌, length, arith}
use mycat_js.Sql.Chars.{Text}
use mycat_js.Sql.Scan.{multi_comment_loop}
use mycat_js.Sql.Lexer.{Lexer, multi_comment}

-- A text without the character.
abbrev pub Lacks : ℕ → Text → Type 0
Lacks a [] = Unit {0}
Lacks a (c ∷ cs) = (c ≢ a) × Lacks a cs

no_star_runs_on :
    (t : Text) (b c i line : ℕ) → Lacks b'*' t → (multi_comment_loop t b c i line).2 ≡ i + length t
unfolding multi_comment_loop
no_star_runs_on [] b c i line h = omega arith
no_star_runs_on (x ∷ []) b c i line h = omega arith
no_star_runs_on (x ∷ (y ∷ r)) b c i line h = ground (
  arith,
  no_star_runs_on (y ∷ r) b x (i + 1) (line + 1),
  no_star_runs_on (y ∷ r) b x (i + 1) line,
)

slash_other : ◌≢◌ {A = ℕ} b'/' b'*'
slash_other = omega arith

closing_run :
    (t rest : Text) (b c i line : ℕ)
    → Lacks b'*' t
    → let r = multi_comment_loop (t ++ b'*' ∷ (b'/' ∷ rest)) b c i line in
      (r.0 ≡ b'*') × (r.1 ≡ b'/') × (r.2 ≡ i + length t + 2)
unfolding multi_comment_loop
closing_run [] rest b c i line h = (refl, refl, omega arith)
closing_run (x ∷ []) rest b c i line h =
    ground (
      arith,
      closing_run [] rest b x (i + 1) (line + 1) tt,
      closing_run [] rest b x (i + 1) line tt,
    )
closing_run (x ∷ (y ∷ r)) rest b c i line h = ground (
  arith,
  closing_run (y ∷ r) rest b x (i + 1) (line + 1),
  closing_run (y ∷ r) rest b x (i + 1) line,
)

stars_run :
    (t rest : Text) (b c i line : ℕ)
    → Lacks b'*' t
    → Lacks b'*' rest
    → (multi_comment_loop (t ++ b'*' ∷ (b'*' ∷ (b'/' ∷ rest))) b c i line).2
      ≡ i + length t + 3 + length rest
unfolding multi_comment_loop
stars_run [] rest b c i line h k =
    no_star_runs_on (b'/' ∷ rest) b'*' b'*' (i + 2) line (slash_other, k) ∙ omega arith
stars_run (x ∷ []) rest b c i line h k =
    ground (
      arith,
      stars_run [] rest b x (i + 1) (line + 1) tt k,
      stars_run [] rest b x (i + 1) line tt k,
    )
stars_run (x ∷ (y ∷ r)) rest b c i line h k =
    ground (
      arith,
      stars_run (y ∷ r) rest b x (i + 1) (line + 1),
      stars_run (y ∷ r) rest b x (i + 1) line,
    )

-- A comment whose text has no star closes at one star with a slash behind it: the offset then
-- stands behind the slash, and the comment ends in front of the star. At two stars with a slash
-- behind them it does not close: the offset then stands behind the rest of the text, where that
-- has no star.
pub multi_comment_stars :
    (l : Lexer) (c i : ℕ) (body rest : Text)
    → Lacks b'*' body
    → Lacks b'*' rest
    → let one = multi_comment l c i (body ++ b'*' ∷ (b'/' ∷ rest)) in
      let two = multi_comment l c i (body ++ b'*' ∷ (b'*' ∷ (b'/' ∷ rest))) in
      (one.curr ≡ i + length body + 2)
      × (one.end ≡ i + length body)
      × (two.curr ≡ i + length body + 3 + length rest)
unfolding multi_comment
multi_comment_stars l c i body rest h k =
    let (at, ends) : ((multi_comment l c i (body ++ b'*' ∷ (b'/' ∷ rest))).curr
          ≡ i + length body + 2)
        × ((multi_comment l c i (body ++ b'*' ∷ (b'/' ∷ rest))).end ≡ i + length body) =
      ground (arith, closing_run body rest 0 c i l.line h) in
    (at, ends, stars_run body rest 0 c i l.line h k)

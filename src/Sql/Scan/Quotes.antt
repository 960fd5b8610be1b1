-- ===== src/Sql/Scan/Quotes.antt =====
-- Text in quotes, in which a quote is doubled, is scanned up to its closing quote.
use mycat_js.Prelude.{
  ℕ, ◌+◌, ◌≡◌, ◌≢◌, ◌∙◌, Bool, false, not, ◌&&◌, [], ◌∷◌, ◌++◌, length, ◌==◌, if◌then◌else◌, ok,
  arith, Bool-cases, inl, inr,
}
use mycat_js.Sql.Chars.{Text}
use mycat_js.Sql.Scan.{quoted_loop, count_line}

-- The text as it stands between the quotes.
unfoldable pub escape : ℕ → Text → Text
escape q [] = []
escape q (c ∷ cs) = if c == q then c ∷ (c ∷ escape q cs) else c ∷ escape q cs

-- The line behind a text, by the characters that are no quotes.
unfoldable pub lines : Bool → ℕ → Text → ℕ → ℕ
lines counts q [] line = line
lines counts q (c ∷ cs) line =
    lines counts q cs (if counts && not (c == q) then count_line c line else line)

-- The characters that the scan refuses.
abbrev pub Allowed : Bool → Text → Type 0
Allowed nul [] = Unit {0}
Allowed nul (c ∷ cs) = ((nul && c == 0) ≡ false) × Allowed nul cs

-- What follows the closing quote is no further quote.
abbrev pub StartsOther : ℕ → Text → Type 0
StartsOther q [] = Unit {0}
StartsOther q (d ∷ r) = d ≢ q

quoted_loop_other :
    (counts nul : Bool) (q c : ℕ) (t : Text) (i line : ℕ)
    → (c == q) ≡ false
    → (nul && c == 0) ≡ false
    → quoted_loop counts nul q (c ∷ t) i line
      ≡ quoted_loop counts nul q t (i + 1) (if counts then count_line c line else line)
unfolding quoted_loop
quoted_loop_other counts nul q c [] i line h k = rw (h, k)
quoted_loop_other counts nul q c (d ∷ r) i line h k = rw (h, k)

quoted_loop_pair :
    (counts nul : Bool) (q : ℕ) (t : Text) (i line : ℕ)
    → quoted_loop counts nul q (q ∷ (q ∷ t)) i line ≡ quoted_loop counts nul q t (i + 2) line
unfolding quoted_loop
quoted_loop_pair counts nul q t i line = ground arith

quoted_loop_close :
    (counts nul : Bool) (q : ℕ) (rest : Text) (i line : ℕ)
    → StartsOther q rest
    → quoted_loop counts nul q (q ∷ rest) i line ≡ ok (i + 1, line)
unfolding quoted_loop
quoted_loop_close counts nul q [] i line h = ground arith
quoted_loop_close counts nul q (d ∷ r) i line h = ground arith

-- The scan of a text whose quotes are doubled, without characters that the scan refuses and with
-- no further quote behind the closing one, stops behind the closing quote and counts the lines of
-- the text.
pub quoted_loop-escape :
    (counts nul : Bool) (q : ℕ) (s rest : Text) (i line : ℕ)
    → Allowed nul s
    → StartsOther q rest
    → quoted_loop counts nul q (escape q s ++ q ∷ rest) i line
      ≡ ok (i + length (escape q s) + 1, lines counts q s line)
unfolding escape lines
quoted_loop-escape counts nul q [] rest i line allowed h =
    quoted_loop_close counts nul q rest i line h ∙ ground arith
quoted_loop-escape counts nul q (c ∷ cs) rest i line allowed h = elim (Bool-cases (c == q)) [
  | inl e ↦ ground (
    arith,
    quoted_loop_pair counts nul q (escape q cs ++ q ∷ rest) i line,
    quoted_loop-escape counts nul q cs rest (i + 2) line allowed.1 h,
  )
  | inr e ↦ ground (
    arith,
    quoted_loop_other counts nul q c (escape q cs ++ q ∷ rest) i line e allowed.0,
    quoted_loop-escape counts nul q cs rest (i + 1) (if counts then count_line c line else line)
        allowed.1 h,
  )
]

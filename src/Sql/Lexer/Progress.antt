-- ===== src/Sql/Lexer/Progress.antt =====
-- A token is taken from the text that is left, and blanks and comments take some of it.
use mycat_js.Prelude.{
  ℕ, zero, suc, ◌+◌, ◌≡◌, ◌≤◌, ◌<◌, ◌≢◌, ◌||◌, Bool, true, false, [], ◌∷◌, none, length, refl, ok,
  err, arith, Result, >>=-eq-ok, Bool-cases, inl, inr, ◌==◌, drop, length-drop, if◌then◌else◌, ap,
}
use mycat_js.Sql.Chars.{Text}
use mycat_js.Sql.Scan.{quoted_loop}
use mycat_js.Sql.Scan.Bounds.{
  blank_loop_bounds, line_comment_loop_bounds, multi_comment_loop_bounds, quoted_loop_bounds,
  var_loop_bounds,
}
use mycat_js.Sql.Number.{TokenType, sign_token, op_ari_token, parse_token}
use mycat_js.Sql.Number.Digits.{parse_token_bounds, moves_on}
use mycat_js.Sql.Lexer.{
  Lexer, one_char, blank_token_at, line_comment, multi_comment, quoted_id, str_token,
  parse_user_var, word_token, dash_token, first_token, skip_from, next_of, reset_token, slash_token,
  dispatch, next_token, is_skipped, skip_loop, token,
}

-- The lexer stands between two offsets, beyond the first behind a blank, a comment or a sign.
record Moves (l : Lexer) (lo hi : ℕ) (m : Lexer) : Type 0 where
  same_sql : m.sql ≡ l.sql
  from : lo + (if moves_on m.type then 1 else 0) ≤ m.curr
  upto : m.curr ≤ hi

one_char-Moves :
    (l : Lexer) (t : TokenType) (p : ℕ) (prefix : Text) (hi : ℕ)
    → p < hi
    → Moves l p hi (one_char l t p prefix)
unfolding one_char
one_char-Moves l t p prefix hi h = ground arith

blank_token_at-Moves :
    (l : Lexer) (c p : ℕ) (t : Text) → Moves l p (p + 1 + length t) (blank_token_at l c (p + 1) t)
unfolding blank_token_at
blank_token_at-Moves l c p t = ground (arith, blank_loop_bounds t (p + 1) l.line)

line_comment-Moves :
    (l : Lexer) (prefix : Text) (c p i : ℕ) (t : Text)
    → p < i
    → Moves l p (i + length t) (line_comment l prefix c i t)
unfolding line_comment
line_comment-Moves l prefix c p i t h = ground (arith, line_comment_loop_bounds t 0 c i l.line)

multi_comment-Moves :
    (l : Lexer) (c p i : ℕ) (t : Text) → p < i → Moves l p (i + length t) (multi_comment l c i t)
unfolding multi_comment
multi_comment-Moves l c p i t h = ground (arith, multi_comment_loop_bounds t 0 c i l.line)

quoted_id-Moves :
    (l : Lexer) (c p : ℕ) (t : Text) (m : Lexer)
    → quoted_id l c (p + 1) t ≡ ok m
    → Moves l p (p + 1 + length t) m
unfolding quoted_id
quoted_id-Moves l c p t m h =
    let ((j, line), e, f) =
      >>=-eq-ok {Value = ℕ × ℕ}
        (quoted_loop true true (if c == b'[' then b']' else c) t (p + 1) l.line) _ h in
    ground (arith, f, quoted_loop_bounds true true _ t (p + 1) l.line j line e)

str_token-Moves :
    (l : Lexer) (c p : ℕ) (t : Text) (m : Lexer)
    → str_token l c (p + 1) t ≡ ok m
    → Moves l p (p + 1 + length t) m
unfolding str_token
str_token-Moves l c p t m h =
    let ((j, line), e, f) =
      >>=-eq-ok {Value = ℕ × ℕ} (quoted_loop true false c t (p + 1) l.line) _ h in
    ground (arith, f, quoted_loop_bounds true false c t (p + 1) l.line j line e)

word_token-Moves :
    (l : Lexer) (c p : ℕ) (t : Text) (m : Lexer)
    → word_token l c p t ≡ ok m
    → Moves l p (p + length t) m
unfolding word_token
word_token-Moves l c p t m h =
    let ((u, j), e, f) = >>=-eq-ok {Value = TokenType × ℕ} (parse_token l.sql p l.line t) _ h in
    ground (arith, f, parse_token_bounds l.sql p l.line t u j e)

dash_token-Moves :
    (l : Lexer) (p : ℕ) (t : Text) (m : Lexer)
    → dash_token l p t ≡ ok m
    → Moves l p (p + 1 + length t) m
unfolding dash_token
dash_token-Moves l p [] m h = cc
dash_token-Moves l p (d ∷ ds) m h = ground (
  arith,
  line_comment-Moves l (b'-' ∷ b'-' ∷ []) d p (p + 2) ds,
  one_char-Moves l op_ari_token p (b'-' ∷ []) (p + 2 + length ds),
)

slash_token-Moves :
    (l : Lexer) (p : ℕ) (t : Text) (m : Lexer)
    → slash_token l p t ≡ ok m
    → Moves l p (p + 1 + length t) m
unfolding slash_token
slash_token-Moves l p [] m h = cc
slash_token-Moves l p (d ∷ ds) m h = ground (
  arith,
  line_comment-Moves l (b'/' ∷ b'/' ∷ []) d p (p + 2) ds,
  multi_comment-Moves l d p (p + 2) ds,
  one_char-Moves l op_ari_token p (b'/' ∷ []) (p + 2 + length ds),
)

record Ends (l : Lexer) (p hi : ℕ) (r : Result Lexer) : Type 0 where
  moves : (m : Lexer) → r ≡ ok m → Moves l p hi m

if-Ends :
    {l : Lexer} {p hi : ℕ} (b : Bool) {r s : Result Lexer}
    → Ends l p hi r
    → Ends l p hi s
    → Ends l p hi (if b then r else s)
if-Ends true e f = e
if-Ends false e f = f

ok-Ends : {l : Lexer} {p hi : ℕ} {m : Lexer} → Moves l p hi m → Ends l p hi (ok m)
ok-Ends w = record { moves = λ n h. ground arith }

dispatch-Ends : (l : Lexer) (p c : ℕ) (cs : Text) → Ends l p (p + 1 + length cs) (dispatch l p c cs)
unfolding dispatch
dispatch-Ends l p c cs =
    if-Ends _ (record { moves = dash_token-Moves l p cs })
      (if-Ends _ (ok-Ends (line_comment-Moves l (b'#' ∷ []) c p (p + 1) cs (omega arith))) (
        if-Ends _ (record { moves = slash_token-Moves l p cs })
          (if-Ends _ (ok-Ends (blank_token_at-Moves l c p cs)) (
            if-Ends _ (record { moves = quoted_id-Moves l c p cs })
              (if-Ends _ (ok-Ends (one_char-Moves l sign_token p (c ∷ []) _ (omega arith))) (
                if-Ends _ (record { moves = str_token-Moves l c p cs })
                  (if-Ends _ (ok-Ends (one_char-Moves l op_ari_token p (c ∷ []) _ (omega arith))) (
                    if-Ends _ (ok-Ends (one_char-Moves l sign_token p (c ∷ []) _ (omega arith)))
                      word))))))))
  where
    word : Ends l p (p + 1 + length cs) (word_token l c p (c ∷ cs))
    word = record {
      moves = λ m h.
          let w = word_token-Moves l c p (c ∷ cs) m h in
          record { same_sql = w.same_sql; from = w.from; upto = omega (arith, w.upto) };
    }

user_var-Moves :
    (l : Lexer) (p : ℕ) (t : Text) (m : Lexer)
    → parse_user_var l p t ≡ ok m
    → Moves l p (p + length t) m
unfolding parse_user_var
user_var-Moves l p [] m h = ground arith
user_var-Moves l p (c ∷ cs) m h = elim (Bool-cases (c == b'`' || c == 39 || c == b'"')) [
  | inl e ↦
      let ((j, line), f, g) =
        >>=-eq-ok {Value = ℕ × ℕ} (quoted_loop false false c cs (p + 1) l.line) _ (rw e at h) in
      ground (arith, g, quoted_loop_bounds false false c cs (p + 1) l.line j line f)
  | inr e ↦ ground (arith, rw e at h, var_loop_bounds (c ∷ cs) p)
]

next_of-Moves :
    (l : Lexer) (check_eos : Bool) (t : Text) (m : Lexer)
    → next_of l check_eos t ≡ ok m
    → Moves l l.curr (l.curr + length t) m
unfolding next_of
next_of-Moves l true [] m h = ground arith
next_of-Moves l false [] m h = cc
next_of-Moves l check_eos (c ∷ cs) m h =
    let w = (dispatch-Ends l l.curr c cs).moves m h in
    record { same_sql = w.same_sql; from = w.from; upto = omega (arith, w.upto) }

-- From an offset within the text, a next token is taken from the same text: the lexer does not go
-- back, it stays within the text, and it moves on by a character at least where the token is a
-- blank, a comment or a sign.
pub next_token_moves :
    (l : Lexer) (check_eos user_var : Bool) (m : Lexer)
    → l.curr ≤ length l.sql
    → next_token l check_eos user_var ≡ ok m
    → (m.sql ≡ l.sql)
      × (l.curr + (if moves_on m.type then 1 else 0) ≤ m.curr)
      × (m.curr ≤ length l.sql)
unfolding next_token
next_token_moves l check_eos true m inside h =
    let w = user_var-Moves (reset_token l) l.curr (drop l.curr l.sql) m h in
    (w.same_sql, w.from, omega (arith, w.upto, length-drop l.curr l.sql))
next_token_moves l check_eos false m inside h =
    let w = next_of-Moves (reset_token l) check_eos (drop l.curr l.sql) m h in
    (w.same_sql, w.from, omega (arith, w.upto, length-drop l.curr l.sql))

skipped_moves : (t : TokenType) → is_skipped t ≡ true → moves_on t ≡ true
skipped_moves t h = ground arith

skip_loop_stops :
    (fuel : ℕ) (l : Lexer) (check_eos user_var : Bool)
    → 0 < fuel
    → is_skipped l.type ≡ false
    → skip_loop fuel l check_eos user_var ≢ none
unfolding skip_loop
skip_loop_stops zero l check_eos user_var h e = absurd (omega arith)
skip_loop_stops (suc fuel) l check_eos user_var h e = rw e (λ n. cc)

-- One round, where the next token is known.
skip_round :
    (fuel : ℕ) (l : Lexer) (check_eos user_var : Bool) (r : Result Lexer)
    → next_token l check_eos user_var ≡ r
    → l.curr ≤ length l.sql
    → length l.sql < fuel + l.curr
    → ((m : Lexer)
        → m.curr ≤ length m.sql
        → length m.sql + 1 < fuel + m.curr
        → skip_loop fuel m check_eos user_var ≢ none)
    → skip_loop (suc fuel) l check_eos user_var ≢ none
unfolding skip_loop
skip_round fuel l check_eos user_var (err e) h inside enough ih = ground (arith, h)
skip_round fuel l check_eos user_var (ok m) h inside enough ih =
    let (same, from, upto) = next_token_moves l check_eos user_var m inside h in
    let size : length m.sql ≡ length l.sql = ap length same in
    elim (Bool-cases (is_skipped m.type)) [
      | inl e ↦
          let from' : l.curr + 1 ≤ m.curr = rw (skipped_moves m.type e) at from in
          ground (arith, h, ih m (omega arith) (omega arith))
      | inr e ↦ ground (arith, h, skip_loop_stops fuel m check_eos user_var (omega arith) e)
    ]

pub skip_loop_ends :
    (fuel : ℕ) (l : Lexer) (check_eos user_var : Bool)
    → l.curr ≤ length l.sql
    → length l.sql + 1 < fuel + l.curr
    → skip_loop fuel l check_eos user_var ≢ none
skip_loop_ends zero l check_eos user_var inside enough = absurd (omega arith)
skip_loop_ends (suc fuel) l check_eos user_var inside enough =
    skip_round fuel l check_eos user_var (next_token l check_eos user_var) refl inside (omega arith)
      (λ m i n. skip_loop_ends fuel m check_eos user_var i n)

first_token_moves :
    (l : Lexer) (check_eos user_var : Bool) (m : Lexer)
    → l.curr ≤ length l.sql
    → first_token l check_eos user_var ≡ ok m
    → (m.sql ≡ l.sql) × (m.curr ≤ length l.sql)
unfolding first_token
first_token_moves l check_eos user_var m inside h =
    ground (arith, next_token_moves l check_eos user_var m inside)

skip_from_ends :
    (l : Lexer) (check_eos skip_bc user_var : Bool) (r : Result Lexer)
    → ((m : Lexer) → r ≡ ok m → (m.sql ≡ l.sql) × (m.curr ≤ length l.sql))
    → skip_from (length l.sql + 2) check_eos skip_bc user_var r ≢ none
unfolding skip_from
skip_from_ends l check_eos skip_bc user_var (err e) h = λ n. cc
skip_from_ends l check_eos false user_var (ok m) h = λ n. cc
skip_from_ends l check_eos true user_var (ok m) h =
    let (same, upto) = h m refl in
    let size : length m.sql ≡ length l.sql = ap length same in
    skip_loop_ends (length l.sql + 2) m check_eos user_var (omega arith) (omega arith)

-- From an offset within the text, `token` ends: it never skips more blanks and comments than the
-- text has characters, so its fuel is enough.
pub token_ends :
    (l : Lexer) (check_eos skip_bc user_var : Bool)
    → l.curr ≤ length l.sql
    → token l check_eos skip_bc user_var ≢ none
unfolding token
token_ends l check_eos skip_bc user_var inside =
    skip_from_ends l check_eos skip_bc user_var (first_token l check_eos user_var)
      (λ m h. first_token_moves l check_eos user_var m inside h)

-- ===== src/Sql/Lexer/Reach.antt =====
-- What the lexer gives stands in the same text, and not before the offset where it was.
use mycat_js.Prelude.{
  ℕ, zero, suc, ◌+◌, ◌≡◌, ◌≢◌, ◌≤◌, Bool, true, false, Option, none, some, length, ap, ◌∙◌, refl,
  ok, err, arith, Result, if◌then◌else◌, Bool-cases, inl, inr,
}
use mycat_js.Sql.Chars.{Text}
use mycat_js.Sql.Number.Digits.{moves_on}
use mycat_js.Sql.Lexer.{
  Lexer, next_token, first_token, skip_from, skip_loop, is_skipped, token, skip_blank_comment,
}
use mycat_js.Sql.Lexer.Progress.{next_token_moves, skip_loop_ends}

-- The lexer is in the same text, at the offset or behind it, with a character of its own taken by
-- a token that takes one.
abbrev pub Reads : Text → ℕ → Lexer → Type 0
Reads sql lo l =
    (l.sql ≡ sql) × (lo + (if moves_on l.type then 1 else 0) ≤ l.curr) × (l.curr ≤ length sql)

-- What the lexer gives is in reach of the offset.
abbrev pub Found : Text → ℕ → Result Lexer → Type 0
Found sql lo (err e) = Unit {0}
Found sql lo (ok l) = Reads sql lo l

abbrev pub Called : Text → ℕ → Option (Result Lexer) → Type 0
Called sql lo none = Unit {0}
Called sql lo (some r) = Found sql lo r

-- The lexer is in the same text, at the offset or behind it.
abbrev pub At : Text → ℕ → Lexer → Type 0
At sql lo l = (l.sql ≡ sql) × (lo ≤ l.curr) × (l.curr ≤ length sql)

pub Reads-At : (sql : Text) (lo : ℕ) (l : Lexer) → Reads sql lo l → At sql lo l
Reads-At sql lo l (same, from, upto) = (same, omega arith, upto)

pub next_token-Found :
    (sql : Text) (lo : ℕ) (l : Lexer) (check_eos user_var : Bool) (r : Result Lexer)
    → At sql lo l
    → next_token l check_eos user_var ≡ r
    → Found sql lo r
next_token-Found sql lo l check_eos user_var (err e) w h = tt
next_token-Found sql lo l check_eos user_var (ok m) (same, from, upto) h =
    let size : length l.sql ≡ length sql = ap length same in
    let (same', from', upto') = next_token_moves l check_eos user_var m (omega arith) h in
    (same' ∙ same, omega arith, omega arith)

skip_loop-Called :
    (sql : Text) (lo fuel : ℕ) (l : Lexer) (check_eos user_var : Bool)
    → Reads sql lo l
    → Called sql lo (skip_loop fuel l check_eos user_var)
unfolding skip_loop
skip_loop-Called sql lo zero l check_eos user_var w = tt
skip_loop-Called sql lo (suc fuel) l check_eos user_var w = elim (Bool-cases (is_skipped l.type)) [
  | inl e ↦ rw (e) (
      behind (next_token l check_eos user_var)
        (next_token-Found sql lo l check_eos user_var (next_token l check_eos user_var)
          (Reads-At sql lo l w) refl)
        (λ m v. skip_loop-Called sql lo fuel m check_eos user_var v))
  | inr e ↦ rw (e) w
]
  where
    behind :
        (r : Result Lexer)
        → Found sql lo r
        → ((m : Lexer) → Reads sql lo m → Called sql lo (skip_loop fuel m check_eos user_var))
        → Called sql lo
            (elim r [ err e ↦ some (err e) | ok m ↦ skip_loop fuel m check_eos user_var ])
    behind (err e) v k = tt
    behind (ok m) v k = k m v

first_token-Found :
    (sql : Text) (lo : ℕ) (l : Lexer) (check_eos user_var : Bool)
    → Reads sql lo l
    → Found sql lo (first_token l check_eos user_var)
unfolding first_token
first_token-Found sql lo l check_eos user_var w = ground (
  arith,
  next_token-Found sql lo l check_eos user_var (next_token l check_eos user_var)
      (Reads-At sql lo l w) refl,
)

skip_from-Called :
    (sql : Text) (lo fuel : ℕ) (check_eos skip_bc user_var : Bool) (r : Result Lexer)
    → Found sql lo r
    → Called sql lo (skip_from fuel check_eos skip_bc user_var r)
unfolding skip_from
skip_from-Called sql lo fuel check_eos skip_bc user_var (err e) w = tt
skip_from-Called sql lo fuel check_eos false user_var (ok m) w = w
skip_from-Called sql lo fuel check_eos true user_var (ok m) w =
    skip_loop-Called sql lo fuel m check_eos user_var w

pub token-Called :
    (sql : Text) (lo : ℕ) (l : Lexer) (check_eos skip_bc user_var : Bool)
    → Reads sql lo l
    → Called sql lo (token l check_eos skip_bc user_var)
unfolding token
token-Called sql lo l check_eos skip_bc user_var w =
    skip_from-Called sql lo (length l.sql + 2) check_eos skip_bc user_var
      (first_token l check_eos user_var) (first_token-Found sql lo l check_eos user_var w)

abbrev pub Skipped : Text → ℕ → Option (Result (Bool × Lexer)) → Type 0
Skipped sql lo none = ⊥
Skipped sql lo (some (err e)) = Unit {0}
Skipped sql lo (some (ok (b, l))) = Reads sql lo l

with_skipped : Bool → Option (Result Lexer) → Option (Result (Bool × Lexer))
with_skipped b none = none
with_skipped b (some (err e)) = some (err e)
with_skipped b (some (ok l)) = some (ok (b, l))

with_skipped-Skipped :
    (sql : Text) (lo : ℕ) (b : Bool) (o : Option (Result Lexer))
    → o ≢ none
    → Called sql lo o
    → Skipped sql lo (with_skipped b o)
unfolding with_skipped
with_skipped-Skipped sql lo b none h w = h refl
with_skipped-Skipped sql lo b (some (err e)) h w = tt
with_skipped-Skipped sql lo b (some (ok l)) h w = w

behind_first : ℕ → Result Lexer → Option (Result (Bool × Lexer))
behind_first fuel (err e) = some (err e)
behind_first fuel (ok m) = with_skipped (is_skipped m.type) (skip_loop fuel m true false)

skip_blank_comment_lem :
    (l : Lexer) → skip_blank_comment l ≡ behind_first (length l.sql + 2) (next_token l true false)
unfolding skip_blank_comment behind_first with_skipped
skip_blank_comment_lem l = refl

behind_first-Skipped :
    (sql : Text) (lo : ℕ) (r : Result Lexer)
    → Found sql lo r
    → Skipped sql lo (behind_first (length sql + 2) r)
unfolding behind_first
behind_first-Skipped sql lo (err e) w = tt
behind_first-Skipped sql lo (ok m) w =
    let size : length m.sql ≡ length sql = ap length w.0 in
    with_skipped-Skipped sql lo (is_skipped m.type) (skip_loop (length sql + 2) m true false)
      (skip_loop_ends (length sql + 2) m true false (omega (arith, size, w.2))
        (omega (arith, size)))
      (skip_loop-Called sql lo (length sql + 2) m true false w)

-- skipBlankComment ends, in reach of the offset.
pub skip_blank_comment-Skipped :
    (sql : Text) (lo : ℕ) (l : Lexer) → Reads sql lo l → Skipped sql lo (skip_blank_comment l)
skip_blank_comment-Skipped sql lo l w =
    rw (skip_blank_comment_lem l, ap length w.0)
      (behind_first-Skipped sql lo (next_token l true false)
        (next_token-Found sql lo l true false (next_token l true false) (Reads-At sql lo l w) refl))

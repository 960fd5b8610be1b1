-- ===== src/Sql/Number.antt =====
-- parseToken of sql/parser/sql-lexer.js: a number, an identifier, or the sign `.`.
pub mod Digits
pub mod Integers
use mycat_js.Prelude.{
  ℕ, ◌+◌, ◌-◌, ◌≡◌, Bool, true, false, not, ◌&&◌, ◌||◌, List, [], ◌∷◌, Option, none, some, ◌==◌,
  ltb, if◌then◌else◌, Error, sql_error, unexpected_end, Result, ok, err, ◌>>=◌, take, drop,
  get_elem?, length,
}
use mycat_js.Sql.Chars.{Text, is_digit, is_letter}

pub data TokenType : Type 0 where
  undefined_token id_token int_token bigint_token double_token string_token : TokenType
  sign_token blank_token comment_token eos_token user_var_token op_ari_token : TokenType

-- The variables of the loop. -1 is `none`; `zeros` is `zi` + 1, the offset behind the zeros that
-- the number starts with.
pub record Scan : Type 0 where
  pub i : ℕ
  pub isn : Bool
  pub di : Option ℕ
  pub zeros : ℕ
  pub ei : Option ℕ
  pub si : Option ℕ

-- How a round of the loop ends: it goes on, it breaks, it returns the sign, or it throws.
pub data Round : Type 0 where
  goes_on breaks : Scan → Round
  returns_sign : ℕ → Round
  throws_at : ℕ → Round

abbrev pub is_at : Option ℕ → ℕ → Bool
is_at none n = false
is_at (some k) n = k == n

abbrev pub is_set : Option ℕ → Bool
is_set none = false
is_set (some k) = true

on_digit : ℕ → ℕ → Scan → Round
on_digit p c s = goes_on (record s {
  isn = s.isn || s.i == p + 1;
  zeros = if c == b'0' && s.zeros + 1 == s.i then s.i else s.zeros;
})

on_point : ℕ → Scan → Round
on_point p s =
    if is_set s.di
    then throws_at (s.i - 1)
    else if s.isn || s.i == p + 1
    then goes_on (record s { di = some (s.i - 1) })
    else breaks (record s { i = s.i - 1 })

-- `isn` and `ei` behind a letter
letter_seen : ℕ → Scan → Scan
letter_seen c s =
    if (c == b'e' || c == b'E') && (s.isn && not (is_set s.ei))
    then record s { ei = some (s.i - 1) }
    else record s { isn = false }

on_letter : ℕ → ℕ → Scan → Round
unfolding letter_seen
on_letter p c s =
    let t = letter_seen c s in
    if not t.isn && is_set t.di
    then (if is_at t.di (p + 1) then returns_sign (s.i - 1) else throws_at (s.i - 1))
    else goes_on t

on_sign : Scan → Round
on_sign s =
    if is_set s.ei && is_at s.ei (s.i - 2)
    then goes_on (record s { si = some (s.i - 1) })
    else breaks (record s { i = s.i - 1 })

-- The branches on the character `c`, which stands before the offset `i`.
unfoldable pub scan_round : ℕ → ℕ → Scan → Round
unfolding on_digit on_point on_letter on_sign
scan_round p c s =
    if is_digit c
    then on_digit p c s
    else if c == b'.'
    then on_point p s
    else if is_letter c
    then on_letter p c s
    else if c == b'+' || c == b'-'
    then on_sign s
    else breaks (record s { i = s.i - 1 })

-- The loop, from the character before the offset on; the text is what follows the offset.
unfoldable pub scan_loop : ℕ → ℕ → Text → Scan → Round
scan_loop p c [] s = elim (scan_round p c s) [
  | goes_on t ↦ breaks t
  | breaks t ↦ breaks t
  | returns_sign k ↦ returns_sign k
  | throws_at k ↦ throws_at k
]
scan_loop p c (d ∷ ds) s = elim (scan_round p c s) [
  | goes_on t ↦ scan_loop p d ds (record t { i = t.i + 1 })
  | breaks t ↦ breaks t
  | returns_sign k ↦ returns_sign k
  | throws_at k ↦ throws_at k
]

-- `s > t` on strings
unfoldable pub text_gt : Text → Text → Bool
text_gt [] t = false
text_gt (c ∷ cs) [] = true
text_gt (c ∷ cs) (d ∷ ds) = if c == d then text_gt cs ds else ltb d c

-- Number.MAX_SAFE_INTEGER
abbrev pub max_safe_integer : Text
max_safe_integer =
    b'9' ∷ b'0' ∷ b'0' ∷ b'7' ∷ b'1' ∷ b'9' ∷ b'9' ∷ b'2' ∷ b'5' ∷ b'4' ∷ b'7' ∷ b'4' ∷ b'0' ∷ b'9'
    ∷ b'9' ∷ b'1' ∷ []

-- An integer that ends at `stop`: the length is compared first, then the text.
unfoldable pub int_type : Text → ℕ → ℕ → ℕ → TokenType
int_type sql start stop zeros =
    let n = stop + 1 - zeros in
    if ltb 16 n
    then bigint_token
    else if ltb n 16
    then int_token
    else if text_gt (take (stop - start) (drop start sql)) max_safe_integer
    then bigint_token
    else int_token

-- `di > ei`, where both are set
after_exponent : Option ℕ → Option ℕ → Bool
after_exponent (some d) (some e) = ltb e d
after_exponent _ _ = false

-- What follows the loop.
unfoldable pub number_type : Text → ℕ → ℕ → Scan → Result TokenType
unfolding after_exponent
number_type sql start line s =
    if not s.isn
    then ok id_token
    else if after_exponent s.di s.ei
    then (elim s.di as (λ _. Result TokenType) [
      | none ↦ ok id_token
      | some d ↦ err (sql_error d line)
    ])
    else if is_at s.ei (s.i - 1)
    then ok id_token
    else if is_at s.si (s.i - 1)
    then err (sql_error (s.i - 1) line)
    else if is_set s.di || is_set s.ei
    then ok double_token
    else ok (int_type sql start s.i s.zeros)

-- The token's type and its end. `rest` is the text from the start `p` of the token on.
finish : Text → ℕ → ℕ → Round → Result (TokenType × ℕ)
finish sql p line (goes_on s) = do t ← number_type sql p line s; ok (t, s.i)
finish sql p line (breaks s) = do t ← number_type sql p line s; ok (t, s.i)
finish sql p line (returns_sign k) = ok (sign_token, k)
finish sql p line (throws_at k) = err (sql_error k line)

abbrev pub scan_start : ℕ → Scan
scan_start p = record { i = p + 1; isn = false; di = none; zeros = p; ei = none; si = none }

-- A token that starts with a point reads one more character first.
parse_point : Text → ℕ → ℕ → Text → Result (TokenType × ℕ)
parse_point sql p line [] = err unexpected_end
parse_point sql p line (d ∷ ds) =
    if not (is_digit d)
    then ok (sign_token, p + 1)
    else finish sql p line
        (scan_loop p d ds (record (scan_start p) { i = p + 2; isn = true; di = some p }))

unfoldable pub parse_token : Text → ℕ → ℕ → Text → Result (TokenType × ℕ)
unfolding finish parse_point
parse_token sql p line [] = err unexpected_end
parse_token sql p line (c ∷ cs) =
    if c == b'.'
    then parse_point sql p line cs
    else finish sql p line (scan_loop p c cs (scan_start p))

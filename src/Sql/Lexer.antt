-- ===== src/Sql/Lexer.antt =====
-- The class SqlLexer of sql/parser/sql-lexer.js. A call that throws loses the lexer's state.
pub mod Progress
pub mod Reach
pub mod Strings
pub mod Comments
use mycat_js.Prelude.{
  ℕ, zero, suc, ◌+◌, ◌-◌, ◌≡◌, Bool, true, false, not, ◌&&◌, ◌||◌, List, [], ◌∷◌, Option, none,
  some, ◌==◌, ltb, leb, if◌then◌else◌, Error, unexpected_end, no_token, sql_error, Result, ok, err,
  ◌>>=◌, take, drop, get_elem?, length,
}
use mycat_js.Sql.Chars.{Text, is_blank}
use mycat_js.Sql.Scan.{blank_loop, line_comment_loop, multi_comment_loop, quoted_loop, var_loop}
use mycat_js.Sql.Number.{
  TokenType, undefined_token, id_token, int_token, bigint_token, double_token, string_token,
  sign_token, blank_token, comment_token, eos_token, user_var_token, op_ari_token, parse_token,
}

pub record Lexer : Type 0 where
  -- `quotes` of the context: the quote of identifiers beside the backquote.
  pub ctx_quotes : ℕ
  pub sql : Text
  pub curr : ℕ
  pub line : ℕ
  pub type : TokenType
  pub quotes : Option ℕ
  pub prefix : Text
  pub start : ℕ
  pub end : ℕ

unfoldable pub reset_token : Lexer → Lexer
reset_token l = record l { type = undefined_token; quotes = none; prefix = []; start = 0; end = 0 }

unfoldable pub reset : Lexer → Text → Lexer
reset l sql = reset_token (record l { sql = sql; curr = 0; line = 1 })

unfoldable pub eos : Lexer → Bool
eos l = leb (length l.sql) l.curr

unfoldable pub skip : Lexer → ℕ → Lexer
skip l i = record l { curr = l.curr + i }

unfoldable pub char_at : Lexer → ℕ → Result ℕ
char_at l i = elim (get_elem? l.sql i) [ none ↦ err unexpected_end | some c ↦ ok c ]

-- The end of the slice of a syntax error's text: at most `err_max_len` characters.
unfoldable pub error_slice : Lexer → ℕ → ℕ → Text
error_slice l err_max_len i =
    let e = length l.sql in
    let e' = if ltb err_max_len (e - i) then i + err_max_len else e in take (e' - i) (drop i l.sql)

-- `slice` with `uc` false: the text is not put into upper case.
unfoldable pub slice : Lexer → Result Text
slice l = elim l.type [
  | undefined_token ↦ err no_token
  | _ ↦ ok (take (l.end - l.start) (drop l.start l.sql))
]

-- A token that takes its place and type, and the lexer behind it.
unfoldable pub one_char : Lexer → TokenType → ℕ → Text → Lexer
one_char l t p prefix = record l { type = t; prefix = prefix; start = p; end = p + 1; curr = p + 1 }

unfoldable pub blank_token_at : Lexer → ℕ → ℕ → Text → Lexer
blank_token_at l c i rest =
    let (j, line) = blank_loop rest i l.line in
    record l { type = blank_token; prefix = c ∷ []; start = i - 1; end = j; curr = j; line = line }

-- `c` is the character before the offset, `prefix` what started the comment.
unfoldable pub line_comment : Lexer → Text → ℕ → ℕ → Text → Lexer
line_comment l prefix c i rest =
    let (b, j, line) = line_comment_loop rest 0 c i l.line in
    record l {
      type = comment_token;
      prefix = prefix;
      start = i;
      end = if b == 13 then j - 2 else j - 1;
      curr = j;
      line = line;
    }

unfoldable pub multi_comment : Lexer → ℕ → ℕ → Text → Lexer
multi_comment l c i rest =
    let (b, d, j, line) = multi_comment_loop rest 0 c i l.line in
    record l {
      type = comment_token;
      prefix = b'/' ∷ b'*' ∷ [];
      start = i;
      end = if b == b'*' && d == b'/' then j - 2 else j;
      curr = j;
      line = line;
    }

-- `[` closes with `]`, every other quote with itself.
unfoldable pub quoted_id : Lexer → ℕ → ℕ → Text → Result Lexer
quoted_id l c i rest = do
  (j, line) ← quoted_loop true true (if c == b'[' then b']' else c) rest i l.line
  ok (record l {
    type = id_token;
    quotes = some c;
    prefix = c ∷ [];
    start = i;
    end = j - 1;
    curr = j;
    line = line;
  })

unfoldable pub str_token : Lexer → ℕ → ℕ → Text → Result Lexer
str_token l c i rest = do
  (j, line) ← quoted_loop true false c rest i l.line
  ok (record l {
    type = string_token;
    prefix = c ∷ [];
    start = i;
    end = j - 1;
    curr = j;
    line = line;
  })

-- The rest is the text from the offset on.
unfoldable pub parse_user_var : Lexer → ℕ → Text → Result Lexer
parse_user_var l p [] = ok (record l { type = user_var_token; start = p; end = p; curr = p })
parse_user_var l p (c ∷ cs) =
    if c == b'`' || c == 39 || c == b'"'
    then (quoted_loop false false c cs (p + 1) l.line >>= λ (j, line). ok (record l {
      type = user_var_token;
      quotes = some c;
      prefix = c ∷ [];
      start = p + 1;
      end = j - 1;
      curr = j;
    }))
    else (let j = var_loop (c ∷ cs) p in
        ok (record l { type = user_var_token; prefix = c ∷ []; start = p; end = j; curr = j }))

-- A number, an identifier or a point, whose prefix is its first character.
unfoldable pub word_token : Lexer → ℕ → ℕ → Text → Result Lexer
word_token l c p text = do
  (t, j) ← parse_token l.sql p l.line text
  ok (record l { type = t; prefix = c ∷ []; start = p; end = j; curr = j })

-- `-` and `/` look at the next character.
unfoldable pub dash_token : Lexer → ℕ → Text → Result Lexer
dash_token l p [] = err unexpected_end
dash_token l p (d ∷ ds) = ok (
    if d == b'-'
    then line_comment l (b'-' ∷ b'-' ∷ []) d (p + 2) ds
    else one_char l op_ari_token p (b'-' ∷ []))

unfoldable pub slash_token : Lexer → ℕ → Text → Result Lexer
slash_token l p [] = err unexpected_end
slash_token l p (d ∷ ds) = ok (
    if d == b'/'
    then line_comment l (b'/' ∷ b'/' ∷ []) d (p + 2) ds
    else if d == b'*'
    then multi_comment l d (p + 2) ds
    else one_char l op_ari_token p (b'/' ∷ []))

abbrev pub is_sign : ℕ → Bool
is_sign c =
    c == b'>'
    || c == b'<'
    || c == b'='
    || c == b'!'
    || c == b':'
    || c == b','
    || c == b';'
    || c == b'('
    || c == b')'
    || c == b']'
    || c == b'@'
    || c == b'?'
    || c == b'|'
    || c == b'^'
    || c == b'&'
    || c == b'~'

-- The `switch` on the first character of a token that starts at `p`.
unfoldable pub dispatch : Lexer → ℕ → ℕ → Text → Result Lexer
dispatch l p c cs =
    if c == b'-'
    then dash_token l p cs
    else if c == b'#'
    then ok (line_comment l (b'#' ∷ []) c (p + 1) cs)
    else if c == b'/'
    then slash_token l p cs
    else if is_blank c
    then ok (blank_token_at l c (p + 1) cs)
    else if c == b'`' || (c == b'[' || c == b'"') && c == l.ctx_quotes
    then quoted_id l c (p + 1) cs
    else if c == b'['
    then ok (one_char l sign_token p (c ∷ []))
    else if c == b'"' || c == 39
    then str_token l c (p + 1) cs
    else if c == b'+' || c == b'*' || c == b'%'
    then ok (one_char l op_ari_token p (c ∷ []))
    else if is_sign c
    then ok (one_char l sign_token p (c ∷ []))
    else word_token l c p (c ∷ cs)

next_of : Lexer → Bool → Text → Result Lexer
next_of l check_eos [] =
    if check_eos
    then ok (record l { type = eos_token; start = length l.sql; end = length l.sql })
    else err unexpected_end
next_of l check_eos (c ∷ cs) = dispatch l l.curr c cs

-- nexToken: the lexer behind the next token.
unfoldable pub next_token : Lexer → Bool → Bool → Result Lexer
unfolding reset_token next_of
next_token l check_eos user_var =
    let m = reset_token l in
    if user_var
    then parse_user_var m m.curr (drop m.curr m.sql)
    else next_of m check_eos (drop m.curr m.sql)

abbrev pub is_skipped : TokenType → Bool
is_skipped blank_token = true
is_skipped comment_token = true
is_skipped _ = false

-- The loop that skips blanks and comments. Out of fuel is the outer `none`.
unfoldable pub skip_loop : ℕ → Lexer → Bool → Bool → Option (Result Lexer)
skip_loop zero l check_eos user_var = none
skip_loop (suc fuel) l check_eos user_var =
    if is_skipped l.type
    then elim (next_token l check_eos user_var) [
      | err e ↦ some (err e)
      | ok m ↦ skip_loop fuel m check_eos user_var
    ]
    else some (ok l)

-- The current token, or the next one where it was reset.
unfoldable pub first_token : Lexer → Bool → Bool → Result Lexer
first_token l check_eos user_var = elim l.type [
  | undefined_token ↦ next_token l check_eos user_var
  | _ ↦ ok l
]

skip_from : ℕ → Bool → Bool → Bool → Result Lexer → Option (Result Lexer)
skip_from fuel check_eos skip_bc user_var (err e) = some (err e)
skip_from fuel check_eos skip_bc user_var (ok m) =
    if skip_bc then skip_loop fuel m check_eos user_var else some (ok m)

-- token: the first token behind blanks and comments. Each round of the loop takes a character at
-- least.
unfoldable pub token : Lexer → Bool → Bool → Bool → Option (Result Lexer)
unfolding skip_from
token l check_eos skip_bc user_var =
    skip_from (length l.sql + 2) check_eos skip_bc user_var (first_token l check_eos user_var)

-- skipBlankComment: the next token that is no blank and no comment, and whether there were any.
unfoldable pub skip_blank_comment : Lexer → Option (Result (Bool × Lexer))
skip_blank_comment l = elim (next_token l true false) [
  | err e ↦ some (err e)
  | ok m ↦ elim (skip_loop (length l.sql + 2) m true false) [
    | none ↦ none
    | some (err e) ↦ some (err e)
    | some (ok n) ↦ some (ok (is_skipped m.type, n))
  ]
]

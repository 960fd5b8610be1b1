-- ===== src/Tests/Words.antt =====
-- The lexer and the splitter, at concrete inputs.
use mycat_js.Prelude.{
  replicate, map, drop, ℕ, ◌≡◌, ◌≢◌, ◌≤◌, refl, List, [], ◌∷◌, ◌++◌, true, false, none, some, ok,
  arith,
}
use mycat_js.Sql.Chars.{Text, is_digit, is_letter}
use mycat_js.Sql.Scan.Quotes.{escape}
use mycat_js.Sql.Number.{int_type, undefined_token}
use mycat_js.Sql.Number.Integers.{value, parse_token_digits, int_token_safe}
use mycat_js.Sql.Lexer.{Lexer, next_token, token, slice}
use mycat_js.Sql.Lexer.Progress.{token_ends}
use mycat_js.Sql.Lexer.Strings.{behind_string, next_token-string}
use mycat_js.Runtime.{Bytes}
use mycat_js.Tests.Pools.{runtime, runtime-IsPlatform}
use mycat_js.Util.Compression.{Zlib, IsZlib, decompress_packet, compress_packet}
use mycat_js.Util.Compression.RoundTrip.{decompress_packet-compress_packet}
use mycat_js.Util.Compression.Packets.{concat, frames}
use mycat_js.Sql.Lexer.{multi_comment}
use mycat_js.Sql.Lexer.Comments.{multi_comment_stars}
use mycat_js.Sql.Words.{codes}
use mycat_js.Util.Splitter.{split, trim_if, trim, trim_start, trim_end, is_white}
use mycat_js.Util.Splitter.Pieces.{join, AllLack, split-join}

-- it's
abbrev its : Text
its = 105 ∷ 116 ∷ 39 ∷ 115 ∷ []

abbrev pub at_text : Text → ℕ → Lexer
at_text sql curr = record {
  ctx_quotes = 34;
  sql = sql;
  curr = curr;
  line = 1;
  type = undefined_token;
  quotes = none;
  prefix = [];
  start = 0;
  end = 0;
}

abbrev a_string : Lexer
a_string = at_text (32 ∷ 39 ∷ (escape 39 its ++ 39 ∷ 59 ∷ [])) 1

next_token-string_example :
    (next_token a_string true false ≡ ok (behind_string a_string its))
    × (slice (behind_string a_string its) ≡ ok (105 ∷ 116 ∷ 39 ∷ 39 ∷ 115 ∷ []))
unfolding escape
next_token-string_example = next_token-string a_string its (59 ∷ []) refl (omega arith)

token_ends_example : token (at_text (32 ∷ 35 ∷ 32 ∷ 10 ∷ 45 ∷ []) 0) true true false ≢ none
token_ends_example =
    token_ends (at_text (32 ∷ 35 ∷ 32 ∷ 10 ∷ 45 ∷ []) 0) true true false (omega arith)

-- 120
abbrev digits : Text
digits = 49 ∷ 50 ∷ 48 ∷ []

int_token_safe_example : value 0 digits ≤ 9007199254740991
unfolding int_type is_digit is_letter
int_token_safe_example =
    int_token_safe (digits ++ 32 ∷ []) 0 1 49 3 (50 ∷ 48 ∷ []) (32 ∷ []) refl (omega arith)
      (refl, (refl, tt)) (refl, (refl, omega arith))
      (parse_token_digits (digits ++ 32 ∷ []) 0 1 49 (50 ∷ 48 ∷ []) (32 ∷ []) refl (omega arith)
        (refl, (refl, tt)) (refl, (refl, omega arith)))

-- a.b
split-join_example :
    (ps : List Text) × AllLack 44 ps
    × (join 44 ps ≡ 97 ∷ 44 ∷ 32 ∷ 98 ∷ [])
    × (split (some (97 ∷ 44 ∷ 32 ∷ 98 ∷ [])) (44 ∷ []) true ≡ some (map (trim_if true) ps))
unfolding trim_if trim trim_start trim_end is_white
split-join_example = split-join 44 true (97 ∷ 44 ∷ 32 ∷ 98 ∷ [])

abbrev two_payloads : List (ℕ × Bytes)
two_payloads = (0, 3 ∷ []) ∷ (1, 4 ∷ 5 ∷ []) ∷ []

abbrev one_bundle : Zlib
one_bundle = record { deflate = λ z. []; inflate = λ z. concat (frames two_payloads) }

-- A deflate that adds a byte in front.
abbrev marked_zlib : Zlib
marked_zlib = record { deflate = λ b. 120 ∷ b; inflate = λ b. drop 1 b }

marked_zlib-IsZlib : IsZlib marked_zlib
marked_zlib-IsZlib = record { inflate-deflate = λ b. refl }

abbrev long_payloads : List (ℕ × Bytes)
long_payloads = (0, replicate 1530 7) ∷ (1, 4 ∷ 5 ∷ []) ∷ []

decompress_packet-compress_packet_example :
    (c : Bytes) × (compress_packet runtime marked_zlib (concat (frames long_payloads)) ≡ ok c)
    × (decompress_packet runtime marked_zlib c ≡ some (frames long_payloads))
decompress_packet-compress_packet_example =
    decompress_packet-compress_packet runtime marked_zlib long_payloads
      (concat (frames long_payloads)) runtime-IsPlatform marked_zlib-IsZlib
      (omega arith, (omega arith, tt)) refl (omega arith) (omega arith)

multi_comment_stars_example :
    let one = multi_comment (at_text [] 0) 0 2 (codes "a*/ b") in
    let two = multi_comment (at_text [] 0) 0 2 (codes "a**/ b") in
    (one.curr ≡ 5) × (one.end ≡ 3) × (two.curr ≡ 8)
multi_comment_stars_example =
    multi_comment_stars (at_text [] 0) 0 2 (codes "a") (codes " b") (omega arith, tt)
      (omega arith, (omega arith, tt))

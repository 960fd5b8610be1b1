-- ===== src/Tests/Statements.antt =====
-- The parser, at concrete inputs.
use mycat_js.Prelude.{ℕ, List, ◌≡◌, ◌≢◌, refl, [], ◌∷◌, none, some}
use mycat_js.Sql.Chars.{is_blank, is_digit, is_letter, is_var_char}
use mycat_js.Sql.Number.{id_token, eos_token, int_type, text_gt}
use mycat_js.Sql.Lexer.{
  Lexer, next_token, skip_blank_comment, skip_loop, slice, token, first_token, reset_token,
  dispatch, blank_token_at, word_token, char_at, dash_token, line_comment, multi_comment, one_char,
  parse_user_var, quoted_id, skip, slash_token, str_token,
}
use mycat_js.Sql.Attempt.{done, no_fuel}
use mycat_js.Sql.Words.{codes, ends_blank, is_reserved, among, big_int_from}
use mycat_js.Sql.Tree.{
  Limit, Expr, user_var_expr, visits_user_var, visits_limit, visits_select, Name, Select,
  visits_identifier, max_length_of,
}
use mycat_js.Sql.Parser.{
  Parser, limit_behind, read_token, check_reserved, parse_identifier, skip_blanks, token_text,
  big_int, limit_clause, limit_next, limit_second, parse_scope, parse_select_limit,
  parse_sys_var_expr, parse_user_var_expr, refuse, sys_var_named, token_word,
}
use mycat_js.Sql.Parser.Select.{
  parse, end_select, parse_select, parse_select_exprs, behind_expr, limit_select, parse_select_expr,
  select_behind,
}
use mycat_js.Sql.Parser.Total.{parse_ends}
use mycat_js.Sql.Parser.Names.{Accepted, parse_identifier-Accepted}
use mycat_js.Sql.Parser.Visits.{VisitsOnly, parse_select-VisitsOnly}
use mycat_js.Sql.Number.{parse_token, scan_loop, scan_round, number_type}
use mycat_js.Sql.Scan.{blank_loop, line_comment_loop, multi_comment_loop, quoted_loop, var_loop}
use mycat_js.Tests.Words.{at_text}
use mycat_js.Backend.Source.{same_text, upper}

abbrev fresh : Lexer
fresh = at_text [] 0

parse_ends_example : parse fresh (codes "/* all */ select @a, @@b limit 1") ≢ no_fuel
parse_ends_example = parse_ends fresh (codes "/* all */ select @a, @@b limit 1")

-- Behind the word of `@@x`, and behind its end.
abbrev at_x : Parser
at_x = record {
  lexer = record (at_text (codes "@@x") 3) {
    type = id_token;
    prefix = codes "x";
    start = 2;
    end = 3;
  };
  visits = [];
}

abbrev x_name : Name
x_name = record { name = codes "x"; quotes = none; type = 4; start = 2; end = 3 }

abbrev behind_x : Parser
behind_x = record {
  lexer = record at_x.lexer { type = eos_token; prefix = []; start = 3; end = 3 };
  visits = visits_identifier x_name ∷ [];
}

parse_identifier-Accepted_example : Accepted 4 at_x (x_name, behind_x)
unfolding parse_identifier token_text slice max_length_of ends_blank is_blank skip_blanks
    skip_blank_comment next_token skip_loop check_reserved same_text is_reserved upper
parse_identifier-Accepted_example = parse_identifier-Accepted 4 at_x x_name behind_x refl

-- `@a` behind the word `select`.
abbrev at_select : Parser
at_select = record { lexer = at_text (codes "select @a limit 1") 7; visits = [] }

abbrev limit_one : Limit
limit_one = record { rows = 1; offset = 0; start = 10; end = 17 }

abbrev a_variable : Expr
a_variable =
    user_var_expr (record { name = codes "a"; quotes = none; type = 12; start = 8; end = 9 }) 7 9

abbrev limited : Select
limited = record {
  start = 0;
  end = 17;
  exprs = a_variable ∷ [];
  limit = some limit_one;
  comments = [];
}

abbrev behind_select : Parser
behind_select = record {
  lexer = record (at_text (codes "select @a limit 1") 17) {
    type = eos_token;
    start = 17;
    end = 17;
  };
  visits = visits_user_var a_variable ∷ visits_limit limit_one ∷ visits_select limited ∷ [];
}

limited_read : parse_select 0 at_select ≡ done (limited, behind_select)
unfolding parse_select parse_select_exprs parse_select_expr read_token token first_token next_token
    dispatch is_blank skip_loop one_char same_text char_at parse_user_var_expr parse_user_var
    token_text slice var_loop upper is_digit is_letter is_var_char blank_token_at dash_token
    line_comment multi_comment quoted_id reset_token skip skip_blank_comment slash_token str_token
    word_token int_type number_type parse_token scan_loop scan_round text_gt behind_expr end_select
    limit_select select_behind big_int check_reserved limit_behind limit_clause limit_next
    limit_second parse_identifier parse_scope parse_select_limit parse_sys_var_expr refuse
    skip_blanks sys_var_named token_word blank_loop line_comment_loop multi_comment_loop quoted_loop
    max_length_of among big_int_from ends_blank is_reserved
limited_read = refl

parse_select-VisitsOnly_example :
    (exprs : List Expr) × (end : ℕ) × (r : Parser) × (parse_select_exprs 18 [] at_select
      ≡ done (exprs, end, r))
    × VisitsOnly r (limited, behind_select)
parse_select-VisitsOnly_example =
    parse_select-VisitsOnly 0 at_select limited behind_select limited_read

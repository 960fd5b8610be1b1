-- ===== src/Frontend/Command.antt =====
-- frontend/handler/front-cmd-handler.js and frontend/handler/front-query-handler.js, up to the
-- routing of a statement. How a charset decodes bytes is a parameter.
pub mod Handled
use mycat_js.Prelude.{
  ℕ, ◌+◌, ◌-◌, Bool, true, false, not, ◌||◌, List, [], ◌∷◌, Option, none, some, ◌==◌, if◌then◌else◌,
  Error, range_error, type_error, argument_error, buffer_error, conn_error, net_error, plain_error,
  reference_error, unexpected_end, no_token, sql_error, sql_failure, Result, ok, err,
}
use mycat_js.Sql.Chars.{Text}
use mycat_js.Runtime.{Bytes, byte_at, read_u8, slice}
use mycat_js.Backend.Source.{upper}
use mycat_js.Config.Privileges.{is_empty, has_text}
use mycat_js.Sql.Lexer.{Lexer}
use mycat_js.Sql.Attempt.{Attempt, no_fuel, throws, done}
use mycat_js.Sql.Tree.{Select, Parsed, one_statement, statements}
use mycat_js.Sql.Parser.{Parser}
use mycat_js.Sql.Parser.Select.{parse}

-- What a client is sent: an error packet of a sequence number and an error number, or the OK packet.
pub data Reply : Type 0 where
  error_reply : ℕ → ℕ → Reply
  ok_reply : Reply

-- The connection, with the counters of its manager. `sent` has the last reply first.
pub record Session : Type 0 where
  pub load_data_started : Bool
  pub closed : Bool
  pub schema : Text
  pub quit : ℕ
  pub query : ℕ
  pub other : ℕ
  pub sent : List Reply

pub record SqlQuery : Type 0 where
  pub sql : Text
  pub seq : ℕ

abbrev pub reply : Session → Reply → Session
reply s r = record s { sent = r ∷ s.sent }

abbrev refuse_command : Session → Result ℕ → Session × Result (Option SqlQuery)
refuse_command s (err e) = (s, err e)
refuse_command s (ok seq) = (reply s (error_reply (seq + 1) 1047), ok none)

abbrev query_of : Session → Text → Result ℕ → Session × Result (Option SqlQuery)
query_of s sql (err e) = (s, err e)
query_of s sql (ok seq) = (s, ok (some (record { sql = sql; seq = seq })))

-- FrontCmdHandler.invoke: the commands are COM_QUIT, COM_QUERY and all others.
unfoldable pub take_command :
    (Bytes → Text) → Bool → Bytes → ℕ → Session → Session × Result (Option SqlQuery)
take_command decode ignore_unknown buffer length s =
    let counted = record s { other = s.other + 1 } in
    if s.load_data_started
    then (s, ok none)
    else if byte_at buffer 4 == 1
    then (record s { quit = s.quit + 1; closed = true }, ok none)
    else if byte_at buffer 4 == 3
    then query_of (record s { query = s.query + 1 }) (decode (slice buffer 5 (length - 5)))
        (read_u8 buffer 3)
    else if ignore_unknown
    then (reply counted ok_reply, ok none)
    else refuse_command counted (read_u8 buffer 3)

-- How FrontQueryHandler.invoke takes a query: it sends an error number, it throws, or it routes
-- statements, in order. The last case is the parser without fuel.
pub data Reaction : Type 0 where
  denies : ℕ → Reaction
  rethrows : Error → Reaction
  routes : List Select → Reaction
  stuck : Reaction

-- `e instanceof SqlError`
abbrev pub is_sql_error : Error → Bool
is_sql_error unexpected_end = true
is_sql_error no_token = true
is_sql_error (sql_error pos line) = true
is_sql_error sql_failure = true
is_sql_error range_error = false
is_sql_error type_error = false
is_sql_error argument_error = false
is_sql_error buffer_error = false
is_sql_error conn_error = false
is_sql_error net_error = false
is_sql_error plain_error = false
is_sql_error reference_error = false

abbrev pub react_parsed : Attempt (Parsed × Parser) → Reaction
react_parsed no_fuel = stuck
react_parsed (throws e) = if is_sql_error e then denies 1064 else rethrows e
react_parsed (done (one_statement stmt, p)) = routes (stmt ∷ [])
react_parsed (done (statements [], p)) = denies 1065
react_parsed (done (statements (stmt ∷ rest), p)) = routes (stmt ∷ rest)

unfoldable pub react : List Text → Lexer → Text → Text → Reaction
react schemas lexer schema sql =
    if is_empty sql
    then denies 1148
    else if is_empty schema
    then denies 1046
    else if has_text (upper schema) schemas
    then react_parsed (parse lexer sql)
    else denies 1049

-- The error is sent with the sequence number behind the query's.
abbrev pub replied : Session → ℕ → Reaction → Session × Reaction
replied s seq (denies errno) = (reply s (error_reply (seq + 1) errno), denies errno)
replied s seq (rethrows e) = (s, rethrows e)
replied s seq (routes stmts) = (s, routes stmts)
replied s seq stuck = (s, stuck)

abbrev pub answered :
    List Text → Lexer → Session × Result (Option SqlQuery) → Session × Option Reaction
answered schemas lexer (s, err e) = (s, some (rethrows e))
answered schemas lexer (s, ok none) = (s, none)
answered schemas lexer (s, ok (some q)) =
    let r = replied s q.seq (react schemas lexer s.schema q.sql) in (r.0, some r.1)

-- The two handlers, one behind the other.
unfoldable pub handle :
    (Bytes → Text) → Bool → List Text → Lexer → Bytes → ℕ → Session → Session × Option Reaction
unfolding take_command
handle decode ignore_unknown schemas lexer buffer length s =
    answered schemas lexer (take_command decode ignore_unknown buffer length s)

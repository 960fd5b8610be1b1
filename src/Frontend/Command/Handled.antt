-- ===== src/Frontend/Command/Handled.antt =====
-- What becomes of a query in frontend/handler/.
use mycat_js.Prelude.{
  length, true, if_true, if_false, ℕ, ◌+◌, ◌-◌, ◌≡◌, ◌≢◌, refl, ap, ◌∙◌, sym, Bool, false, List, [],
  ◌∷◌, Option, some, Bool-cases, inl, inr, ◌==◌, Error, ok,
}
use mathlib.Core.Path.{subst}
use mycat_js.Sql.Chars.{Text}
use mycat_js.Runtime.{Bytes, byte_at, read_u8, slice}
use mycat_js.Backend.Source.{upper}
use mycat_js.Config.Privileges.{has_text}
use mycat_js.Sql.Lexer.{Lexer, reset}
use mycat_js.Sql.Attempt.{Attempt, no_fuel, throws, done, ◌>>=◌}
use mycat_js.Sql.Tree.{Select}
use mycat_js.Sql.Parser.{Parser}
use mycat_js.Sql.Parser.Select.{parse, parsed, parse_statements}
use mycat_js.Sql.Parser.Total.{parse_ends}
use mycat_js.Frontend.Command.{
  error_reply, Reply, stuck, Session, query_of, take_command, Reaction, denies, rethrows, routes,
  is_sql_error, react_parsed, react, replied, answered, handle,
}

-- What the parser reads of a query: its statements, or what it throws.
abbrev pub read : Lexer → Text → Attempt (List Select × Parser)
read lexer sql =
    parse_statements (length sql + 1) [] (record { lexer = reset lexer sql; visits = [] })

-- What answers a query to a schema, of which the parser reads `found`, and why.
pub data Answers (schemas : List Text) (schema sql : Text) (found : Attempt (List Select × Parser))
    : Reaction → Type 0 where
  empty_query : sql ≡ [] → Answers schemas schema sql found (denies 1148)
  no_schema : schema ≡ [] → sql ≢ [] → Answers schemas schema sql found (denies 1046)
  unknown_schema :
      has_text (upper schema) schemas ≡ false
      → schema ≢ []
      → sql ≢ []
      → Answers schemas schema sql found (denies 1049)
  wrong_text :
      {e : Error}
      → found ≡ throws e
      → is_sql_error e ≡ true
      → has_text (upper schema) schemas ≡ true
      → Answers schemas schema sql found (denies 1064)
  no_statement :
      {p : Parser}
      → found ≡ done ([], p)
      → has_text (upper schema) schemas ≡ true
      → Answers schemas schema sql found (denies 1065)
  thrown :
      {e : Error}
      → found ≡ throws e
      → is_sql_error e ≡ false
      → has_text (upper schema) schemas ≡ true
      → Answers schemas schema sql found (rethrows e)
  all_routed :
      {stmt : Select} {rest : List Select} {p : Parser}
      → found ≡ done (stmt ∷ rest, p)
      → has_text (upper schema) schemas ≡ true
      → Answers schemas schema sql found (routes (stmt ∷ rest))

-- The replies behind a reaction: an error packet with the sequence number behind the query's.
abbrev pub sent_by : Reaction → ℕ → List Reply → List Reply
sent_by (denies errno) seq sent = error_reply (seq + 1) errno ∷ sent
sent_by (rethrows e) seq sent = sent
sent_by (routes stmts) seq sent = sent
sent_by stuck seq sent = sent

-- What a query leaves: it is counted once, and answered.
abbrev pub Handled : List Text → Lexer → Text → Session → ℕ → Session × Option Reaction → Type 0
Handled schemas lexer sql s seq (t, answer) =
    (r : Reaction) × (answer ≡ some r)
    × Answers schemas s.schema sql (read lexer sql) r
    × (t ≡ record s { query = s.query + 1; sent = sent_by r seq s.sent })

read_ends : (lexer : Lexer) (sql : Text) → read lexer sql ≢ no_fuel
unfolding parse
read_ends lexer sql h =
    parse_ends lexer sql (ap (λ a. a >>= λ (stmts, p). done (parsed stmts, p)) h)

react_parsed-Answers :
    (schemas : List Text) (schema sql : Text) (found : Attempt (List Select × Parser))
    → has_text (upper schema) schemas ≡ true
    → found ≢ no_fuel
    → Answers schemas schema sql found
        (react_parsed (found >>= λ (stmts, p). done (parsed stmts, p)))
unfolding parsed
react_parsed-Answers schemas schema sql no_fuel known h = absurd (h refl)
react_parsed-Answers schemas schema sql (throws e) known h = elim (Bool-cases (is_sql_error e)) [
  | inl f ↦ rw f (wrong_text refl f known)
  | inr f ↦ rw f (thrown refl f known)
]
react_parsed-Answers schemas schema sql (done ([], p)) known h = no_statement refl known
react_parsed-Answers schemas schema sql (done (stmt ∷ [], p)) known h = all_routed refl known
react_parsed-Answers schemas schema sql (done (stmt ∷ (next ∷ rest), p)) known h =
    all_routed refl known

react-Answers :
    (schemas : List Text) (lexer : Lexer) (schema sql : Text)
    → Answers schemas schema sql (read lexer sql) (react schemas lexer schema sql)
unfolding react parse
react-Answers schemas lexer schema [] = empty_query refl
react-Answers schemas lexer [] (c ∷ cs) = no_schema refl (λ h. cc h)
react-Answers schemas lexer (d ∷ ds) (c ∷ cs) =
    elim (Bool-cases (has_text (upper (d ∷ ds)) schemas)) [
      | inl known ↦ rw known (
          react_parsed-Answers schemas (d ∷ ds) (c ∷ cs) (read lexer (c ∷ cs)) known
            (read_ends lexer (c ∷ cs)))
      | inr unknown ↦ rw unknown (unknown_schema unknown (λ h. cc h) (λ h. cc h))
    ]

-- The connection behind the reply, with the query counted.
abbrev counted : Session → ℕ → Reaction → Session × Option Reaction
counted s seq r = let t = replied (record s { query = s.query + 1 }) seq r in (t.0, some t.1)

Answers-Handled :
    (schemas : List Text) (lexer : Lexer) (sql : Text) (s : Session) (seq : ℕ) (r : Reaction)
    → Answers schemas s.schema sql (read lexer sql) r
    → Handled schemas lexer sql s seq (counted s seq r)
Answers-Handled schemas lexer sql s seq (denies errno) h = (denies errno, refl, h, refl)
Answers-Handled schemas lexer sql s seq (rethrows e) h = (rethrows e, refl, h, refl)
Answers-Handled schemas lexer sql s seq (routes stmts) h = (routes stmts, refl, h, refl)
Answers-Handled schemas lexer sql s seq stuck h = (stuck, refl, h, refl)

take_command_query :
    (decode : Bytes → Text) (ignore_unknown : Bool) (buffer : Bytes) (n seq : ℕ) (s : Session)
    → s.load_data_started ≡ false
    → byte_at buffer 4 ≡ 3
    → read_u8 buffer 3 ≡ ok seq
    → take_command decode ignore_unknown buffer n s
      ≡ query_of (record s { query = s.query + 1 }) (decode (slice buffer 5 (n - 5))) (ok seq)
unfolding take_command
take_command_query decode ignore_unknown buffer n seq s free command sent =
    if_false _ _ _ free
    ∙ if_false _ _ _ (ap (λ c. c == 1) command)
    ∙ if_true _ _ _ (ap (λ c. c == 3) command)
    ∙ ap (query_of (record s { query = s.query + 1 }) (decode (slice buffer 5 (n - 5)))) sent

-- A packet of the command COM_QUERY, of a client that loads no file, is counted as one query and
-- answered by what the parser reads of its text. One error packet with the sequence number behind
-- the packet's is sent: 1148 for an empty text, 1046 without a schema, 1049 for one that does not
-- exist, 1064 where the parser throws a SqlError, 1065 where it reads no statement. Otherwise
-- nothing is sent: all the statements that the parser reads are routed, or its error that is no
-- SqlError is thrown. The parser always ends.
pub handle-Handled :
    (decode : Bytes → Text) (ignore_unknown : Bool) (schemas : List Text) (lexer : Lexer)
    (buffer : Bytes) (n seq : ℕ) (s : Session)
    → s.load_data_started ≡ false
    → byte_at buffer 4 ≡ 3
    → read_u8 buffer 3 ≡ ok seq
    → Handled schemas lexer
        (decode (slice buffer 5 (n - 5)))
        s
        seq
        (handle decode ignore_unknown schemas lexer buffer n s)
unfolding handle
handle-Handled decode ignore_unknown schemas lexer buffer n seq s free command sent =
    let sql = decode (slice buffer 5 (n - 5)) in
    subst (λ d. Handled schemas lexer sql s seq (answered schemas lexer d))
      (sym (take_command_query decode ignore_unknown buffer n seq s free command sent))
      (Answers-Handled schemas lexer sql s seq (react schemas lexer s.schema sql)
        (react-Answers schemas lexer s.schema sql))

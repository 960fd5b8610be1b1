-- ===== src/Sql/Words.antt =====
-- The words of sql/parser/mysql-parser.js, and what it reads in them.
use Prim.Native.Char.{code}
use Prim.Native.String.{String}
use mycat_js.Prelude.{
  ℕ, ◌+◌, ◌*◌, ◌-◌, Bool, false, ◌||◌, List, [], ◌∷◌, Option, none, some, if◌then◌else◌,
}
use mycat_js.Sql.Chars.{Text, is_digit, is_blank}
use mycat_js.Backend.Source.{same_text}

-- The code units of a literal.
abbrev pub codes : String → Text
codes String.[] = []
codes (String.◌∷◌ c s) = code c ∷ codes s

-- RESERVED
abbrev pub reserved_words : List String
reserved_words =
    "ACCESSIBLE" ∷ "ADD" ∷ "ALL" ∷ "ALTER" ∷ "ANALYZE" ∷ "AND" ∷ "AS" ∷ "ASC" ∷ "ASENSITIVE"
    ∷ "BEFORE" ∷ "BETWEEN" ∷ "BIGINT" ∷ "BINARY" ∷ "BLOB" ∷ "BOTH" ∷ "BY" ∷ "CALL" ∷ "CASCADE"
    ∷ "CASE" ∷ "CHANGE" ∷ "CHAR" ∷ "CHARACTER" ∷ "CHECK" ∷ "COLLATE" ∷ "COLUMN" ∷ "CONDITION"
    ∷ "CONSTRAINT" ∷ "CONTINUE" ∷ "CONVERT" ∷ "CREATE" ∷ "CROSS" ∷ "CURRENT_DATE" ∷ "CURRENT_ROLE"
    ∷ "CURRENT_TIME" ∷ "CURRENT_TIMESTAMP" ∷ "CURRENT_USER" ∷ "CURSOR" ∷ "DATABASE" ∷ "DATABASES"
    ∷ "DAY_HOUR" ∷ "DAY_MICROSECOND" ∷ "DAY_MINUTE" ∷ "DAY_SECOND" ∷ "DEC" ∷ "DECIMAL" ∷ "DECLARE"
    ∷ "DEFAULT" ∷ "DELAYED" ∷ "DELETE" ∷ "DELETE_DOMAIN_ID" ∷ "DESC" ∷ "DESCRIBE" ∷ "DETERMINISTIC"
    ∷ "DISTINCT" ∷ "DISTINCTROW" ∷ "DIV" ∷ "DO_DOMAIN_IDS" ∷ "DOUBLE" ∷ "DROP" ∷ "DUAL" ∷ "EACH"
    ∷ "ELSE" ∷ "ELSEIF" ∷ "ENCLOSED" ∷ "ESCAPED" ∷ "EXCEPT" ∷ "EXISTS" ∷ "EXIT" ∷ "EXPLAIN"
    ∷ "FALSE" ∷ "FETCH" ∷ "FLOAT" ∷ "FLOAT4" ∷ "FLOAT8" ∷ "FOR" ∷ "FORCE" ∷ "FOREIGN" ∷ "FROM"
    ∷ "FULLTEXT" ∷ "GENERAL" ∷ "GRANT" ∷ "GROUP" ∷ "HAVING" ∷ "HIGH_PRIORITY" ∷ "HOUR_MICROSECOND"
    ∷ "HOUR_MINUTE" ∷ "HOUR_SECOND" ∷ "IF" ∷ "IGNORE" ∷ "IGNORE_DOMAIN_IDS" ∷ "IGNORE_SERVER_IDS"
    ∷ "IN" ∷ "INDEX" ∷ "INFILE" ∷ "INNER" ∷ "INOUT" ∷ "INSENSITIVE" ∷ "INSERT" ∷ "INT" ∷ "INT1"
    ∷ "INT2" ∷ "INT3" ∷ "INT4" ∷ "INT8" ∷ "INTEGER" ∷ "INTERSECT" ∷ "INTERVAL" ∷ "INTO" ∷ "IS"
    ∷ "ITERATE" ∷ "JOIN" ∷ "KEY" ∷ "KEYS" ∷ "KILL" ∷ "LEADING" ∷ "LEAVE" ∷ "LEFT" ∷ "LIKE" ∷ "LIMIT"
    ∷ "LINEAR" ∷ "LINES" ∷ "LOAD" ∷ "LOCALTIME" ∷ "LOCALTIMESTAMP" ∷ "LOCK" ∷ "LONG" ∷ "LONGBLOB"
    ∷ "LONGTEXT" ∷ "LOOP" ∷ "LOW_PRIORITY" ∷ "MASTER_HEARTBEAT_PERIOD"
    ∷ "MASTER_SSL_VERIFY_SERVER_CERT" ∷ "MATCH" ∷ "MAXVALUE" ∷ "MEDIUMBLOB" ∷ "MEDIUMINT"
    ∷ "MEDIUMTEXT" ∷ "MIDDLEINT" ∷ "MINUTE_MICROSECOND" ∷ "MINUTE_SECOND" ∷ "MOD" ∷ "MODIFIES"
    ∷ "NATURAL" ∷ "NOT" ∷ "NO_WRITE_TO_BINLOG" ∷ "NULL" ∷ "NUMERIC" ∷ "OFFSET" ∷ "ON" ∷ "OPTIMIZE"
    ∷ "OPTION" ∷ "OPTIONALLY" ∷ "OR" ∷ "ORDER" ∷ "OUT" ∷ "OUTER" ∷ "OUTFILE" ∷ "OVER"
    ∷ "PAGE_CHECKSUM" ∷ "PARSE_VCOL_EXPR" ∷ "PARTITION" ∷ "POSITION" ∷ "PRECISION" ∷ "PRIMARY"
    ∷ "PROCEDURE" ∷ "PURGE" ∷ "RANGE" ∷ "READ" ∷ "READS" ∷ "READ_WRITE" ∷ "REAL" ∷ "RECURSIVE"
    ∷ "REF_SYSTEM_ID" ∷ "REFERENCES" ∷ "REGEXP" ∷ "RELEASE" ∷ "RENAME" ∷ "REPEAT" ∷ "REPLACE"
    ∷ "REQUIRE" ∷ "RESIGNAL" ∷ "RESTRICT" ∷ "RETURN" ∷ "RETURNING" ∷ "REVOKE" ∷ "RIGHT" ∷ "RLIKE"
    ∷ "ROWS" ∷ "SCHEMA" ∷ "SCHEMAS" ∷ "SECOND_MICROSECOND" ∷ "SELECT" ∷ "SENSITIVE" ∷ "SEPARATOR"
    ∷ "SET" ∷ "SHOW" ∷ "SIGNAL" ∷ "SLOW" ∷ "SMALLINT" ∷ "SPATIAL" ∷ "SPECIFIC" ∷ "SQL"
    ∷ "SQLEXCEPTION" ∷ "SQLSTATE" ∷ "SQLWARNING" ∷ "SQL_BIG_RESULT" ∷ "SQL_CALC_FOUND_ROWS"
    ∷ "SQL_SMALL_RESULT" ∷ "SSL" ∷ "STARTING" ∷ "STATS_AUTO_RECALC" ∷ "STATS_PERSISTENT"
    ∷ "STATS_SAMPLE_PAGES" ∷ "STRAIGHT_JOIN" ∷ "TABLE" ∷ "TERMINATED" ∷ "THEN" ∷ "TINYBLOB"
    ∷ "TINYINT" ∷ "TINYTEXT" ∷ "TO" ∷ "TRAILING" ∷ "TRIGGER" ∷ "TRUE" ∷ "UNDO" ∷ "UNION" ∷ "UNIQUE"
    ∷ "UNLOCK" ∷ "UNSIGNED" ∷ "UPDATE" ∷ "USAGE" ∷ "USE" ∷ "USING" ∷ "UTC_DATE" ∷ "UTC_TIME"
    ∷ "UTC_TIMESTAMP" ∷ "VALUES" ∷ "VARBINARY" ∷ "VARCHAR" ∷ "VARCHARACTER" ∷ "VARYING" ∷ "WHEN"
    ∷ "WHERE" ∷ "WHILE" ∷ "WINDOW" ∷ "WITH" ∷ "WRITE" ∷ "XOR" ∷ "YEAR_MONTH" ∷ "ZEROFILL" ∷ []

unfoldable pub among : Text → List String → Bool
among name [] = false
among name (w ∷ ws) = same_text name (codes w) || among name ws

unfoldable pub is_reserved : Text → Bool
unfolding among
is_reserved name = among name reserved_words

-- Whether the last character of a name is a blank.
unfoldable pub ends_blank : Text → Bool
ends_blank [] = false
ends_blank (c ∷ []) = is_blank c
ends_blank (c ∷ (d ∷ ds)) = ends_blank (d ∷ ds)

-- BigInt of a text of decimal digits, from the value of the digits before. Any other text, which
-- the tokens that it is called on are not, is `none`.
unfoldable pub big_int_from : ℕ → Text → Option ℕ
big_int_from n [] = some n
big_int_from n (c ∷ cs) =
    let more = big_int_from (n * 10 + (c - b'0')) cs in if is_digit c then more else none

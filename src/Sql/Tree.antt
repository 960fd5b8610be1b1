-- ===== src/Sql/Tree.antt =====
-- What the parser builds: sql/sql-name.js, sql/identifier.js, sql/sql-comment.js, and the classes of
-- sql/dml and sql/expr. The source and the context, which all share, are the parser's.
use mycat_js.Prelude.{ℕ, List, [], ◌∷◌, ◌++◌, Option, none, some, ◌==◌, if◌then◌else◌}
use mycat_js.Sql.Chars.{Text}
use mycat_js.Backend.Source.{upper}

-- The types of SqlObject that the parser gives or asks for.
abbrev pub type_id_schema : ℕ
type_id_schema = 1

abbrev pub type_id_table : ℕ
type_id_table = 2

abbrev pub type_id_column : ℕ
type_id_column = 4

abbrev type_id_alias : ℕ
type_id_alias = 5

abbrev pub type_id_sys_var : ℕ
type_id_sys_var = 11

abbrev pub type_id_user_var : ℕ
type_id_user_var = 12

abbrev type_id_label : ℕ
type_id_label = 16

abbrev type_id_user : ℕ
type_id_user = 17

abbrev type_id_role : ℕ
type_id_role = 18

-- Identifier.maxLengthOf
unfoldable pub max_length_of : ℕ → ℕ
max_length_of t =
    if t == type_id_alias
    then 256
    else if t == type_id_label
    then 16
    else if t == type_id_user
    then 80
    else if t == type_id_role
    then 128
    else 64

-- SqlName, and Identifier.
pub record Name : Type 0 where
  pub name : Text
  pub quotes : Option ℕ
  pub type : ℕ
  pub start : ℕ
  pub end : ℕ

unfoldable pub compared_name : Name → Text
compared_name n = upper n.name

unfoldable pub quoted_name : Name → Text
quoted_name n = elim n.quotes [
  | none ↦ n.name
  | some q ↦ if q == b'[' then b'[' ∷ n.name ++ b']' ∷ [] else q ∷ n.name ++ q ∷ []
]

pub record Comment : Type 0 where
  pub sign : Text
  pub start : ℕ
  pub end : ℕ

pub data Scope : Type 0 where
  global_scope session_scope : Scope

-- SysVarExpr and UserVarExpr: the name, and where the expression stands.
pub data Expr : Type 0 where
  sys_var_expr : Scope → Name → ℕ → ℕ → Expr
  user_var_expr : Name → ℕ → ℕ → Expr

pub record Limit : Type 0 where
  pub rows : ℕ
  pub offset : ℕ
  pub start : ℕ
  pub end : ℕ

-- SelectStatement
pub record Select : Type 0 where
  pub start : ℕ
  pub end : ℕ
  pub exprs : List Expr
  pub limit : Option Limit
  pub comments : List Comment

-- What `parse` returns.
pub data Parsed : Type 0 where
  one_statement : Select → Parsed
  statements : List Select → Parsed

-- The calls of the context's visitors, whose methods are not under sql/parser.
pub data Visit : Type 0 where
  visits_identifier : Name → Visit
  visits_sys_var visits_user_var : Expr → Visit
  visits_limit : Limit → Visit
  visits_select : Select → Visit

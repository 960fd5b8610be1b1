-- ===== src/Sql/Object.antt =====
-- sql/sql-object.js and sql/sql-expr.js: what a parsed object becomes as text once values replace
-- some of the objects in it.
pub mod Escape
pub mod Splice
pub mod Replaced
pub mod Aliases
pub mod Literals
use mycat_js.Prelude.{
  ℕ, zero, suc, ◌+◌, ◌-◌, Bool, true, false, not, ◌&&◌, ◌||◌, List, [], ◌∷◌, ◌++◌, Option, none,
  some, ◌==◌, ltb, if◌then◌else◌, sql_failure, Result, ok, err, ◌>>=◌, take, drop, length,
}
use mycat_js.Sql.Chars.{Text}

-- `slice` of a text, for offsets that are not negative.
unfoldable pub text_slice : Text → ℕ → ℕ → Text
text_slice s start end = take (end - start) (drop start s)

index_behind : Option ℕ → Option ℕ
index_behind none = none
index_behind (some i) = some (suc i)

-- `indexOf` of a character in the text from an offset on, counted from that offset.
unfoldable pub index_of : ℕ → Text → Option ℕ
unfolding index_behind
index_of c [] = none
index_of c (x ∷ xs) = let later = index_behind (index_of c xs) in if x == c then some 0 else later

-- The loop of `escape`, for the text from `b` on, in which the character `c` is at `i`.
unfoldable pub escape_loop : ℕ → ℕ → Text → ℕ → Text → Option Text
escape_loop zero c text i mid = none
escape_loop (suc fuel) c text i mid =
    let doubled = mid ++ take (suc i) text ++ c ∷ [] in
    elim (drop (suc i) text) [
      | [] ↦ some doubled
      | a ∷ rest ↦
          (let after = if a == c then doubled else doubled ++ a ∷ [] in
            elim (index_of c rest) [
              | none ↦ some (after ++ rest)
              | some j ↦ escape_loop fuel c rest j after
            ])
    ]

-- The value of `mid`. Each round of the loop takes a character at least.
unfoldable pub escape_mid : ℕ → Text → Option Text
escape_mid c s = elim (index_of c s) [
  | none ↦ some s
  | some i ↦ escape_loop (suc (length s)) c s i []
]

abbrev pub or_empty : Option Text → Text
or_empty none = []
or_empty (some s) = s

-- SqlObject.escape over the whole text, for an argument that is one character.
unfoldable pub escape : Text → ℕ → Text
escape s c = or_empty (escape_mid c s)

-- SqlObject.escape with its last two arguments. `right` is a slice of what `s` has become by then.
unfoldable pub escape_range : Text → ℕ → ℕ → ℕ → Text
escape_range s c start end =
    if start == 0 && end == length s
    then escape s c
    else (let left = text_slice s 0 start in
        let inner = text_slice s start end in
        let right = text_slice inner end (length inner) in left ++ escape inner c ++ right)

-- What replaces an object. A number, a bigint, a Boolean and a date stand with their text, which
-- the runtime and string-helper.js give; any other value with what `value + ""` is.
pub data SqlValue : Type 0 where
  nan_value : SqlValue
  scalar_value date_value text_value : Text → SqlValue

-- The fields of an object beside its children. `is_expr` says that it is a SqlExpr, `is_select`
-- that its type is TYPE_STMT_SELECT; `quotes` is that of its context.
pub record Shape : Type 0 where
  pub source : Text
  pub start : ℕ
  pub end : ℕ
  pub value : Option SqlValue
  pub is_expr : Bool
  pub is_select : Bool
  pub quotes : ℕ
  pub alias : Text
  pub rewritten : Bool

mutual
  pub data SqlObject : Type 0 where
    sql_object : Shape → Children → SqlObject

  pub data Children : Type 0 where
    no_child : Children
    child : SqlObject → Children → Children

-- A replaced object that collectReplaces collects: its fields, whether its parent is a select
-- statement, and its value.
pub record Replace : Type 0 where
  pub shape : Shape
  pub in_select : Bool
  pub value : SqlValue

abbrev pub replace_of : Shape → Bool → SqlValue → Replace
replace_of o b v = record { shape = o; in_select = b; value = v }

abbrev pub has_value : Option SqlValue → Bool
has_value none = false
has_value (some v) = true

-- `replaced(true)`; without the argument it is `has_value`.
unfoldable mutual
  pub replaced : SqlObject → Bool
  replaced (sql_object o children) = if has_value o.value then true else any_replaced children

  pub any_replaced : Children → Bool
  any_replaced no_child = false
  any_replaced (child c cs) = if replaced c then true else any_replaced cs

-- collectReplaces: `in_select` says whether the parent of these children is a select statement.
unfoldable mutual
  pub collect_replaces : Bool → Children → List Replace
  collect_replaces in_select no_child = []
  collect_replaces in_select (child c cs) =
      collect_replace in_select c ++ collect_replaces in_select cs

  pub collect_replace : Bool → SqlObject → List Replace
  collect_replace in_select (sql_object o children) =
      let below = collect_replaces o.is_select children in
      elim o.value [ some v ↦ replace_of o in_select v ∷ [] | none ↦ below ]

-- The first branch of `toSql` in SqlObject.
unfoldable pub value_sql : SqlValue → Result Text
value_sql nan_value = err sql_failure
value_sql (scalar_value s) = ok s
value_sql (date_value s) = ok (39 ∷ s ++ 39 ∷ [])
value_sql (text_value s) = ok (39 ∷ escape s 39 ++ 39 ∷ [])

abbrev pub is_empty : Text → Bool
is_empty [] = true
is_empty (c ∷ cs) = false

abbrev pub starts_with : ℕ → Text → Bool
starts_with c [] = false
starts_with c (x ∷ xs) = x == c

abbrev pub as_word : Text
as_word = 32 ∷ b'a' ∷ b's' ∷ 32 ∷ []

-- The alias from the expression's part of the source.
unfoldable pub alias_with : Shape → Text → Text → Text × Shape
alias_with o sql a =
    let e = length a - 1 in
    if starts_with o.quotes a
    then (sql ++ as_word ++ escape_range a o.quotes 1 e, record o { alias = text_slice a 1 e })
    else (sql ++ as_word ++ o.quotes ∷ escape a o.quotes ++ o.quotes ∷ [], record o { alias = a })

unfoldable pub alias_sql : Shape → Text → Text × Shape
unfolding alias_with
alias_sql o sql = alias_with o sql (text_slice o.source o.start o.end)

-- What `toSql` of SqlExpr does with the text that `toSql` of SqlObject returns.
unfoldable pub expr_sql : Shape → Bool → Text → Text × Shape
expr_sql o in_select sql =
    if o.is_expr && (o.rewritten && (is_empty o.alias && in_select))
    then alias_sql o sql
    else (sql, o)

-- `toSql` of a replaced object, and its fields then.
unfoldable pub replace_sql : Replace → Result (Text × Shape)
replace_sql r = do
  sql ← value_sql r.value
  ok (expr_sql (record r.shape { rewritten = true }) r.in_select sql)

-- The loop of `toSql` over the replaced objects in it. `start` is where the source is copied from;
-- the objects come back with their fields then.
unfoldable pub splice : Text → ℕ → ℕ → Text → List Replace → Result (Text × List Replace)
splice source start end sql [] =
    ok (if ltb start end then sql ++ text_slice source start end else sql, [])
splice source start end sql (r ∷ rs) = if ltb r.shape.start start then err sql_failure else (do
  (text, shape) ← replace_sql r
  (all, later) ←
      splice source r.shape.end end (sql ++ text_slice source start r.shape.start ++ text) rs
  ok (all, record r { shape = shape } ∷ later))

-- `toSql` of an object without a value: its fields and the collected objects come back too.
unfoldable pub children_sql : Shape → List Replace → Result (Text × Shape × List Replace)
children_sql o [] = ok (text_slice o.source o.start o.end, o, [])
children_sql o (r ∷ rs) = do
  (sql, later) ← splice o.source o.start o.end [] (r ∷ rs)
  ok (sql, record o { rewritten = true }, later)

-- `toSql`, by the value of the object: without one, of SqlObject over its children, and with one,
-- as replace_sql; then of SqlExpr where `is_expr` says so.
unfoldable pub to_sql_valued :
    Bool → Shape → Children → Option SqlValue → Result (Text × Shape × List Replace)
to_sql_valued in_select o children (some v) = do
  (sql, shape) ← replace_sql (replace_of o in_select v)
  ok (sql, shape, [])
to_sql_valued in_select o children none = do
  (sql, shape, later) ← children_sql o (collect_replaces o.is_select children)
  let (all, named) = expr_sql shape in_select sql
  ok (all, named, later)

-- `toSql`: the text, and the fields of the object and of the replaced objects in it. `in_select`
-- says whether its parent is a select statement.
unfoldable pub to_sql : Bool → SqlObject → Result (Text × Shape × List Replace)
unfolding to_sql_valued
to_sql in_select (sql_object o children) = to_sql_valued in_select o children o.value

-- ===== src/Sql/Object/Splice.antt =====
-- What `toSql` of sql/sql-object.js makes of a source in which some objects are replaced.
use mycat_js.Prelude.{
  ℕ, ◌+◌, ◌-◌, ◌≡◌, refl, sym, ap, ◌∙◌, Bool, true, false, List, [], ◌∷◌, ◌++◌, none, some, ltb,
  if◌then◌else◌, ok, ◌>>=◌, length, length-append, take-append, drop-append, arith,
}
use mathlib.Core.List.{append-nil, append_assoc}
use mycat_js.Sql.Chars.{Text}
use mycat_js.Sql.Object.{
  SqlValue, no_child, child, replace_of, collect_replace, Shape, sql_object, Children, Replace,
  text_slice, replace_sql, splice, children_sql, collect_replaces, expr_sql, to_sql, to_sql_valued,
}

-- A replaced object, what it covers of the source, what stands before it, and its text.
pub record Hole : Type 0 where
  pub before : Text
  pub covered : Text
  pub text : Text
  pub replace : Replace
  pub later : Shape

-- The source and the text of replaced objects in a row, up to `last`.
unfoldable pub source_of : List Hole → Text → Text
source_of [] last = last
source_of (h ∷ hs) last = h.before ++ (h.covered ++ source_of hs last)

unfoldable pub result_of : List Hole → Text → Text
result_of [] last = last
result_of (h ∷ hs) last = h.before ++ (h.text ++ result_of hs last)

-- Each object stands where its holes say, from the offset on, and has its text.
unfoldable pub Fits : ℕ → List Hole → Type 0
Fits at [] = Unit {0}
Fits at (h ∷ hs) =
    (h.replace.shape.start ≡ at + length h.before)
    × (h.replace.shape.end ≡ at + length h.before + length h.covered)
    × (replace_sql h.replace ≡ ok (h.text, h.later))
    × Fits (at + length h.before + length h.covered) hs

abbrev pub replaces_of : List Hole → List Replace
replaces_of [] = []
replaces_of (h ∷ hs) = h.replace ∷ replaces_of hs

abbrev pub laters_of : List Hole → List Replace
laters_of [] = []
laters_of (h ∷ hs) = record h.replace { shape = h.later } ∷ laters_of hs

-- A slice that is a part of the text.
pub slice_part :
    (a b c : Text) (start end : ℕ)
    → start ≡ length a
    → end ≡ length a + length b
    → text_slice (a ++ (b ++ c)) start end ≡ b
unfolding text_slice
slice_part a b c start end s e =
    let size : end - start ≡ length b = omega (arith, s, e) in
    rw (size, s, drop-append a (b ++ c)) (take-append b c)

-- What follows the last object.
last_part :
    (front rest last source sql : Text) (start end : ℕ)
    → source ≡ front ++ (last ++ rest)
    → start ≡ length front
    → end ≡ length front + length last
    → (if ltb start end then sql ++ text_slice source start end else sql) ≡ sql ++ last
last_part front rest [] source sql start end whole s e =
    let empty : ltb start end ≡ false = ground (arith, s, e) in rw (empty) (sym (append-nil sql))
last_part front rest (x ∷ xs) source sql start end whole s e =
    let some_left : ltb start end ≡ true = ground (arith, s, e) in
    rw (some_left, whole) (ap (sql ++◌) (slice_part front (x ∷ xs) rest start end s e))

regroup :
    (front before covered back rest : Text)
    → front ++ ((before ++ (covered ++ back)) ++ rest)
      ≡ (front ++ (before ++ covered)) ++ (back ++ rest)
regroup front before covered back rest = simp (append_assoc)

length_regroup :
    (front before covered : Text)
    → length (front ++ (before ++ covered)) ≡ length front + length before + length covered
length_regroup front before covered =
    omega (arith, length-append front (before ++ covered), length-append before covered)

pub splice-Fits :
    (front rest last : Text) (hs : List Hole) (source sql : Text) (start end : ℕ)
    → source ≡ front ++ (source_of hs last ++ rest)
    → start ≡ length front
    → end ≡ length front + length (source_of hs last)
    → Fits start hs
    → splice source start end sql (replaces_of hs) ≡ ok (sql ++ result_of hs last, laters_of hs)
unfolding splice source_of result_of Fits
splice-Fits front rest last [] source sql start end whole s e fits =
    ap (λ text. ok (text, [])) (last_part front rest last source sql start end whole s e)
splice-Fits front rest last (h ∷ hs) source sql start end whole s e fits =
    let back = source_of hs last in
    let (starts, ends, renders, others) = fits in
    let ordered : ltb h.replace.shape.start start ≡ false = ground (arith, starts) in
    let copied : text_slice source start h.replace.shape.start ≡ h.before =
      ap (λ t. text_slice t start h.replace.shape.start)
        (whole ∙ ap (front ++◌) (append_assoc h.before (h.covered ++ back) rest))
      ∙ slice_part front h.before ((h.covered ++ back) ++ rest) start h.replace.shape.start s
          (omega (arith, starts, s)) in
    let moved : h.replace.shape.end ≡ length (front ++ (h.before ++ h.covered)) =
      omega (arith, ends, s, length_regroup front h.before h.covered) in
    let size : end ≡ length (front ++ (h.before ++ h.covered)) + length back = omega (
      arith,
      e,
      length-append h.before (h.covered ++ back),
      length-append h.covered back,
      length_regroup front h.before h.covered,
    ) in
    let below =
      splice-Fits (front ++ (h.before ++ h.covered)) rest last hs source (sql ++ h.before ++ h.text)
        h.replace.shape.end end (whole ∙ regroup front h.before h.covered back rest) moved size
        (rw (ends) others) in
    rw (ordered, renders, copied, below)
      (ap (λ text. ok (text, record h.replace { shape = h.later } ∷ laters_of hs))
        (simp (append_assoc)))

children_sql-Fits :
    (o : Shape) (front rest last : Text) (hs : List Hole)
    → o.is_expr ≡ false
    → o.source ≡ front ++ (source_of hs last ++ rest)
    → o.start ≡ length front
    → o.end ≡ length front + length (source_of hs last)
    → Fits o.start hs
    → (shape : Shape) × (shape.is_expr ≡ false)
      × (children_sql o (replaces_of hs) ≡ ok (result_of hs last, shape, laters_of hs))
unfolding children_sql source_of result_of
children_sql-Fits o front rest last [] plain whole s e fits = (
  o,
  plain,
  ap (λ text. ok (text, o, []))
      (ap (λ t. text_slice t o.start o.end) whole ∙ slice_part front last rest o.start o.end s e),
)
children_sql-Fits o front rest last (h ∷ hs) plain whole s e fits = (
  record o { rewritten = true },
  plain,
  rw (splice-Fits front rest last (h ∷ hs) o.source [] o.start o.end whole s e fits) refl,
)

-- What is replaced below an object, in order: a child that has a value, and what is replaced below
-- a child that has none. The Boolean says whether the object is a select statement.
pub data AreReplaced : Bool → Children → List Replace → Type 0 where
  no_child_left : {b : Bool} → AreReplaced b no_child []
  child_valued :
      {b : Bool} {o : Shape} {v : SqlValue} {below cs : Children} {rs : List Replace}
      → o.value ≡ some v
      → AreReplaced b cs rs
      → AreReplaced b (child (sql_object o below) cs) (replace_of o b v ∷ rs)
  child_free :
      {b : Bool} {o : Shape} {below cs : Children} {ms rs : List Replace}
      → o.value ≡ none
      → AreReplaced o.is_select below ms
      → AreReplaced b cs rs
      → AreReplaced b (child (sql_object o below) cs) (ms ++ rs)

collect_replaces-AreReplaced :
    {b : Bool} {cs : Children} {rs : List Replace}
    → AreReplaced b cs rs
    → collect_replaces b cs ≡ rs
unfolding collect_replaces collect_replace
collect_replaces-AreReplaced no_child_left = refl
collect_replaces-AreReplaced (child_valued h others) =
    rw (h, collect_replaces-AreReplaced others) refl
collect_replaces-AreReplaced (child_free h below others) =
    rw (h, collect_replaces-AreReplaced below, collect_replaces-AreReplaced others) refl

-- The text of an object that is no expression and has no value is its part of the source, in
-- which each replaced object below it, and nothing else, gives way to that object's text: where
-- the replaced objects stand in order and their texts are defined. Replaced are the children that
-- have a value, and what is replaced below the children that have none.
pub to_sql-Fits :
    (in_select : Bool) (o : Shape) (children : Children) (front rest last : Text) (hs : List Hole)
    → o.value ≡ none
    → o.is_expr ≡ false
    → o.source ≡ front ++ (source_of hs last ++ rest)
    → o.start ≡ length front
    → o.end ≡ length front + length (source_of hs last)
    → AreReplaced o.is_select children (replaces_of hs)
    → Fits o.start hs
    → (to_sql in_select (sql_object o children) >>= λ (sql, shape, later). ok sql)
      ≡ ok (result_of hs last)
unfolding to_sql to_sql_valued expr_sql
to_sql-Fits in_select o children front rest last hs free plain whole s e replaced fits =
    let (shape, still_plain, ends) = children_sql-Fits o front rest last hs plain whole s e fits in
    ap (λ value. to_sql_valued in_select o children value >>= λ (sql, shape, later). ok sql) free
    ∙ rw (collect_replaces-AreReplaced replaced, ends, still_plain) refl

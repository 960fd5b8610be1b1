-- ===== src/Sql/Object/Replaced.antt =====
-- `replaced` and collectReplaces of sql/sql-object.js agree.
use mycat_js.Prelude.{
  ◌≡◌, ap, ◌>>=◌, refl, sym, ◌∙◌, ◌&&◌, Bool, true, false, List, [], ◌∷◌, ◌++◌, none, some,
  if◌then◌else◌, ok, Option-cases, inl, inr,
}
use mycat_js.Sql.Chars.{Text}
use mycat_js.Sql.Object.{
  Shape, SqlObject, sql_object, Children, no_child, child, Replace, text_slice, replaced,
  any_replaced, collect_replaces, collect_replace, children_sql, expr_sql, to_sql, to_sql_valued,
  alias_sql, is_empty, SqlValue,
}

abbrev is_some_collected : List Replace → Bool
is_some_collected [] = false
is_some_collected (r ∷ rs) = true

is_some_collected-append :
    (rs ts : List Replace)
    → is_some_collected (rs ++ ts) ≡ (if is_some_collected rs then true else is_some_collected ts)
is_some_collected-append [] ts = refl
is_some_collected-append (r ∷ rs) ts = refl

mutual
  unfolding replaced collect_replaces

  pub replaced-collects :
      (in_select : Bool) (x : SqlObject)
      → replaced x ≡ is_some_collected (collect_replace in_select x)
  replaced-collects in_select (sql_object o cs) = elim (Option-cases o.value) [
    | inl e ↦ rw (e, any_replaced-collects o.is_select cs) refl
    | inr (v, e) ↦ rw (e) refl
  ]

  any_replaced-collects :
      (in_select : Bool) (cs : Children)
      → any_replaced cs ≡ is_some_collected (collect_replaces in_select cs)
  any_replaced-collects in_select no_child = refl
  any_replaced-collects in_select (child c cs) =
      rw (replaced-collects in_select c, any_replaced-collects in_select cs)
        (sym
          (is_some_collected-append (collect_replace in_select c) (collect_replaces in_select cs)))

none_collected : (rs : List Replace) → is_some_collected rs ≡ false → rs ≡ []
none_collected [] h = refl
none_collected (r ∷ rs) h = cc

replaced_free :
    (o : Shape) (cs : Children) → o.value ≡ none → replaced (sql_object o cs) ≡ any_replaced cs
unfolding replaced
replaced_free o cs e = rw (e) refl

replaced_valued :
    (o : Shape) (cs : Children) {v : SqlValue}
    → o.value ≡ some v
    → replaced (sql_object o cs) ≡ true
unfolding replaced
replaced_valued o cs e = rw (e) refl

and_false : (a b c : Bool) → (a && b) ≡ false → (a && (b && c)) ≡ false
and_false false b c h = refl
and_false true false c h = refl
and_false true true c h = cc

expr_sql_plain :
    (o : Shape) (in_select : Bool) (sql : Text)
    → (o.is_expr && o.rewritten) ≡ false
    → expr_sql o in_select sql ≡ (sql, o)
unfolding expr_sql
expr_sql_plain o in_select sql h =
    ap (λ t. if t then alias_sql o sql else (sql, o))
      (and_false o.is_expr o.rewritten (is_empty o.alias && in_select) h)

-- Where neither an object nor any object below it has a value, its text is its part of the
-- source, and its fields stay: if it is no expression that gave its text with values before.
pub to_sql_untouched :
    (in_select : Bool) (o : Shape) (cs : Children)
    → replaced (sql_object o cs) ≡ false
    → (o.is_expr && o.rewritten) ≡ false
    → to_sql in_select (sql_object o cs) ≡ ok (text_slice o.source o.start o.end, o, [])
unfolding to_sql to_sql_valued children_sql
to_sql_untouched in_select o cs h plain = elim (Option-cases o.value) [
  | inl free ↦
      (let empty =
          none_collected (collect_replaces o.is_select cs)
            (sym (any_replaced-collects o.is_select cs) ∙ sym (replaced_free o cs free) ∙ h) in
        ap (to_sql_valued in_select o cs) free
        ∙ ap
            (λ rs. children_sql o rs >>= λ (sql, shape, later).
              (let (all, named) = expr_sql shape in_select sql in ok (all, named, later)))
            empty
        ∙ ap (λ (all, named). ok (all, named, []))
            (expr_sql_plain o in_select (text_slice o.source o.start o.end) plain))
  | inr (v, e) ↦ absurd (cc (h, replaced_valued o cs e))
]

-- ===== src/Sql/Parser/Names.antt =====
-- The identifiers that parseIdentifier of sql/parser/mysql-parser.js accepts.
use mycat_js.Prelude.{
  List, ◌≢◌, ◌⊎◌, ◌||◌, ◌==◌, ==_iff, true, Bool-cases, inl, inr, ℕ, ◌-◌, ◌≡◌, ◌≤◌, refl, sym, ap,
  ◌∙◌, false, not, ◌&&◌, [], ◌∷◌, ◌++◌, ltb, length, take, drop, if◌then◌else◌, ltb-false→le,
  sql_error, arith,
}
use Prim.Native.String.{String}
use mycat_js.Util.Scheduler.Names.{same_text_refl, same_text_eq}
use mycat_js.Sql.Chars.{Text, is_blank}
use mycat_js.Sql.Lexer.{slice, skip_blank_comment}
use mycat_js.Sql.Attempt.{done, ◌>>=◌, of_call, >>=-eq-done, else_of}
use mycat_js.Sql.Words.{is_reserved, among, reserved_words, ends_blank, codes}
use mycat_js.Sql.Tree.{Name, visits_identifier, max_length_of}
use mycat_js.Backend.Source.{upper, same_text}
use mycat_js.Sql.Parser.{
  Parser, visit, refuse, token_text, skip_blanks, check_reserved, parse_identifier, ends_wrong,
}

-- The longest name of a type of SqlObject: an alias, a label, a user, a role, and all else.
pub data Longest : ℕ → ℕ → Type 0 where
  longest_alias : Longest 5 256
  longest_label : Longest 16 16
  longest_user : Longest 17 80
  longest_role : Longest 18 128
  longest_other : {type : ℕ} → type ≢ 5 → type ≢ 16 → type ≢ 17 → type ≢ 18 → Longest type 64

-- A name that has this as its last character.
abbrev pub EndsWith : Text → ℕ → Type 0
EndsWith name c = (before : Text) × (name ≡ before ++ c ∷ [])

-- What was asked of a name of the type, with `next` as the token behind it: the name of a schema,
-- of a table and of a column ends with no blank, and the name is reserved only before a point.
pub record Right (type : ℕ) (name next : Text) : Type 0 where
  pub fits : (n : ℕ) × Longest type n × (length name ≤ n)
  pub no_blank :
      (c : ℕ) → EndsWith name c → (type ≡ 1) ⊎ (type ≡ 2) ⊎ (type ≡ 4) → is_blank c ≡ false
  pub no_word :
      (before after : List String) (word : String)
      → reserved_words ≡ before ++ word ∷ after
      → next ≢ b'.' ∷ []
      → upper name ≢ codes word

-- An identifier that was read from the current token of `p`, with the parser behind it.
abbrev pub Accepted : ℕ → Parser → Name × Parser → Type 0
Accepted type p (id, q) =
    (id.name ≡ take (id.end - id.start) (drop id.start p.lexer.sql))
    × (id.start ≡ p.lexer.start)
    × (id.end ≡ p.lexer.end)
    × Right type id.name q.lexer.prefix
    × (q.visits ≡ p.visits ++ visits_identifier id ∷ [])

==_differs : (a b : ℕ) → (a == b) ≡ false → a ≢ b
==_differs a b h same = cc (h, (==_iff a b).1 same)

max_length_of-Longest : (type : ℕ) → Longest type (max_length_of type)
unfolding max_length_of
max_length_of-Longest type = elim (Bool-cases (type == 5)) [
  | inl e ↦ rw ((==_iff type 5).0 e) longest_alias
  | inr e ↦ elim (Bool-cases (type == 16)) [
    | inl f ↦ rw ((==_iff type 16).0 f) longest_label
    | inr f ↦ elim (Bool-cases (type == 17)) [
      | inl g ↦ rw ((==_iff type 17).0 g) longest_user
      | inr g ↦ elim (Bool-cases (type == 18)) [
        | inl h ↦ rw ((==_iff type 18).0 h) longest_role
        | inr h ↦
            rw (e, f, g, h)
              (longest_other (==_differs type 5 e) (==_differs type 16 f) (==_differs type 17 g)
                (==_differs type 18 h))
      ]
    ]
  ]
]

ends_blank-snoc : (before : Text) (c : ℕ) → ends_blank (before ++ c ∷ []) ≡ is_blank c
unfolding ends_blank
ends_blank-snoc [] c = refl
ends_blank-snoc (x ∷ []) c = refl
ends_blank-snoc (x ∷ (y ∷ ys)) c = ends_blank-snoc (y ∷ ys) c

among-has :
    (name : Text) (before after : List String) (word : String)
    → name ≡ codes word
    → among name (before ++ word ∷ after) ≡ true
unfolding among
among-has name [] after word h =
    ap (λ n. same_text n (codes word) || among name after) h
    ∙ ap (◌|| among name after) (same_text_refl (codes word))
among-has name (w ∷ ws) after word h = ground (arith, among-has name ws after word h)

reserved_cut :
    (name next : Text)
    → (not (same_text next (b'.' ∷ [])) && is_reserved name) ≡ false
    → next ≢ b'.' ∷ []
    → is_reserved name ≡ false
reserved_cut name next h differs = elim (Bool-cases (same_text next (b'.' ∷ []))) [
  | inl e ↦ absurd (differs (same_text_eq next (b'.' ∷ []) e))
  | inr e ↦ ground arith
]

Right-of :
    (type : ℕ) (name next : Text)
    → length name ≤ max_length_of type
    → ends_wrong type name ≡ false
    → (not (same_text next (b'.' ∷ [])) && is_reserved (upper name)) ≡ false
    → Right type name next
unfolding is_reserved
Right-of type name next short right free = record {
  fits = (max_length_of type, max_length_of-Longest type, short);
  no_blank = λ c (before, e) typed.
      let ends : ends_blank name ≡ is_blank c = rw e (ends_blank-snoc before c) in
      let asked : (type == 1 || type == 2 || type == 4) ≡ true = elim typed [
        | inl a ↦ ground (arith, a)
        | inr (inl a) ↦ ground (arith, a)
        | inr (inr a) ↦ ground (arith, a)
      ] in
      ground (arith, right, ends, asked);
  no_word = λ before after word e differs same.
      let found : is_reserved (upper name) ≡ true =
        ap (among (upper name)) e ∙ among-has (upper name) before after word same in
      cc (found, reserved_cut (upper name) next free differs);
}

token_text-slice :
    (p : Parser) {s : Text}
    → token_text p ≡ done s
    → s ≡ take (p.lexer.end - p.lexer.start) (drop p.lexer.start p.lexer.sql)
unfolding token_text slice
token_text-slice p h = ground arith

skip_blanks-visits : (p : Parser) {q : Parser} → skip_blanks p ≡ done q → q.visits ≡ p.visits
unfolding skip_blanks
skip_blanks-visits p h =
    let (r, e, f) = >>=-eq-done (of_call (skip_blank_comment p.lexer)) _ h in cc f

check_reserved-done :
    (id : Name) (r : Parser) {i : Name} {q : Parser}
    → check_reserved id r ≡ done (i, q)
    → ((not (same_text q.lexer.prefix (b'.' ∷ [])) && is_reserved (upper i.name)) ≡ false)
      × (i ≡ id)
      × (q.visits ≡ r.visits ++ visits_identifier id ∷ [])
unfolding check_reserved
check_reserved-done id r {i} {q} h =
    let reserved = not (same_text r.lexer.prefix (b'.' ∷ [])) && is_reserved (upper id.name) in
    let (free, e) = else_of reserved (sql_error id.start r.lexer.line) h in
    let same_id : i ≡ id = cc e in
    let same_q : q ≡ visit (visits_identifier id) r = cc e in
    (rw (same_id, same_q) free, same_id, rw (same_q) refl)

named-Accepted :
    (type : ℕ) (p : Parser) (name : Text) {id : Name} {q : Parser}
    → name ≡ take (p.lexer.end - p.lexer.start) (drop p.lexer.start p.lexer.sql)
    → (if ltb (max_length_of type) (length name)
        then refuse p
        else if ends_wrong type name
        then refuse p
        else skip_blanks p
          >>= check_reserved (record {
            name = name;
            quotes = p.lexer.quotes;
            type = type;
            start = p.lexer.start;
            end = p.lexer.end;
          }))
      ≡ done (id, q)
    → Accepted type p (id, q)
unfolding refuse
named-Accepted type p name {id} {q} shown h =
    let thrown = sql_error p.lexer.start p.lexer.line in
    let made : Name = record {
      name = name;
      quotes = p.lexer.quotes;
      type = type;
      start = p.lexer.start;
      end = p.lexer.end;
    } in
    let (short, g) = else_of (ltb (max_length_of type) (length name)) thrown h in
    let (right, k) = else_of (ends_wrong type name) thrown g in
    let (r, skipped, m) = >>=-eq-done {Value = Parser} (skip_blanks p) _ k in
    let (free, same_id, visited) = check_reserved-done _ r m in
    (
      rw (same_id) shown,
      rw (same_id) refl,
      rw (same_id) refl,
      Right-of type id.name q.lexer.prefix
          (rw (same_id) (ltb-false→le (max_length_of type) (length name) short))
          (rw (same_id) right) free,
      visited
          ∙ ap (λ v. v ++ visits_identifier made ∷ []) (skip_blanks-visits p skipped)
          ∙ ap (λ i. p.visits ++ visits_identifier i ∷ []) (sym same_id),
    )

-- Where parseIdentifier returns, the identifier's name is its part of the source, the current
-- token's, and is no longer than its type allows: 256 characters for an alias, 16 for a label, 80
-- for a user, 128 for a role and 64 for all else; a schema's, a table's and a column's name does
-- not end with a blank; the name in upper case is none of the reserved words unless a point
-- follows it; and the visitor has been called with the identifier, as the last call.
pub parse_identifier-Accepted :
    (type : ℕ) (p : Parser) (id : Name) (q : Parser)
    → parse_identifier type p ≡ done (id, q)
    → Accepted type p (id, q)
unfolding parse_identifier
parse_identifier-Accepted type p id q h =
    let (name, e, f) = >>=-eq-done {Value = Text} (token_text p) _ h in
    named-Accepted type p name (token_text-slice p e) f

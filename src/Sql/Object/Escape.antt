-- ===== src/Sql/Object/Escape.antt =====
-- SqlObject.escape doubles a character and leaves alone what is doubled already.
use mycat_js.Prelude.{
  ℕ, zero, suc, ◌+◌, ◌-◌, ◌≤◌, ◌≡◌, refl, sym, ap, ◌∙◌, true, false, [], ◌∷◌, ◌++◌, Option, none,
  some, ◌==◌, if◌then◌else◌, take, drop, length, arith, Bool-cases, Option-cases, inl, inr, ==_iff,
  ◌&&◌, length-take, length-drop, length-drop,
}
use mathlib.Core.List.{append-nil, append_assoc}
use mycat_js.Sql.Chars.{Text}
use mycat_js.Sql.Scan.Quotes.{StartsOther}
use mycat_js.Sql.Scan.Quotes as Quotes
use mycat_js.Sql.Object.{
  text_slice, index_of, index_behind, escape_loop, escape_mid, escape, or_empty, escape_range,
}

-- Two of the character stand for one.
unfoldable pub collapse : ℕ → Text → Text
collapse c [] = []
collapse c (x ∷ []) = x ∷ []
collapse c (x ∷ (y ∷ r)) =
    let behind = collapse c r in
    let next = collapse c (y ∷ r) in
    if x == c then (if y == c then x ∷ behind else x ∷ next) else x ∷ next

abbrev doubled : ℕ → Text → Text
doubled c s = Quotes.escape c (collapse c s)

-- The text behind a doubled character.
abbrev behind_match : ℕ → Text → Text
behind_match c [] = []
behind_match c (a ∷ r) = if a == c then doubled c r else a ∷ doubled c r

doubled_other : (c x : ℕ) (xs : Text) → (x == c) ≡ false → doubled c (x ∷ xs) ≡ x ∷ doubled c xs
unfolding collapse Quotes.escape
doubled_other c x [] h = rw (h) refl
doubled_other c x (y ∷ r) h = rw (h, h) refl

same : (c : ℕ) → (c == c) ≡ true
same c = ground arith

doubled_match : (c : ℕ) (xs : Text) → doubled c (c ∷ xs) ≡ c ∷ (c ∷ behind_match c xs)
unfolding collapse Quotes.escape
doubled_match c [] = rw (same c) refl
doubled_match c (y ∷ r) = elim (Bool-cases (y == c)) [
  | inl e ↦ rw (same c, e, same c) refl
  | inr e ↦ rw (same c, e, doubled_other c y r e, same c) refl
]

index_hit : (c x : ℕ) (xs : Text) → (x == c) ≡ true → index_of c (x ∷ xs) ≡ some 0
unfolding index_of
index_hit c x xs h = rw (h) refl

index_miss :
    (c x : ℕ) (xs : Text) → (x == c) ≡ false → index_of c (x ∷ xs) ≡ index_behind (index_of c xs)
unfolding index_of
index_miss c x xs h = rw (h) refl

index_behind-none : (o : Option ℕ) → index_behind o ≡ none → o ≡ none
unfolding index_behind
index_behind-none none h = refl
index_behind-none (some i) h = cc

index_behind-some :
    (o : Option ℕ) {i : ℕ} → index_behind o ≡ some i → (j : ℕ) × (o ≡ some j) × (suc j ≡ i)
unfolding index_behind
index_behind-some none h = cc
index_behind-some (some j) h = (j, refl, cc)

doubled-none : (c : ℕ) (t : Text) → index_of c t ≡ none → doubled c t ≡ t
unfolding collapse Quotes.escape
doubled-none c [] h = refl
doubled-none c (x ∷ xs) h = elim (Bool-cases (x == c)) [
  | inl e ↦ absurd (cc (h, index_hit c x xs e))
  | inr e ↦
      doubled_other c x xs e
      ∙ ap (◌∷◌ x)
          (doubled-none c xs (index_behind-none (index_of c xs) (sym (index_miss c x xs e) ∙ h)))
]

doubled_at :
    (c : ℕ) (t : Text) (i : ℕ)
    → index_of c t ≡ some i
    → doubled c t ≡ take (suc i) t ++ c ∷ behind_match c (drop (suc i) t)
unfolding index_of
doubled_at c [] i h = cc
doubled_at c (x ∷ xs) i h = elim (Bool-cases (x == c)) [
  | inl e ↦
      (let first : i ≡ 0 = cc (h, index_hit c x xs e) in
        let same : x ≡ c = (==_iff x c).0 e in rw (same, first) (doubled_match c xs))
  | inr e ↦
      (let (j, found, next) = index_behind-some (index_of c xs) (sym (index_miss c x xs e) ∙ h) in
        doubled_other c x xs e
        ∙ ap (◌∷◌ x) (doubled_at c xs j found)
        ∙ ap (λ k. take (suc k) (x ∷ xs) ++ c ∷ behind_match c (drop (suc k) (x ∷ xs))) next)
]

length-drop_tail :
    {a : ℕ} {r : Text} (n : ℕ) (t : Text) → drop n t ≡ a ∷ r → length r + 1 ≤ length t
length-drop_tail n t h = omega (arith, length-drop n t, ap length h)

after_match :
    (c a : ℕ) (d r : Text)
    → (if a == c then d else d ++ a ∷ []) ++ doubled c r ≡ d ++ behind_match c (a ∷ r)
after_match c a d r = elim (Bool-cases (a == c)) [
  | inl e ↦ rw (e) refl
  | inr e ↦ rw (e) (append_assoc d (a ∷ []) (doubled c r))
]

regroup :
    (c : ℕ) (mid front back : Text) → (mid ++ front ++ c ∷ []) ++ back ≡ mid ++ (front ++ c ∷ back)
regroup c mid front back =
    append_assoc (mid ++ front) (c ∷ []) back ∙ append_assoc mid front (c ∷ back)

escape_loop_ends :
    (fuel c : ℕ) (t : Text) (i : ℕ) (mid rest : Text)
    → drop (suc i) t ≡ rest
    → length t ≤ fuel
    → index_of c t ≡ some i
    → escape_loop (suc fuel) c t i mid ≡ some (mid ++ (take (suc i) t ++ c ∷ behind_match c rest))
unfolding escape_loop
escape_loop_ends fuel c t i mid [] shown size h =
    rw (escape_loop, shown) (ap some (append_assoc mid (take (suc i) t) (c ∷ [])))
escape_loop_ends zero c t i mid (a ∷ r) shown size h =
    absurd (omega (arith, length-drop_tail (suc i) t shown))
escape_loop_ends (suc fuel) c t i mid (a ∷ r) shown size h =
    let smaller : length r ≤ fuel = omega (arith, length-drop_tail (suc i) t shown) in
    let front = mid ++ take (suc i) t ++ c ∷ [] in
    let after = if a == c then front else front ++ a ∷ [] in
    let joined =
      ap some (after_match c a front r ∙ regroup c mid (take (suc i) t) (behind_match c (a ∷ r))) in
    elim (Option-cases (index_of c r)) [
      | inl none_left ↦
          rw (escape_loop, shown, none_left)
            (ap (λ text. some (after ++ text)) (sym (doubled-none c r none_left)) ∙ joined)
      | inr (j, found) ↦
          rw (escape_loop, shown, found)
            (escape_loop_ends fuel c r j after (drop (suc j) r) refl smaller found
              ∙ ap (λ text. some (after ++ text)) (sym (doubled_at c r j found))
              ∙ joined)
    ]

escape_mid_ends : (c : ℕ) (s : Text) → escape_mid c s ≡ some (doubled c s)
unfolding escape_mid
escape_mid_ends c s = elim (Option-cases (index_of c s)) [
  | inl e ↦ rw (escape_mid, e) (ap some (sym (doubled-none c s e)))
  | inr (i, e) ↦
      rw (escape_mid, e)
        (escape_loop_ends (length s) c s i [] (drop (suc i) s) refl (omega arith) e
          ∙ ap some (sym (doubled_at c s i e)))
]

-- The loop ends, and doubles each occurrence of the character in what the text stands for when
-- two of the character in a row stand for one.
pub escape_doubles :
    (s : Text) (c : ℕ)
    → (escape_mid c s ≡ some (Quotes.escape c (collapse c s)))
      × (escape s c ≡ Quotes.escape c (collapse c s))
unfolding escape
escape_doubles s c = (escape_mid_ends c s, ap or_empty (escape_mid_ends c s))

collapse_other : (c x : ℕ) (t : Text) → (x == c) ≡ false → collapse c (x ∷ t) ≡ x ∷ collapse c t
unfolding collapse
collapse_other c x [] h = refl
collapse_other c x (y ∷ r) h = rw (h) refl

pub collapse-escape : (c : ℕ) (s : Text) → collapse c (Quotes.escape c s) ≡ s
unfolding collapse Quotes.escape
collapse-escape c [] = refl
collapse-escape c (x ∷ xs) = elim (Bool-cases (x == c)) [
  | inl e ↦ rw (e, e) (ap (x ∷◌) (collapse-escape c xs))
  | inr e ↦ rw (e) (collapse_other c x (Quotes.escape c xs) e ∙ ap (x ∷◌) (collapse-escape c xs))
]

-- To escape an escaped text changes nothing.
escape-escape : (s : Text) (c : ℕ) → escape (escape s c) c ≡ escape s c
escape-escape s c = rw ((escape_doubles s c).1) (
    (escape_doubles (Quotes.escape c (collapse c s)) c).1
    ∙ ap (Quotes.escape c) (collapse-escape c (collapse c s)))

-- The slice behind the part is empty.
right_empty :
    (s : Text) (start end : ℕ)
    → text_slice (text_slice s start end) end (length (text_slice s start end)) ≡ []
unfolding text_slice
right_empty s start end =
    let none_left : length (take (end - start) (drop start s)) - end ≡ 0 =
      omega (arith, length-take (end - start) (drop start s)) in
    ap (λ n. take n (drop end (take (end - start) (drop start s)))) none_left

-- With a part of the text given, what stands behind the part is lost.
pub escape_range_loses :
    (s : Text) (c start end : ℕ)
    → (start == 0 && end == length s) ≡ false
    → escape_range s c start end
      ≡ text_slice s 0 start ++ Quotes.escape c (collapse c (text_slice s start end))
unfolding escape_range
escape_range_loses s c start end h =
    rw (h, right_empty s start end)
      (append-nil (text_slice s 0 start ++ escape (text_slice s start end) c)
        ∙ ap (text_slice s 0 start ++◌) (escape_doubles (text_slice s start end) c).1)

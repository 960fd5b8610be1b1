-- ===== src/Util/Splitter/Pieces.antt =====
-- What StringSplitter.split of util/string-splitter.js gives for a separator of one character.
use mycat_js.Prelude.{
  Bool, map, ℕ, ◌≡◌, refl, ◌∙◌, ap, sym, true, false, List, [], ◌∷◌, ◌++◌, ◌==◌, some, arith,
  Bool-cases, ==_iff, inl, inr,
}
use mathlib.Core.List.{append-nil, append_assoc}
use mycat_js.Sql.Chars.{Text}
use mycat_js.Util.Splitter.{starts_with, split_loop, split, trim_if}

-- The pieces with the separator between them.
unfoldable pub join : ℕ → List Text → Text
join x [] = []
join x (p ∷ []) = p
join x (p ∷ (q ∷ r)) = p ++ x ∷ join x (q ∷ r)

abbrev pub Lacks : ℕ → Text → Type 0
Lacks x [] = Unit {0}
Lacks x (c ∷ cs) = ((c == x) ≡ false) × Lacks x cs

abbrev pub AllLack : ℕ → List Text → Type 0
AllLack x [] = Unit {0}
AllLack x (p ∷ ps) = Lacks x p × AllLack x ps

Lacks-snoc : (x c : ℕ) (t : Text) → Lacks x t → (c == x) ≡ false → Lacks x (t ++ c ∷ [])
Lacks-snoc x c [] h k = (k, tt)
Lacks-snoc x c (d ∷ ds) h k = (h.0, Lacks-snoc x c ds h.1 k)

starts_with_one : (x c : ℕ) (cs : Text) → starts_with (x ∷ []) (c ∷ cs) ≡ (c == x)
unfolding starts_with
starts_with_one x c cs = ground arith

split_loop_at :
    (x : ℕ) (it cs : Text) (c : ℕ)
    → (c == x) ≡ true
    → split_loop (x ∷ []) false it (c ∷ cs) ≡ it ∷ split_loop (x ∷ []) false [] cs
unfolding split_loop trim_if
split_loop_at x it cs c h = rw (starts_with_one x c cs, h)

split_loop_past :
    (x : ℕ) (it cs : Text) (c : ℕ)
    → (c == x) ≡ false
    → split_loop (x ∷ []) false it (c ∷ cs) ≡ split_loop (x ∷ []) false (it ++ c ∷ []) cs
unfolding split_loop
split_loop_past x it cs c h = rw (starts_with_one x c cs, h)

split_loop-AllLack : (x : ℕ) (it s : Text) → Lacks x it → AllLack x (split_loop (x ∷ []) false it s)
unfolding split_loop trim_if
split_loop-AllLack x it [] h = (h, tt)
split_loop-AllLack x it (c ∷ cs) h = elim (Bool-cases (c == x)) [
  | inl e ↦ rw (starts_with_one x c cs, e) (h, split_loop-AllLack x [] cs tt)
  | inr e ↦
      rw (starts_with_one x c cs, e)
        (split_loop-AllLack x (it ++ c ∷ []) cs (Lacks-snoc x c it h e))
]

join_more :
    (x : ℕ) (p it s : Text)
    → join x (p ∷ split_loop (x ∷ []) false it s) ≡ p ++ x ∷ join x (split_loop (x ∷ []) false it s)
unfolding split_loop join trim_if
join_more x p it [] = refl
join_more x p it (c ∷ cs) = elim (Bool-cases (c == x)) [
  | inl e ↦ rw (starts_with_one x c cs, e)
  | inr e ↦
      ap (λ r. join x (p ∷ r)) (split_loop_past x it cs c e)
      ∙ join_more x p (it ++ c ∷ []) cs
      ∙ ap (λ r. p ++ x ∷ join x r) (sym (split_loop_past x it cs c e))
]

split_loop-join : (x : ℕ) (it s : Text) → join x (split_loop (x ∷ []) false it s) ≡ it ++ s
unfolding split_loop join trim_if
split_loop-join x it [] = sym (append-nil it)
split_loop-join x it (c ∷ cs) = elim (Bool-cases (c == x)) [
  | inl e ↦
      rw (starts_with_one x c cs, e)
        (join_more x it [] cs
          ∙ ap (λ r. it ++ x ∷ r) (split_loop-join x [] cs)
          ∙ ap (λ y. it ++ y ∷ cs) (sym ((==_iff c x).0 e)))
  | inr e ↦
      rw (starts_with_one x c cs, e)
        (split_loop-join x (it ++ c ∷ []) cs ∙ append_assoc it (c ∷ []) cs)
]

-- With trimming the loop gives the pieces that it gives without, each trimmed.
split_loop-map :
    (x : ℕ) (trims : Bool) (it s : Text)
    → split_loop (x ∷ []) trims it s ≡ map (trim_if trims) (split_loop (x ∷ []) false it s)
unfolding split_loop trim_if
split_loop-map x trims it [] = refl
split_loop-map x trims it (c ∷ cs) = elim (Bool-cases (c == x)) [
  | inl e ↦ rw (starts_with_one x c cs, e) (ap (trim_if trims it ∷◌) (split_loop-map x trims [] cs))
  | inr e ↦ rw (starts_with_one x c cs, e) (split_loop-map x trims (it ++ c ∷ []) cs)
]

-- For a separator of one character, with trimming or without, what split gives is the pieces of
-- the text, each of them trimmed if pieces are: no piece has the separator, and the pieces with
-- the separator between them are the text, which is trimmed itself if pieces are.
pub split-join :
    (x : ℕ) (trims : Bool) (s : Text)
    → (ps : List Text) × AllLack x ps
      × (join x ps ≡ trim_if trims s)
      × (split (some s) (x ∷ []) trims ≡ some (map (trim_if trims) ps))
unfolding split
split-join x trims s =
    let t = trim_if trims s in
    (
      split_loop (x ∷ []) false [] t,
      split_loop-AllLack x [] t tt,
      split_loop-join x [] t,
      ap some (split_loop-map x trims [] t),
    )

-- ===== src/Util/Scheduler/Names.antt =====
-- A name has one timer at most in the map of util/scheduler.js, so that `cancel` frees it.
use mycat_js.Prelude.{
  ℕ, ◌≡◌, refl, ap, ◌∙◌, true, false, List, [], ◌∷◌, none, some, ◌==◌, if◌then◌else◌, arith,
  Bool-cases, inl, inr, ==_iff,
}
use mycat_js.Sql.Chars.{Text}
use mycat_js.Backend.Source.{same_text}
use mycat_js.Util.Scheduler.{put, delete, lookup}

pub same_text_refl : (a : Text) → same_text a a ≡ true
unfolding same_text
same_text_refl [] = refl
same_text_refl (c ∷ cs) = ground (arith, same_text_refl cs)

same_text_sym : (a b : Text) → same_text a b ≡ same_text b a
unfolding same_text
same_text_sym [] [] = refl
same_text_sym [] (d ∷ ds) = refl
same_text_sym (c ∷ cs) [] = refl
same_text_sym (c ∷ cs) (d ∷ ds) = ground (arith, same_text_sym cs ds)

pub same_text_eq : (a b : Text) → same_text a b ≡ true → a ≡ b
unfolding same_text
same_text_eq [] [] h = refl
same_text_eq [] (d ∷ ds) h = cc
same_text_eq (c ∷ cs) [] h = cc
same_text_eq (c ∷ cs) (d ∷ ds) h = elim (Bool-cases (c == d)) [
  | inl e ↦
      (let heads : c ≡ d = (==_iff c d).0 e in
        let tails : cs ≡ ds = same_text_eq cs ds (rw e at h) in rw (heads, tails) refl)
  | inr e ↦ absurd (cc (rw e at h))
]

-- No entry has the name.
abbrev pub Free : Text → List (Text × ℕ) → Type 0
Free name [] = Unit {0}
Free name ((key, t) ∷ rest) = (same_text key name ≡ false) × Free name rest

abbrev pub Distinct : List (Text × ℕ) → Type 0
Distinct [] = Unit {0}
Distinct ((key, t) ∷ rest) = Free key rest × Distinct rest

Free-lookup : (name : Text) (ts : List (Text × ℕ)) → Free name ts → lookup name ts ≡ none
unfolding lookup
Free-lookup name [] w = refl
Free-lookup name ((key, t) ∷ rest) w = rw (w.0) (Free-lookup name rest w.1)

put-Free :
    (key name : Text) (t : ℕ) (ts : List (Text × ℕ))
    → same_text name key ≡ false
    → Free key ts
    → Free key (put name t ts)
unfolding put
put-Free key name t [] h w = (h, tt)
put-Free key name t ((k, u) ∷ rest) h w = elim (Bool-cases (same_text k name)) [
  | inl e ↦ rw (e) w
  | inr e ↦ rw (e) (w.0, put-Free key name t rest h w.1)
]

pub put-Distinct :
    (name : Text) (t : ℕ) (ts : List (Text × ℕ)) → Distinct ts → Distinct (put name t ts)
unfolding put
put-Distinct name t [] w = (tt, tt)
put-Distinct name t ((k, u) ∷ rest) w = elim (Bool-cases (same_text k name)) [
  | inl e ↦ rw (e) w
  | inr e ↦
      rw (e) (put-Free k name t rest (same_text_sym name k ∙ e) w.0, put-Distinct name t rest w.1)
]

delete-Free : (key name : Text) (ts : List (Text × ℕ)) → Free key ts → Free key (delete name ts)
unfolding delete
delete-Free key name [] w = tt
delete-Free key name ((k, u) ∷ rest) w = elim (Bool-cases (same_text k name)) [
  | inl e ↦ rw (e) w.1
  | inr e ↦ rw (e) (w.0, delete-Free key name rest w.1)
]

pub delete-Distinct : (name : Text) (ts : List (Text × ℕ)) → Distinct ts → Distinct (delete name ts)
unfolding delete
delete-Distinct name [] w = tt
delete-Distinct name ((k, u) ∷ rest) w = elim (Bool-cases (same_text k name)) [
  | inl e ↦ rw (e) w.1
  | inr e ↦ rw (e) (delete-Free k name rest w.0, delete-Distinct name rest w.1)
]

pub lookup-put : (name : Text) (t : ℕ) (ts : List (Text × ℕ)) → lookup name (put name t ts) ≡ some t
unfolding lookup put
lookup-put name t [] = rw (same_text_refl name) refl
lookup-put name t ((k, u) ∷ rest) = elim (Bool-cases (same_text k name)) [
  | inl e ↦ rw (e, e) refl
  | inr e ↦ rw (e, e) (lookup-put name t rest)
]

-- Where names are distinct, a name that is deleted is free.
pub delete-frees :
    (name : Text) (ts : List (Text × ℕ)) → Distinct ts → lookup name (delete name ts) ≡ none
unfolding lookup delete
delete-frees name [] w = refl
delete-frees name ((k, u) ∷ rest) w = elim (Bool-cases (same_text k name)) [
  | inl e ↦ rw (e) (Free-lookup name rest (rw (same_text_eq k name e) at w.0))
  | inr e ↦ rw (e, e) (delete-frees name rest w.1)
]

pub lookup-delete_other :
    (name other : Text) (ts : List (Text × ℕ))
    → same_text name other ≡ false
    → lookup other (delete name ts) ≡ lookup other ts
unfolding lookup delete
lookup-delete_other name other [] h = refl
lookup-delete_other name other ((k, u) ∷ rest) h = elim (Bool-cases (same_text k name)) [
  | inl e ↦
      (let differs : same_text k other ≡ false =
          ap (λ n. same_text n other) (same_text_eq k name e) ∙ h in
        rw (e, differs) refl)
  | inr e ↦
      rw (e)
        (ap (λ o. if same_text k other then some u else o) (lookup-delete_other name other rest h))
]

-- ===== src/Backend/DbPool/Choice.antt =====
-- Which write source PhysicalDbPool of backend/data-source/physical-db-pool.js chooses.
use mycat_js.Prelude.{
  ℕ, suc, ◌+◌, ◌%◌, ◌≡◌, refl, ap, ◌∙◌, Bool, false, not, ◌&&◌, List, [], ◌∷◌, some, ◌==◌,
  if◌then◌else◌, ok, get_elem?, length, arith, Bool-cases, inl, inr,
}
use mycat_js.Backend.DbPool.{DbPool, alive_list, second_choice, choice, random_source}

and_dead : (b c : Bool) → c ≡ false → (not b && c) ≡ false
and_dead b c h = ground arith

module _ {S : Type 0} where
  alive_list_dead :
      (alive : S → Bool) (source : S) (index i : ℕ) (ss : List S)
      → alive source ≡ false
      → alive_list alive source index i ss ≡ []
  unfolding alive_list
  alive_list_dead alive source index i [] h = refl
  alive_list_dead alive source index i (s ∷ ss) h =
      rw (and_dead (i == index) (alive source) h) (alive_list_dead alive source index (i + 1) ss h)

  -- A random choice of the write source is the source at the random place where that is alive, and
  -- otherwise the first source, whatever sources are alive.
  pub random_source_dead :
      (alive : S → Bool) (s : S) (ss : List S) (first second : ℕ) (source : S)
      → get_elem? (s ∷ ss) (first % suc (length ss)) ≡ some source
      → random_source alive (s ∷ ss) first second ≡ ok (some (if alive source then source else s))
  unfolding random_source second_choice choice
  random_source_dead alive s ss first second source h =
      ap (choice alive (s ∷ ss) (first % suc (length ss)) second) h
      ∙ elim (Bool-cases (alive source)) [
        | inl e ↦ rw e refl
        | inr e ↦ rw (e, alive_list_dead alive source (first % suc (length ss)) 0 (s ∷ ss) e) refl
      ]

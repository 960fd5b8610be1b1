-- ===== src/Backend/Source/Idle.antt =====
-- Which idle connection the pool of backend/data-source/physical-data-source.js lends.
use mycat_js.Prelude.{
  ℕ, ◌≡◌, refl, ap, ◌∙◌, Bool, true, false, not, ◌&&◌, ◌||◌, List, [], ◌∷◌, ◌++◌, Option, none,
  some, arith, Bool-cases, inl, inr,
}
use mathlib.Core.Bool.{or_comm}
use mycat_js.Sql.Chars.{Text}
use mycat_js.Backend.Source.{
  ConnQueue, empty_queue, shift_alive, get_other, get_of, queue_get, same_text, is_asked, get_next,
  get_elsewhere, upper, with_queue, get_among, pool_get,
}

-- What a search leaves: the connection, both arrays as one, and the connections that it closed.
abbrev pub as_one : Option ℕ × List ℕ × List ℕ × List ℕ → Option ℕ × List ℕ × List ℕ
as_one (c, a, b, shut) = (c, a ++ b, shut)

get_other-shut :
    (alive : ℕ → Bool) (qb : List ℕ) (o : Option ℕ) (r shut : List ℕ) (c : ℕ)
    → as_one (get_other alive qb (o, r, c ∷ shut))
      ≡ (let (d, rest, more) = as_one (get_other alive qb (o, r, shut)) in (d, rest, c ∷ more))
unfolding get_other
get_other-shut alive qb none r shut c = refl
get_other-shut alive qb (some d) r shut c = refl

-- The search of two arrays is the search of the one behind the other: it finds the same
-- connection, leaves the same connections and closes the same ones.
pub get_of-shift_alive :
    (alive : ℕ → Bool) (qa qb : List ℕ) → as_one (get_of alive qa qb) ≡ shift_alive alive (qa ++ qb)
unfolding get_of shift_alive get_other
get_of-shift_alive alive [] qb = refl
get_of-shift_alive alive (c ∷ cs) qb = elim (Bool-cases (alive c)) [
  | inl e ↦ rw e refl
  | inr e ↦ rw e (
      get_other-shut alive qb (shift_alive alive cs).0 (shift_alive alive cs).1
        (shift_alive alive cs).2 c
      ∙ ap (λ (d, rest, more). (d, rest, c ∷ more)) (get_of-shift_alive alive cs qb))
]

abbrev pub is_some {ℓ} : {A : Type ℓ} → Option A → Bool
is_some none = false
is_some (some a) = true

unfoldable pub any_in : (ℕ → Bool) → List ℕ → Bool
any_in alive [] = false
any_in alive (c ∷ cs) = alive c || any_in alive cs

-- Whether a queue has a connection that is alive.
unfoldable pub any_idle : (ℕ → Bool) → ConnQueue → Bool
any_idle alive q = any_in alive q.auto_commits || any_in alive q.man_commits

-- Whether a queue of the pool has one.
unfoldable pub any_of : (ℕ → Bool) → List (Text × ConnQueue) → Bool
any_of alive [] = false
any_of alive ((n, q) ∷ rest) = any_idle alive q || any_of alive rest

shift_alive-any_in :
    (alive : ℕ → Bool) (xs : List ℕ) → is_some (shift_alive alive xs).0 ≡ any_in alive xs
unfolding shift_alive any_in
shift_alive-any_in alive [] = refl
shift_alive-any_in alive (c ∷ cs) = ground (arith, shift_alive-any_in alive cs)

any_in-append :
    (alive : ℕ → Bool) (qa qb : List ℕ)
    → any_in alive (qa ++ qb) ≡ (any_in alive qa || any_in alive qb)
unfolding any_in
any_in-append alive [] qb = refl
any_in-append alive (c ∷ cs) qb = ground (arith, any_in-append alive cs qb)

get_of-any_in :
    (alive : ℕ → Bool) (qa qb : List ℕ)
    → is_some (get_of alive qa qb).0 ≡ (any_in alive qa || any_in alive qb)
get_of-any_in alive qa qb =
    ap (λ r. is_some r.0) (get_of-shift_alive alive qa qb)
    ∙ shift_alive-any_in alive (qa ++ qb)
    ∙ any_in-append alive qa qb

queue_get-any_idle :
    (alive : ℕ → Bool) (q : ConnQueue) (auto_commit : Bool)
    → is_some (queue_get alive q auto_commit).0 ≡ any_idle alive q
unfolding queue_get any_idle
queue_get-any_idle alive q true = get_of-any_in alive q.auto_commits q.man_commits
queue_get-any_idle alive q false =
    get_of-any_in alive q.man_commits q.auto_commits
    ∙ or_comm (any_in alive q.man_commits) (any_in alive q.auto_commits)

-- Whether one of the queues that a round asks has one.
any_asked : (ℕ → Bool) → Bool → Text → List (Text × ConnQueue) → Bool
any_asked alive own name [] = false
any_asked alive own name ((n, q) ∷ rest) =
    (is_asked own name n && any_idle alive q) || any_asked alive own name rest

get_next-found :
    (n : Text) (rest : List (Text × ConnQueue)) (c : Option ℕ) (q : ConnQueue) (shut : List ℕ)
    (later : Option ℕ × List (Text × ConnQueue) × List ℕ)
    → is_some (get_next n rest (c, q, shut) later).0 ≡ (is_some c || is_some later.0)
unfolding get_next
get_next-found n rest none q shut later = refl
get_next-found n rest (some c) q shut later = refl

get_next-others :
    (alive : ℕ → Bool) (name n : Text) (rest : List (Text × ConnQueue)) (c : Option ℕ)
    (q : ConnQueue) (shut : List ℕ) (later : Option ℕ × List (Text × ConnQueue) × List ℕ)
    → same_text n name ≡ true
    → any_asked alive false name later.1 ≡ any_asked alive false name rest
    → any_asked alive false name (get_next n rest (c, q, shut) later).1
      ≡ any_asked alive false name rest
unfolding get_next any_asked is_asked
get_next-others alive name n rest none q shut later e k = rw e k
get_next-others alive name n rest (some c) q shut later e k = rw e refl

get_among-any_asked :
    (alive : ℕ → Bool) (own auto_commit : Bool) (name : Text) (pool : List (Text × ConnQueue))
    → is_some (get_among alive name own auto_commit pool).0 ≡ any_asked alive own name pool
unfolding get_among any_asked get_next
get_among-any_asked alive own auto_commit name [] = refl
get_among-any_asked alive own auto_commit name ((n, q) ∷ rest) =
    let later = get_among alive name own auto_commit rest in
    let r = queue_get alive q auto_commit in
    let ih = get_among-any_asked alive own auto_commit name rest in
    elim (Bool-cases (is_asked own name n)) [
      | inl e ↦ rw e (
          get_next-found n rest r.0 r.1 r.2 later
          ∙ ap (λ b. b || is_some later.0) (queue_get-any_idle alive q auto_commit)
          ∙ ap (λ b. any_idle alive q || b) ih)
      | inr e ↦ rw e ih
    ]

-- The search of the schema's own queue leaves the others.
get_among-others :
    (alive : ℕ → Bool) (auto_commit : Bool) (name : Text) (pool : List (Text × ConnQueue))
    → any_asked alive false name (get_among alive name true auto_commit pool).1
      ≡ any_asked alive false name pool
unfolding get_among any_asked get_next is_asked
get_among-others alive auto_commit name [] = refl
get_among-others alive auto_commit name ((n, q) ∷ rest) =
    let later = get_among alive name true auto_commit rest in
    let r = queue_get alive q auto_commit in
    let ih = get_among-others alive auto_commit name rest in
    elim (Bool-cases (same_text n name)) [
      | inl e ↦ rw e (get_next-others alive name n rest r.0 r.1 r.2 later e ih)
      | inr e ↦ rw e (
          ap (λ b. (not (same_text n name) && any_idle alive q) || b) ih
          ∙ ap (λ b. (not b && any_idle alive q) || any_asked alive false name rest) e)
    ]

any_asked-with_queue :
    (alive : ℕ → Bool) (own : Bool) (name new : Text) (pool : List (Text × ConnQueue))
    → any_asked alive own name (with_queue pool new) ≡ any_asked alive own name pool
unfolding any_asked with_queue empty_queue any_idle any_in
any_asked-with_queue alive own name new [] = ground arith
any_asked-with_queue alive own name new ((n, q) ∷ rest) = elim (Bool-cases (same_text n new)) [
  | inl e ↦ rw e refl
  | inr e ↦ rw e (
      ap (λ b. (is_asked own name n && any_idle alive q) || b)
        (any_asked-with_queue alive own name new rest))
]

any_asked-any_of :
    (alive : ℕ → Bool) (name : Text) (pool : List (Text × ConnQueue))
    → (any_asked alive true name pool || any_asked alive false name pool) ≡ any_of alive pool
unfolding any_asked any_of is_asked
any_asked-any_of alive name [] = refl
any_asked-any_of alive name ((n, q) ∷ rest) = ground (arith, any_asked-any_of alive name rest)

get_elsewhere-any_asked :
    (alive : ℕ → Bool) (auto_commit : Bool) (name : Text)
    (r : Option ℕ × List (Text × ConnQueue) × List ℕ)
    → is_some (get_elsewhere alive name auto_commit r).0
      ≡ (is_some r.0 || any_asked alive false name r.1)
unfolding get_elsewhere
get_elsewhere-any_asked alive auto_commit name (none, pool, shut) =
    get_among-any_asked alive false auto_commit name pool
get_elsewhere-any_asked alive auto_commit name (some c, pool, shut) = refl

-- The pool finds a connection exactly where a queue of any schema has one that is alive.
pub pool_get-any_of :
    (alive : ℕ → Bool) (pool : List (Text × ConnQueue)) (schema : Text) (auto_commit : Bool)
    → is_some (pool_get alive pool schema auto_commit).0 ≡ any_of alive pool
unfolding pool_get
pool_get-any_of alive pool schema auto_commit =
    let name = upper schema in
    let all = with_queue pool name in
    let r = get_among alive name true auto_commit all in
    get_elsewhere-any_asked alive auto_commit name r
    ∙ ap (λ b. b || any_asked alive false name r.1)
        (get_among-any_asked alive true auto_commit name all)
    ∙ ap (λ b. any_asked alive true name all || b) (get_among-others alive auto_commit name all)
    ∙ ap (λ b. b || any_asked alive false name all) (any_asked-with_queue alive true name name pool)
    ∙ ap (λ b. any_asked alive true name pool || b)
        (any_asked-with_queue alive false name name pool)
    ∙ any_asked-any_of alive name pool

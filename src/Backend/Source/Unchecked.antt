-- ===== src/Backend/Source/Unchecked.antt =====
-- getConnection of backend/data-source/physical-data-source.js where the configuration turns the
-- check of idle connections off.
use mycat_js.Prelude.{
  ℕ, ◌+◌, ◌≡◌, refl, ap, ◌∙◌, Bool, false, List, [], ◌∷◌, Option, none, some, if◌then◌else◌, arith,
  Bool-cases, Option-cases, get_elem?, inl, inr,
}
use mycat_js.Sql.Chars.{Text}
use mycat_js.Backend.Source.{
  DataSource, BackConnection, ConnQueue, is_alive, pool_get, sleeps, opens, found, searched,
  begin_open, get_connection, is_full,
}
use mycat_js.Backend.Source.Idle.{is_some, any_in, any_idle, any_of, pool_get-any_of}

-- Nothing in a list is alive where nothing is.
any_in-never :
    (alive : ℕ → Bool) (xs : List ℕ) → ((c : ℕ) → alive c ≡ false) → any_in alive xs ≡ false
unfolding any_in
any_in-never alive [] h = refl
any_in-never alive (c ∷ cs) h = rw (h c) (any_in-never alive cs h)

any_of-never :
    (alive : ℕ → Bool) (pool : List (Text × ConnQueue))
    → ((c : ℕ) → alive c ≡ false)
    → any_of alive pool ≡ false
unfolding any_of any_idle
any_of-never alive [] h = refl
any_of-never alive ((n, q) ∷ rest) h =
    rw (any_in-never alive q.auto_commits h, any_in-never alive q.man_commits h)
      (any_of-never alive rest h)

is_alive_unchecked :
    (store : List BackConnection) (answers : ℕ → Bool) (c : ℕ)
    → is_alive false store answers c ≡ false
unfolding is_alive
is_alive_unchecked store answers c = elim (Option-cases (get_elem? store c)) [
  | inl e ↦ rw (is_alive, e) refl
  | inr (conn, e) ↦ rw (is_alive, e) (ground arith)
]

found_none :
    (s : DataSource) (schema : Text) (now : ℕ) (c : Option ℕ)
    → is_some c ≡ false
    → (found s schema now c).0 ≡ (if is_full s then sleeps (now + s.max_wait) else opens)
unfolding found begin_open
found_none s schema now none h = elim (Bool-cases (is_full s)) [
  | inl e ↦ rw e refl
  | inr e ↦ rw e refl
]
found_none s schema now (some c) h = cc

-- With `checkAlive` off, getConnection lends no connection of the pool, whatever stands idle
-- there: it sleeps where the counter is at the limit, and opens a new connection where it is not.
pub get_connection_unchecked :
    (s : DataSource) (answers : ℕ → Bool) (schema : Text) (auto_commit : Bool) (now : ℕ)
    → s.check_alive ≡ false
    → (get_connection s answers schema auto_commit now).0
      ≡ (if is_full s then sleeps (now + s.max_wait) else opens)
unfolding get_connection searched is_full
get_connection_unchecked s answers schema auto_commit now h =
    let alive = is_alive s.check_alive s.store answers in
    let r = pool_get alive s.pool schema auto_commit in
    let never : (c : ℕ) → alive c ≡ false =
      λ c. ap (λ b. is_alive b s.store answers c) h ∙ is_alive_unchecked s.store answers c in
    found_none (searched s r) schema now r.0
      (pool_get-any_of alive s.pool schema auto_commit ∙ any_of-never alive s.pool never)

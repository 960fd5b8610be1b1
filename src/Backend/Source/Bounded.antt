-- ===== src/Backend/Source/Bounded.antt =====
-- The limit on the connections of a data source of backend/data-source/physical-data-source.js.
use mycat_js.Prelude.{
  ℕ, zero, suc, ◌≡◌, ◌≤◌, Bool, false, List, [], ◌∷◌, Option, none, some, leb, ltb, ℤ, pos, negsuc,
  get_elem?, arith, Bool-cases, not, ◌&&◌, Option-cases, inl, inr,
}
use mycat_js.Backend.Source.{
  DataSource, inc, dec, is_full, begin_open, found, searched, get_connection, pool_get, is_alive,
  wake, opened, open_failed, lend, release_conn, close_conn, Event, gets, wakes, opens_at, fails,
  releases, closes, step, run,
}

-- An integer is at most a number.
abbrev pub IsAtMost : ℤ → ℕ → Type 0
IsAtMost (pos n) m = n ≤ m
IsAtMost (negsuc n) m = Unit {0}

-- There are no more connections than the limit, as the counter says.
abbrev pub IsWithin : DataSource → Type 0
IsWithin s = IsAtMost s.conn_count s.size

dec-IsAtMost : (z : ℤ) (m : ℕ) → IsAtMost z m → IsAtMost (dec z) m
unfolding dec
dec-IsAtMost (pos zero) m h = tt
dec-IsAtMost (pos (suc n)) m h = omega arith
dec-IsAtMost (negsuc n) m h = tt

inc-IsAtMost :
    (z : ℤ) (m : ℕ) → (elim z [ pos n ↦ leb m n | negsuc n ↦ false ]) ≡ false → IsAtMost (inc z) m
unfolding inc
inc-IsAtMost (pos n) m h = ground arith
inc-IsAtMost (negsuc zero) m h = omega arith
inc-IsAtMost (negsuc (suc n)) m h = tt

begin_open-IsWithin : (s : DataSource) → is_full s ≡ false → IsWithin (begin_open s).1
unfolding begin_open is_full inc
begin_open-IsWithin s h = inc-IsAtMost s.conn_count s.size h

found-IsWithin :
    (s : DataSource) (schema : List ℕ) (now : ℕ) (c : Option ℕ)
    → IsWithin s
    → IsWithin (found s schema now c).1
unfolding found lend
found-IsWithin s schema now (some c) v = v
found-IsWithin s schema now none v = elim (Bool-cases (is_full s)) [
  | inl e ↦ rw e v
  | inr e ↦ rw e (begin_open-IsWithin s e)
]

gets-IsWithin :
    (s : DataSource) (answers : ℕ → Bool) (schema : List ℕ) (auto_commit : Bool) (now : ℕ)
    → IsWithin s
    → IsWithin (get_connection s answers schema auto_commit now).1
unfolding get_connection searched
gets-IsWithin s answers schema auto_commit now v =
    let r = pool_get (is_alive s.check_alive s.store answers) s.pool schema auto_commit in
    found-IsWithin (searched s r) schema now r.0 v

wakes-IsWithin : (s : DataSource) (until now : ℕ) → IsWithin s → IsWithin (wake s until now).1
unfolding wake
wakes-IsWithin s until now v = elim (Bool-cases (ltb until now)) [
  | inl e ↦ rw e v
  | inr e ↦ elim (Bool-cases (is_full s)) [
    | inl f ↦ rw (e, f) v
    | inr f ↦ rw (e, f) (begin_open-IsWithin s f)
  ]
]

closes-IsWithin : (s : DataSource) (c : ℕ) → IsWithin s → IsWithin (close_conn s c).0
unfolding close_conn
closes-IsWithin s c v = elim (Option-cases (get_elem? s.store c)) [
  | inl e ↦ rw (close_conn, e) v
  | inr (conn, e) ↦ elim (Bool-cases (not conn.closed && conn.pooled)) [
    | inl f ↦ rw (close_conn, e, f) (dec-IsAtMost s.conn_count s.size v)
    | inr f ↦ rw (close_conn, e, f) v
  ]
]

releases-IsWithin : (s : DataSource) (c now : ℕ) → IsWithin s → IsWithin (release_conn s c now)
unfolding release_conn
releases-IsWithin s c now v = elim (Option-cases (get_elem? s.store c)) [
  | inl e ↦ rw (release_conn, e) v
  | inr (conn, e) ↦ rw (release_conn, e) v
]

step-IsWithin : (s : DataSource) (e : Event) → IsWithin s → IsWithin (step s e)
unfolding step opened open_failed release_conn close_conn
step-IsWithin s (gets answers schema auto_commit now) v =
    gets-IsWithin s answers schema auto_commit now v
step-IsWithin s (wakes until now) v = wakes-IsWithin s until now v
step-IsWithin s (opens_at now) v = v
step-IsWithin s fails v = dec-IsAtMost s.conn_count s.size v
step-IsWithin s (releases c now) v = releases-IsWithin s c now v
step-IsWithin s (closes c) v = closes-IsWithin s c v

-- Whatever the clients' calls are and however their steps interleave, the counter of connections
-- stays within the limit, from a state in which it is.
pub run-IsWithin : (s : DataSource) (es : List Event) → IsWithin s → IsWithin (run s es)
unfolding run
run-IsWithin s [] v = v
run-IsWithin s (e ∷ es) v = run-IsWithin (step s e) es (step-IsWithin s e v)

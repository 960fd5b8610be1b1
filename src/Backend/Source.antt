-- ===== src/Backend/Source.antt =====
-- The pool of backend connections: PhysicalDataSource and ConnPool of
-- backend/data-source/physical-data-source.js. Whether a database answers a heartbeat, the time and
-- the new connections are arguments. A call is one step up to where it sleeps or opens a connection.
pub mod Queue
pub mod Idle
pub mod Unchecked
pub mod Bounded
unfoldable pub use Queue.*
use mycat_js.Prelude.{
  ℕ, zero, suc, ◌+◌, ◌-◌, ◌≡◌, Bool, true, false, not, ◌&&◌, List, [], ◌∷◌, ◌++◌, Option, none,
  some, leb, ◌==◌, ltb, if◌then◌else◌, Error, conn_error, ℤ, pos, negsuc, get_elem?, set, length,
}
use mycat_js.Sql.Chars.{Text}

pub record DataSource : Type 0 where
  pub size : ℕ
  -- `dbConfig.checkAlive`
  pub check_alive : Bool
  pub max_wait : ℕ
  pub conn_count : ℤ
  pub active_count : ℤ
  -- The map of ConnPool, in the order of insertion.
  pub pool : List (Text × ConnQueue)
  pub store : List BackConnection

unfoldable pub inc : ℤ → ℤ
inc (pos n) = pos (n + 1)
inc (negsuc zero) = pos 0
inc (negsuc (suc n)) = negsuc n

unfoldable pub dec : ℤ → ℤ
dec (pos zero) = negsuc 0
dec (pos (suc n)) = pos n
dec (negsuc n) = negsuc (suc n)

-- `connCount >= size`
unfoldable pub is_full : DataSource → Bool
is_full s = elim s.conn_count [ pos n ↦ leb s.size n | negsuc n ↦ false ]

-- toUpperCase on the letters of ASCII: a schema's name has no others.
unfoldable pub upper : Text → Text
upper [] = []
upper (c ∷ cs) = (if leb b'a' c && leb c b'z' then c - 32 else c) ∷ upper cs

unfoldable pub same_text : Text → Text → Bool
same_text [] [] = true
same_text [] (d ∷ ds) = false
same_text (c ∷ cs) [] = false
same_text (c ∷ cs) (d ∷ ds) = c == d && same_text cs ds

-- getConnQueue of ConnPool: the map, with an empty queue under the name where there was none.
unfoldable pub with_queue : List (Text × ConnQueue) → Text → List (Text × ConnQueue)
with_queue [] name = (name, empty_queue) ∷ []
with_queue ((n, q) ∷ rest) name =
    let more = with_queue rest name in if same_text n name then (n, q) ∷ rest else (n, q) ∷ more

-- What `f` makes of the queue under the name.
unfoldable pub on_queue :
    List (Text × ConnQueue) → Text → (ConnQueue → ConnQueue) → List (Text × ConnQueue)
on_queue [] name f = []
on_queue ((n, q) ∷ rest) name f =
    let more = on_queue rest name f in if same_text n name then (n, f q) ∷ rest else (n, q) ∷ more

-- Whether a round of ConnPool.getConn looks into the queue `n`: first into the schema's own, then
-- into the others.
unfoldable pub is_asked : Bool → Text → Text → Bool
is_asked own name n = if own then same_text n name else not (same_text n name)

-- A round behind its queue `n`, with what the search of that queue and of the rest give.
unfoldable pub get_next :
    Text
    → List (Text × ConnQueue)
    → Option ℕ × ConnQueue × List ℕ
    → Option ℕ × List (Text × ConnQueue) × List ℕ
    → Option ℕ × List (Text × ConnQueue) × List ℕ
get_next n rest (some c, q, shut) later = (some c, (n, q) ∷ rest, shut)
get_next n rest (none, q, shut) (c, left, more) = (c, (n, q) ∷ left, shut ++ more)

unfoldable pub get_among :
    (ℕ → Bool)
    → Text
    → Bool
    → Bool
    → List (Text × ConnQueue)
    → Option ℕ × List (Text × ConnQueue) × List ℕ
get_among alive name own auto_commit [] = (none, [], [])
get_among alive name own auto_commit ((n, q) ∷ rest) =
    let later = get_among alive name own auto_commit rest in
    if is_asked own name n
    then get_next n rest (queue_get alive q auto_commit) later
    else (later.0, (n, q) ∷ later.1, later.2)

-- getConn of ConnPool behind the search of the schema's own queue.
unfoldable pub get_elsewhere :
    (ℕ → Bool)
    → Text
    → Bool
    → Option ℕ × List (Text × ConnQueue) × List ℕ
    → Option ℕ × List (Text × ConnQueue) × List ℕ
get_elsewhere alive name auto_commit (some c, pool, shut) = (some c, pool, shut)
get_elsewhere alive name auto_commit (none, pool, shut) =
    let (c, left, more) = get_among alive name false auto_commit pool in (c, left, shut ++ more)

unfoldable pub pool_get :
    (ℕ → Bool) → List (Text × ConnQueue) → Text → Bool → Option ℕ × List (Text × ConnQueue) × List ℕ
pool_get alive pool schema auto_commit =
    get_elsewhere alive (upper schema) auto_commit
      (get_among alive (upper schema) true auto_commit (with_queue pool (upper schema)))

unfoldable pub execute_counted : ConnQueue → ConnQueue
execute_counted q = record q { execute_count = q.execute_count + 1 }

-- How a call ends: with a connection, with an error, asleep because of the limit until a time, or
-- opening a new connection.
pub data Lent : Type 0 where
  lends : ℕ → Lent
  throws : Error → Lent
  sleeps : ℕ → Lent
  opens : Lent

-- What getConnection does with a connection of the pool.
unfoldable pub lend : DataSource → Text → ℕ → ℕ → DataSource
lend s schema now c = record s {
  active_count = inc s.active_count;
  pool = on_queue (with_queue s.pool (upper schema)) (upper schema) execute_counted;
  store =
      on_conn s.store c
        (λ conn. record conn { borrowed = true; last_read_time = now; schema = schema });
}

-- The counts before a connection is opened.
unfoldable pub begin_open : DataSource → Lent × DataSource
begin_open s =
    (opens, record s { conn_count = inc s.conn_count; active_count = inc s.active_count })

-- getConnection behind the search of the pool, with what the search found.
unfoldable pub found : DataSource → Text → ℕ → Option ℕ → Lent × DataSource
found s schema now (some c) = (lends c, lend s schema now c)
found s schema now none = if is_full s then (sleeps (now + s.max_wait), s) else begin_open s

-- The data source behind the search of the pool.
unfoldable pub searched : DataSource → Option ℕ × List (Text × ConnQueue) × List ℕ → DataSource
searched s (c, pool, shut) = record s { pool = pool; store = close_all s.store shut }

-- getConnection up to its first sleep or the opening.
unfoldable pub get_connection : DataSource → (ℕ → Bool) → Text → Bool → ℕ → Lent × DataSource
get_connection s answers schema auto_commit now =
    let r = pool_get (is_alive s.check_alive s.store answers) s.pool schema auto_commit in
    found (searched s r) schema now r.0

-- The rest of a round of the loop that waits, behind its sleep.
unfoldable pub wake : DataSource → ℕ → ℕ → Lent × DataSource
wake s until now =
    if ltb until now
    then (throws conn_error, s)
    else if is_full s
    then (sleeps until, s)
    else begin_open s

-- The rest of getConnection once a connection was opened and the first statement was run.
unfoldable pub opened : DataSource → ℕ → ℕ × DataSource
opened s now = (length s.store, record s { store = s.store ++ fresh now ∷ [] })

-- The `finally` block where the opening failed.
unfoldable pub open_failed : DataSource → DataSource
open_failed s = record s { active_count = dec s.active_count; conn_count = dec s.conn_count }

-- releaseConn on a BackConnection.
unfoldable pub release_conn : DataSource → ℕ → ℕ → DataSource
release_conn s c now = elim (get_elem? s.store c) [
  | none ↦ s
  | some conn ↦ record s {
    active_count = dec s.active_count;
    pool =
        on_queue (with_queue s.pool (upper conn.schema)) (upper conn.schema)
          (push conn.auto_commit c);
    store = set s.store c (record conn { last_read_time = now; borrowed = false });
  }
]

-- closeConn on a BackConnection, which it also closes.
unfoldable pub close_conn : DataSource → ℕ → DataSource × Bool
close_conn s c = elim (get_elem? s.store c) [
  | none ↦ (s, false)
  | some conn ↦
      if not conn.closed && conn.pooled
      then (
        record s {
          conn_count = dec s.conn_count;
          active_count = dec s.active_count;
          store = set s.store c (close (record conn { pooled = false }));
        },
        true,
      )
      else (record s { store = set s.store c (close conn) }, false)
]

-- The steps of the clients' calls, as they interleave.
pub data Event : Type 0 where
  gets : (ℕ → Bool) → Text → Bool → ℕ → Event
  wakes : ℕ → ℕ → Event
  opens_at : ℕ → Event
  fails : Event
  releases : ℕ → ℕ → Event
  closes : ℕ → Event

unfoldable pub step : DataSource → Event → DataSource
step s (gets answers schema auto_commit now) = (get_connection s answers schema auto_commit now).1
step s (wakes until now) = (wake s until now).1
step s (opens_at now) = (opened s now).1
step s fails = open_failed s
step s (releases c now) = release_conn s c now
step s (closes c) = (close_conn s c).0

unfoldable pub run : DataSource → List Event → DataSource
run s [] = s
run s (e ∷ es) = run (step s e) es

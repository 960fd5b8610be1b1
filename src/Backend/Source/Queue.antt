-- ===== src/Backend/Source/Queue.antt =====
-- ConnQueue of backend/data-source/physical-data-source.js, with the BackConnection of
-- backend/back-connection.js. A connection is known by its place in the store, which its holders
-- share.
use mycat_js.Prelude.{
  ℕ, Bool, true, false, not, ◌&&◌, List, [], ◌∷◌, ◌++◌, Option, none, some, ◌==◌, if◌then◌else◌,
  get_elem?, set,
}
use mycat_js.Sql.Chars.{Text}

pub record BackConnection : Type 0 where
  pub schema : Text
  pub auto_commit : Bool
  pub closed : Bool
  -- Whether `#conn` is set.
  pub connected : Bool
  pub pooled : Bool
  pub borrowed : Bool
  pub last_read_time : ℕ

pub record ConnQueue : Type 0 where
  pub auto_commits : List ℕ
  pub man_commits : List ℕ
  pub execute_count : ℕ

unfoldable pub empty_queue : ConnQueue
empty_queue = record { auto_commits = []; man_commits = []; execute_count = 0 }

-- A connection that getConnection made: its schema is not set.
unfoldable pub fresh : ℕ → BackConnection
fresh now = record {
  schema = [];
  auto_commit = true;
  closed = false;
  connected = true;
  pooled = true;
  borrowed = true;
  last_read_time = now;
}

unfoldable pub on_conn :
    List BackConnection → ℕ → (BackConnection → BackConnection) → List BackConnection
on_conn store c f = elim (get_elem? store c) [ none ↦ store | some conn ↦ set store c (f conn) ]

-- checkAlive of BackConnection: it is false where the configuration turns the check off.
unfoldable pub is_alive : Bool → List BackConnection → (ℕ → Bool) → ℕ → Bool
is_alive check_alive store answers c = elim (get_elem? store c) [
  | none ↦ false
  | some conn ↦ not conn.closed && conn.connected && check_alive && answers c
]

-- close of BackConnection. Its call of `closeConn` passes the database's connection, which is no
-- BackConnection, so that the data source's counts stay.
unfoldable pub close : BackConnection → BackConnection
close conn = record conn {
  auto_commit = if conn.connected then true else conn.auto_commit;
  connected = false;
  closed = true;
}

unfoldable pub close_all : List BackConnection → List ℕ → List BackConnection
close_all store [] = store
close_all store (c ∷ cs) = close_all (on_conn store c close) cs

-- The loop of getConn over one array: the first connection that is alive, the array behind it, and
-- the connections that were closed.
unfoldable pub shift_alive : (ℕ → Bool) → List ℕ → Option ℕ × List ℕ × List ℕ
shift_alive alive [] = (none, [], [])
shift_alive alive (c ∷ cs) =
    let (found, rest, shut) = shift_alive alive cs in
    if alive c then (some c, cs, []) else (found, rest, c ∷ shut)

-- getConn behind the loop over the array of the mode, with what that left: the loop over the other
-- array `qb` where no connection was found. The result has what is left of both.
unfoldable pub get_other :
    (ℕ → Bool) → List ℕ → Option ℕ × List ℕ × List ℕ → Option ℕ × List ℕ × List ℕ × List ℕ
get_other alive qb (some c, a, shut) = (some c, a, qb, shut)
get_other alive qb (none, a, shut) =
    let (c, b, more) = shift_alive alive qb in (c, a, b, shut ++ more)

unfoldable pub get_of : (ℕ → Bool) → List ℕ → List ℕ → Option ℕ × List ℕ × List ℕ × List ℕ
get_of alive qa qb = get_other alive qb (shift_alive alive qa)

unfoldable pub queue_get : (ℕ → Bool) → ConnQueue → Bool → Option ℕ × ConnQueue × List ℕ
queue_get alive q true =
    let (c, a, m, shut) = get_of alive q.auto_commits q.man_commits in
    (c, record q { auto_commits = a; man_commits = m }, shut)
queue_get alive q false =
    let (c, m, a, shut) = get_of alive q.man_commits q.auto_commits in
    (c, record q { auto_commits = a; man_commits = m }, shut)

-- The push at the end of releaseConn.
unfoldable pub push : Bool → ℕ → ConnQueue → ConnQueue
push true c q = record q { auto_commits = q.auto_commits ++ c ∷ [] }
push false c q = record q { man_commits = q.man_commits ++ c ∷ [] }

-- The array without the first place of the connection, where it has it.
unfoldable pub remove_one : List ℕ → ℕ → Option (List ℕ)
remove_one [] c = none
remove_one (d ∷ ds) c =
    let rest = remove_one ds c in
    if d == c then some ds else elim rest [ none ↦ none | some r ↦ some (d ∷ r) ]

-- What `splice(-1, 1)` leaves.
unfoldable pub drop_last : List ℕ → List ℕ
drop_last [] = []
drop_last (c ∷ []) = []
drop_last (c ∷ (d ∷ ds)) = c ∷ drop_last (d ∷ ds)

-- removeConn: its test compares the array, not the index, with -1, so that a connection that is in
-- neither array removes the last one of `manCommits`.
unfoldable pub remove_conn : ConnQueue → ℕ → ConnQueue × Bool
remove_conn q c = elim (remove_one q.auto_commits c) [
  | some r ↦ (record q { auto_commits = r }, true)
  | none ↦ elim (remove_one q.man_commits c) [
    | some r ↦ (record q { man_commits = r }, true)
    | none ↦ (record q { man_commits = drop_last q.man_commits }, true)
  ]
]

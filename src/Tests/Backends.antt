-- ===== src/Tests/Backends.antt =====
-- The pool of backend connections and the reader of frames, at concrete inputs.
use mycat_js.Prelude.{
  ℕ, ◌≡◌, refl, ap, ◌∙◌, List, [], ◌∷◌, ◌++◌, Bool, true, false, some, ok, arith, length, ◌==◌,
  take, drop, pos,
}
use mycat_js.Runtime.{Bytes}
use mycat_js.Net.Packets.{frame}
use mycat_js.Backend.Source.{
  DataSource, ConnQueue, fresh, Event, gets, opens_at, releases, closes, run, pool_get,
  get_connection, sleeps, is_full,
}
use mycat_js.Backend.Source.Bounded.{IsWithin, run-IsWithin}
use mycat_js.Backend.Source.Idle.{is_some, any_of, pool_get-any_of}
use mycat_js.Backend.Source.Unchecked.{get_connection_unchecked}
use mycat_js.Backend.DbPool.{DbPool}
use mycat_js.Frontend.ReadHandler.{Socket, IsSocket, Source, Ended, packet, read_uncompressed}
use mycat_js.Frontend.ReadHandler.Ends.{EndIsWithin, read_uncompressed-Ends}
use mycat_js.Frontend.ReadHandler.Frames.{head_of, read_uncompressed-wire}

abbrev a_queue : ConnQueue
a_queue = record { auto_commits = 0 ∷ []; man_commits = []; execute_count = 4 }

abbrev a_source : Bool → DataSource
a_source check_alive = record {
  size = 1;
  check_alive = check_alive;
  max_wait = 30000;
  conn_count = pos 1;
  active_count = pos 0;
  pool = (65 ∷ [], a_queue) ∷ [];
  store = fresh 0 ∷ [];
}

abbrev some_events : List Event
some_events =
    gets (λ c. true) (97 ∷ []) true 10
    ∷ gets (λ c. true) (98 ∷ []) false 11
    ∷ closes 0
    ∷ gets (λ c. true) (98 ∷ []) false 12
    ∷ opens_at 20
    ∷ releases 1 30
    ∷ []

run-IsWithin_example : IsWithin (run (a_source true) some_events)
run-IsWithin_example = run-IsWithin (a_source true) some_events (omega arith)

pool_get-any_of_example :
    is_some (pool_get (λ c. c == 0) (a_source true).pool (98 ∷ []) false).0
    ≡ any_of (λ c. c == 0) (a_source true).pool
pool_get-any_of_example = pool_get-any_of (λ c. c == 0) (a_source true).pool (98 ∷ []) false

get_connection_unchecked_example :
    (get_connection (a_source false) (λ c. true) (97 ∷ []) true 10).0 ≡ sleeps 30010
unfolding is_full
get_connection_unchecked_example =
    get_connection_unchecked (a_source false) (λ c. true) (97 ∷ []) true 10 refl

-- A socket that holds all that the peer sent.
abbrev full_socket : Socket Bytes
full_socket = record { read = λ s n. ok (some (take n s, drop n s)) }

split_at : (xs ys : Bytes) → (take (length xs) (xs ++ ys) ≡ xs) × (drop (length xs) (xs ++ ys) ≡ ys)
split_at [] ys = (refl, refl)
split_at (x ∷ xs) ys = (ap (λ r. x ∷ r) (split_at xs ys).0, (split_at xs ys).1)

full_socket-IsSocket : IsSocket full_socket (λ s. s)
full_socket-IsSocket = record {
  read_exact = λ s xs ys h k. (
    drop (length xs) s,
    ap (λ b. ok (some (b, drop (length xs) s))) (ap (take (length xs)) k ∙ (split_at xs ys).0),
    ap (drop (length xs)) k ∙ (split_at xs ys).1,
  );
}

abbrev a_command : Bytes
a_command = 3 ∷ 115 ∷ 101 ∷ []

abbrev a_client : Source Bytes
a_client = record {
  socket = frame 0 a_command ++ 1 ∷ 0 ∷ [];
  header_size = 4;
  max_allowed_packet = 1000;
  in_bytes = 0;
}

read_uncompressed-Ends_example :
    (e : Ended) × (t : Source Bytes) × (read_uncompressed full_socket a_client ≡ some (e, t))
    × EndIsWithin 1004 e
read_uncompressed-Ends_example = read_uncompressed-Ends full_socket a_client

read_uncompressed-wire_example :
    (t : Source Bytes) × (read_uncompressed full_socket a_client
      ≡ some (packet (some (head_of 0 a_command ++ a_command)) 7, t))
    × (t.socket ≡ 1 ∷ 0 ∷ [])
read_uncompressed-wire_example =
    read_uncompressed-wire full_socket (λ s. s) full_socket-IsSocket a_client 0 [] a_command
      (1 ∷ 0 ∷ []) refl refl tt (omega arith) (omega arith) (omega arith)

abbrev a_pool : DbPool ℕ
a_pool = record {
  write_sources = 0 ∷ 1 ∷ [];
  read_sources = [];
  write_type = 0;
  schemas = (97 ∷ []) ∷ (98 ∷ []) ∷ [];
  init_ok = false;
  active_index = 0;
}

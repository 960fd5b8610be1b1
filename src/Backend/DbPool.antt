-- ===== src/Backend/DbPool.antt =====
-- PhysicalDbPool of backend/data-source/physical-db-pool.js. A data source is a value of `S`; whether
-- it is alive, the random bytes and the outcomes of the first connections are arguments.
pub mod Choice
use mycat_js.Prelude.{
  Error, ℕ, zero, suc, ◌+◌, ◌%◌, ◌≡◌, Bool, true, false, not, ◌&&◌, ◌||◌, List, [], ◌∷◌, ◌++◌,
  Option, none, some, ◌==◌, ltb, if◌then◌else◌, Error, type_error, range_error, plain_error, Result,
  ok, err, get_elem?, length,
}
use mycat_js.Sql.Chars.{Text}

pub record DbPool (S : Type 0) : Type 0 where
  pub write_sources : List S
  -- The map of read sources, in the order of insertion.
  pub read_sources : List (ℕ × List S)
  pub write_type : ℕ
  pub schemas : List Text
  pub init_ok : Bool
  pub active_index : ℕ

abbrev pub write_only_one_node : ℕ
write_only_one_node = 0

abbrev pub write_random_node : ℕ
write_random_node = 1

-- An attempt of `init` to connect, with the schema of its turn. `connects` says whether it gives a
-- connection.
unfoldable pub attempt : (ℕ → Text → Bool) → List Text → ℕ → Bool
attempt connects schemas i = elim (get_elem? schemas (i % length schemas)) [
  | none ↦ false
  | some t ↦ connects i t
]

-- The loop of `init`: whether one of the attempts from `i` on gives a connection.
unfoldable pub init_loop : (ℕ → Text → Bool) → List Text → ℕ → ℕ → Bool
init_loop connects schemas zero i = false
init_loop connects schemas (suc more) i =
    let rest = init_loop connects schemas more (i + 1) in attempt connects schemas i || rest

module _ {S : Type 0} where
  unfoldable pub check_index : DbPool S → ℕ → Bool
  check_index p index = ltb index (length p.write_sources)

  -- Without write sources the remainder is no number.
  unfoldable pub next_index : DbPool S → ℕ → Option ℕ
  next_index p index = elim (length p.write_sources) [
    | zero ↦ none
    | suc n ↦ some ((index + 1) % suc n)
  ]

  unfoldable pub read_all : List (ℕ × List S) → List S
  read_all [] = []
  read_all ((k, sources) ∷ rest) = sources ++ read_all rest

  unfoldable pub generate_all_sources : DbPool S → List S
  generate_all_sources p = p.write_sources ++ read_all p.read_sources

  -- The loop that fills `aliveList`: it asks whether the first choice is alive, not `s`.
  unfoldable pub alive_list : (S → Bool) → S → ℕ → ℕ → List S → List S
  alive_list alive source index i [] = []
  alive_list alive source index i (s ∷ ss) =
      let rest = alive_list alive source index (i + 1) ss in
      if not (i == index) && alive source then s ∷ rest else rest

  -- The second choice, among the list; an empty list gives the first source.
  unfoldable pub second_choice : List S → List S → ℕ → Option S
  second_choice sources [] byte = get_elem? sources 0
  second_choice sources (s ∷ ss) byte = get_elem? (s ∷ ss) (byte % length (s ∷ ss))

  -- What the first choice, at the place `index`, leads to.
  unfoldable pub choice : (S → Bool) → List S → ℕ → ℕ → Option S → Result (Option S)
  choice alive sources index second none = err type_error
  choice alive sources index second (some source) = ok (
      if alive source
      then some source
      else second_choice sources (alive_list alive source index 0 sources) second)

  unfoldable pub random_source : (S → Bool) → List S → ℕ → ℕ → Result (Option S)
  random_source alive [] first second = err type_error
  random_source alive (s ∷ ss) first second =
      let index = first % length (s ∷ ss) in
      choice alive (s ∷ ss) index second (get_elem? (s ∷ ss) index)

  -- The getter `source`; a missing one is `undefined`.
  unfoldable pub write_source : (S → Bool) → DbPool S → ℕ → ℕ → Result (Option S)
  write_source alive p first second =
      if p.write_type == write_only_one_node
      then ok (get_elem? p.write_sources p.active_index)
      else if p.write_type == write_random_node
      then random_source alive p.write_sources first second
      else err plain_error

  -- What the server's saveDataHostIndex throws, where the pool writes to one node: `saves` says so
  -- for an index.
  unfoldable pub saved : (ℕ → Option Error) → DbPool S → ℕ → Option Error
  saved saves p index = if p.write_type == write_only_one_node then saves index else none

  -- `init` with the schemas `schemas`: the pool, and what is thrown. `init_size` is `minCon` of the
  -- source's configuration.
  unfoldable pub init_with :
      (ℕ → Text → Bool)
      → (ℕ → Option Error)
      → ℕ
      → DbPool S
      → ℕ
      → List Text
      → DbPool S × Option Error
  init_with connects saves init_size p index [] = (p, none)
  init_with connects saves init_size p index (t ∷ ts) =
      if check_index p index
      then (if init_loop connects (t ∷ ts) init_size 0
          then (record p { init_ok = true; active_index = index }, saved saves p index)
          else (record p { init_ok = false }, none))
      else (p, some range_error)

  unfoldable pub init :
      (ℕ → Text → Bool) → (ℕ → Option Error) → ℕ → DbPool S → ℕ → DbPool S × Option Error
  init connects saves init_size p index = init_with connects saves init_size p index p.schemas

-- ===== src/Buffer/Pool.antt =====
-- buffer/buffer-pool.js. A buffer of the pool is its size and the mark `_allocated`; its bytes
-- are in Runtime. A call that has to wait returns, and is made again when the coroutine wakes.
pub mod Outcomes
pub mod Accounting
use mycat_js.Prelude.{
  ℕ, ◌+◌, ◌-◌, ◌*◌, ◌%◌, ◌≡◌, Bool, true, false, List, [], ◌∷◌, ◌++◌, Option, none, some, ltb, leb,
  ◌==◌, if◌then◌else◌, Error, argument_error, buffer_error, Result, ok, err, ◌>>=◌, ℤ, pos, negsuc,
  get_elem?, set,
}

-- The constants of SystemConfig that the fields start from.
pub record Defaults : Type 0 where
  pub chunk : ℕ
  pub page : ℕ
  pub pages : ℕ

pub record Pool : Type 0 where
  pub chunk_size : ℕ
  pub page_size : ℕ
  pub page_count : ℕ
  pub total_size : ℕ
  pub allocated : ℕ

pub record Buffer : Type 0 where
  pub size : ℕ
  pub marked : Bool

-- An argument of the constructor: the default where it is undefined, at least 1 where it is given.
at_least_one : Option ℤ → ℕ → Result ℕ
at_least_one none d = ok d
at_least_one (some (negsuc n)) d = err argument_error
at_least_one (some (pos n)) d = if ltb n 1 then err argument_error else ok n

-- `chunkSize !== undefined && totalSize < chunkSize`
exceeds : Option ℤ → ℕ → Bool
exceeds (some (pos n)) total = ltb total n
exceeds _ total = false

unfoldable pub construct : Defaults → Option ℤ → Option ℤ → Option ℤ → Result Pool
unfolding at_least_one exceeds
construct d chunk page pages = do
  c ← at_least_one chunk d.chunk
  s ← at_least_one page d.page
  n ← at_least_one pages d.pages
  if exceeds chunk (s * n)
      then err argument_error
      else ok (record {
        chunk_size = c;
        page_size = s;
        page_count = n;
        total_size = s * n;
        allocated = 0;
      })

-- How a call ends: with a buffer and the pool behind it, with an error, or waiting for the event
-- `available` with the size that it asks for.
pub data Outcome : Type 0 where
  done : Buffer → Pool → Outcome
  throws : Error → Outcome
  waits : ℕ → Outcome

-- The size asked for, rounded up to whole chunks; 0 and undefined ask for one chunk.
unfoldable pub round_up : Pool → ℕ → ℕ
round_up p size =
    let rem = size % p.chunk_size in if ltb 0 rem then size + (p.chunk_size - rem) else size

-- The `while` loop of `allocate` and what follows it, from the test on.
unfoldable pub allocate_loop : Pool → ℕ → Bool → Outcome
allocate_loop p size await =
    if ltb p.total_size (size + p.allocated)
    then (if await then waits size else throws buffer_error)
    else done (record { size = size; marked = true }) (record p { allocated = p.allocated + size })

unfoldable pub allocate : Pool → Option ℤ → Bool → Outcome
unfolding round_up allocate_loop
allocate p none await = allocate_loop p (round_up p p.chunk_size) await
allocate p (some (negsuc n)) await = throws argument_error
allocate p (some (pos n)) await =
    allocate_loop p (round_up p (if n == 0 then p.chunk_size else n)) await

-- The loop of `resize` that grows a buffer of the pool; `length` was read before the loop.
unfoldable pub grow_loop : Pool → Buffer → ℕ → ℕ → Bool → Outcome
grow_loop p b length size await =
    if ltb p.total_size (size + p.allocated)
    then (if await then waits size else throws buffer_error)
    else done (record b { size = size }) (record p { allocated = p.allocated + (size - length) })

unfoldable pub resize : Pool → Buffer → ℤ → Bool → Outcome
unfolding grow_loop
resize p b (negsuc n) await = throws argument_error
resize p b (pos n) await =
    if b.marked
    then (if leb n b.size
        then done (record b { size = n }) (record p { allocated = p.allocated - (b.size - n) })
        else grow_loop p b b.size n await)
    else done (record b { size = n }) p

-- The buffer without its mark, the pool, and whether anything was released.
unfoldable pub release : Pool → Buffer → Buffer × Pool × Bool
release p b =
    if b.marked
    then (record b { marked = false }, record p { allocated = p.allocated - b.size }, true)
    else (b, p, false)

-- The pool and the buffers that were taken from it, which its clients share.
pub record Memory : Type 0 where
  pub pool : Pool
  pub buffers : List Buffer

-- The calls of the clients, and those that a woken coroutine makes again.
pub data Call : Type 0 where
  allocates : Option ℤ → Bool → Call
  resizes : ℕ → ℤ → Bool → Call
  releases : ℕ → Call
  retries_allocate : ℕ → Call
  -- The buffer, the size asked for, and the length read before the wait.
  retries_resize : ℕ → ℕ → ℕ → Call

-- Where the buffer of a call's outcome goes.
settle : Memory → (Buffer → List Buffer) → Outcome → Memory
settle m place (done b p) = record { pool = p; buffers = place b }
settle m place _ = m

on_buffer : Memory → ℕ → (Buffer → Memory) → Memory
on_buffer m i f = elim (get_elem? m.buffers i) [ none ↦ m | some b ↦ f b ]

unfoldable pub step : Memory → Call → Memory
unfolding settle on_buffer
step m (allocates size await) = settle m (λ b. b ∷ m.buffers) (allocate m.pool size await)
step m (retries_allocate n) = settle m (λ b. b ∷ m.buffers) (allocate_loop m.pool n true)
step m (resizes i size await) =
    on_buffer m i (λ b. settle m (λ c. set m.buffers i c) (resize m.pool b size await))
step m (retries_resize i n length) =
    on_buffer m i (λ b. settle m (λ c. set m.buffers i c) (grow_loop m.pool b length n true))
step m (releases i) =
    on_buffer m i
      (λ b. let r = release m.pool b in record { pool = r.1; buffers = set m.buffers i r.0 })

unfoldable pub run : Memory → List Call → Memory
run m [] = m
run m (c ∷ cs) = run (step m c) cs

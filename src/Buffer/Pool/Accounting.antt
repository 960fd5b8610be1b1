-- ===== src/Buffer/Pool/Accounting.antt =====
-- The counter `allocated` is the memory of the buffers that the clients hold.
use mycat_js.Prelude.{
  ℕ, zero, suc, ◌+◌, ◌≡◌, ◌≤◌, ◌<◌, Bool, true, false, List, [], ◌∷◌, Option, none, some,
  if◌then◌else◌, arith, ℤ, pos, negsuc, get_elem?, set, inl, inr, Option-cases,
}
use mycat_js.Buffer.Pool.{
  Pool, Buffer, allocate_loop, allocate, grow_loop, resize, release, Memory, Call, allocates,
  resizes, releases, retries_allocate, retries_resize, step, run,
}

-- What a buffer counts for: nothing once its mark is gone.
abbrev pub weight : Buffer → ℕ
weight b = if b.marked then b.size else 0

abbrev pub live_size : List Buffer → ℕ
live_size [] = 0
live_size (b ∷ bs) = weight b + live_size bs

pub record IsAccounted (m : Memory) : Type 0 where
  pub counted : m.pool.allocated ≡ live_size m.buffers
  pub bounded : m.pool.allocated ≤ m.pool.total_size

-- Nobody touched the buffer that a coroutine waited to grow.
abbrev pub IsCalm : Memory → Call → Type 0
IsCalm m (retries_resize i n length) =
    (b : Buffer) × (get_elem? m.buffers i ≡ some b)
    × (b.marked ≡ true)
    × (b.size ≡ length)
    × (length < n)
IsCalm m _ = Unit {0}

abbrev pub AreCalm : Memory → List Call → Type 0
AreCalm m [] = Unit {0}
AreCalm m (c ∷ cs) = IsCalm m c × AreCalm (step m c) cs

live_size-set :
    (bs : List Buffer) (i : ℕ) (b c : Buffer)
    → get_elem? bs i ≡ some b
    → live_size (set bs i c) + weight b ≡ live_size bs + weight c
live_size-set [] i b c h = cc
live_size-set (x ∷ bs) zero b c h = let e : weight x ≡ weight b = cc in omega arith
live_size-set (x ∷ bs) (suc i) b c h = omega (arith, live_size-set bs i b c h)

allocates-IsAccounted :
    (m : Memory) (size : Option ℤ) (await : Bool)
    → IsAccounted m
    → IsAccounted (step m (allocates size await))
unfolding step allocate
allocates-IsAccounted m none await v = ground arith
allocates-IsAccounted m (some (pos n)) await v = ground arith
allocates-IsAccounted m (some (negsuc n)) await v = ground arith

on_set :
    (m : Memory) (i : ℕ) (b c : Buffer) (p : Pool)
    → get_elem? m.buffers i ≡ some b
    → m.pool.allocated ≡ live_size m.buffers
    → p.allocated + weight b ≡ m.pool.allocated + weight c
    → p.allocated ≤ p.total_size
    → IsAccounted (record { pool = p; buffers = set m.buffers i c })
on_set m i b c p h e k l = record {
  counted = omega (arith, live_size-set m.buffers i b c h);
  bounded = l;
}

weight-le :
    (bs : List Buffer) (i : ℕ) (b : Buffer) → get_elem? bs i ≡ some b → weight b ≤ live_size bs
weight-le [] i b h = cc
weight-le (x ∷ bs) zero b h = let e : weight x ≡ weight b = cc in omega arith
weight-le (x ∷ bs) (suc i) b h = omega (arith, weight-le bs i b h)

resizes-IsAccounted :
    (m : Memory) (i : ℕ) (size : ℤ) (await : Bool)
    → IsAccounted m
    → IsAccounted (step m (resizes i size await))
unfolding step resize
resizes-IsAccounted m i (negsuc n) await v = ground arith
resizes-IsAccounted m i (pos n) await v = elim (Option-cases (get_elem? m.buffers i)) [
  | inl e ↦ ground arith
  | inr (b, e) ↦
      ground
        (arith, live_size-set m.buffers i b (record b { size = n }) e, weight-le m.buffers i b e)
]

retries_resize-IsAccounted :
    (m : Memory) (i n length : ℕ)
    → IsAccounted m
    → IsCalm m (retries_resize i n length)
    → IsAccounted (step m (retries_resize i n length))
unfolding step grow_loop
retries_resize-IsAccounted m i n length v (b, e, k, l, lt) =
    ground (arith, live_size-set m.buffers i b (record b { size = n }) e)

releases-IsAccounted : (m : Memory) (i : ℕ) → IsAccounted m → IsAccounted (step m (releases i))
unfolding step release
releases-IsAccounted m i v = elim (Option-cases (get_elem? m.buffers i)) [
  | inl e ↦ ground arith
  | inr (b, e) ↦ ground (
    arith,
    live_size-set m.buffers i b (record b { marked = false }) e,
    live_size-set m.buffers i b b e,
    weight-le m.buffers i b e,
  )
]

retries_allocate-IsAccounted :
    (m : Memory) (n : ℕ) → IsAccounted m → IsAccounted (step m (retries_allocate n))
unfolding step allocate_loop
retries_allocate-IsAccounted m n v = ground arith

pub step-IsAccounted : (m : Memory) (c : Call) → IsAccounted m → IsCalm m c → IsAccounted (step m c)
step-IsAccounted m (allocates size await) v k = allocates-IsAccounted m size await v
step-IsAccounted m (resizes i size await) v k = resizes-IsAccounted m i size await v
step-IsAccounted m (releases i) v k = releases-IsAccounted m i v
step-IsAccounted m (retries_allocate n) v k = retries_allocate-IsAccounted m n v
step-IsAccounted m (retries_resize i n length) v k = retries_resize-IsAccounted m i n length v k

-- After any calls on a pool, from a state in which it holds, the counter is the total size of the
-- marked buffers and at most the pool's total size, if no buffer was touched while a coroutine
-- waited to grow it.
pub run-IsAccounted :
    (m : Memory) (cs : List Call) → IsAccounted m → AreCalm m cs → IsAccounted (run m cs)
unfolding run
run-IsAccounted m [] v k = v
run-IsAccounted m (c ∷ cs) v k = run-IsAccounted (step m c) cs (step-IsAccounted m c v k.0) k.1

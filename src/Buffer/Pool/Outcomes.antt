-- ===== src/Buffer/Pool/Outcomes.antt =====
-- What size an allocation gets, and which calls the pool refuses.
use mycat_js.Prelude.{
  ℕ, ◌+◌, ◌-◌, ◌*◌, ◌/◌, ◌%◌, ◌≡◌, ◌≤◌, ◌<◌, Bool, true, false, Option, none, some, arith, ℤ, pos,
  negsuc, buffer_error, if◌then◌else◌, ◌∙◌, ap, ltb,
}
use mycat_js.Buffer.Pool.{
  Pool, Buffer, done, throws, waits, round_up, allocate_loop, allocate, grow_loop, resize, release,
}
use native.Mathlib.Nat.{mul-mod_left, div-add-mod', mod-lt}

round_up-multiple :
    (p : Pool) (n : ℕ)
    → 0 < p.chunk_size
    → round_up p n ≡ (n / p.chunk_size + (if ltb 0 (n % p.chunk_size) then 1 else 0)) * p.chunk_size
unfolding round_up
round_up-multiple p n h = ground (arith, div-add-mod' n p.chunk_size, mod-lt n h)

-- For a chunk size above 0, a rounded size is a multiple of the chunk size, not below what was
-- asked for and less than a chunk above it.
pub round_up_bounds :
    (p : Pool) (n : ℕ)
    → 0 < p.chunk_size
    → (round_up p n % p.chunk_size ≡ 0) × (n ≤ round_up p n) × (round_up p n < n + p.chunk_size)
round_up_bounds p n h = (
  ap (λ (t : ℕ). t % p.chunk_size) (round_up-multiple p n h) ∙ mul-mod_left _ p.chunk_size,
  unfold round_up in ground (arith, mod-lt n h),
  unfold round_up in ground (arith, mod-lt n h),
)

rounded_outcome :
    (p : Pool) (n : ℕ) (await : Bool)
    → 0 < n
    → allocate p (some (pos n)) await ≡ (
        if ltb p.total_size (round_up p n + p.allocated)
        then (if await then waits (round_up p n) else throws buffer_error)
        else done
            (record { size = round_up p n; marked = true })
            (record p { allocated = p.allocated + round_up p n }))
unfolding allocate allocate_loop
rounded_outcome p n await h = ground arith

-- For a size and a chunk size above 0, an allocation goes by a size that is a multiple of the
-- chunk size, not below what was asked for and less than a chunk above it: it is granted exactly
-- when that fits in what is left of the total size, and is then counted; otherwise it waits or
-- throws a BufferError.
pub allocate_pos :
    (p : Pool) (n : ℕ) (await : Bool)
    → 0 < n
    → 0 < p.chunk_size
    → (size : ℕ) × (size % p.chunk_size ≡ 0)
      × (n ≤ size)
      × (size < n + p.chunk_size)
      × (allocate p (some (pos n)) await ≡ (
          if ltb p.total_size (size + p.allocated)
          then (if await then waits size else throws buffer_error)
          else done
              (record { size = size; marked = true })
              (record p { allocated = p.allocated + size })))
allocate_pos p n await h chunk =
    let (whole, above, below) = round_up_bounds p n chunk in
    (round_up p n, whole, above, below, rounded_outcome p n await h)

-- A buffer that was just allocated can be released once: that gives the pool back as it was, and
-- a second release changes nothing and answers false.
pub release-allocate :
    (p q : Pool) (size : Option ℤ) (await : Bool) (b : Buffer)
    → allocate p size await ≡ done b q
    → (release q b ≡ (record b { marked = false }, p, true))
      × (release p (record b { marked = false }) ≡ (record b { marked = false }, p, false))
unfolding allocate allocate_loop release
release-allocate p q none await b h = ground arith
release-allocate p q (some (pos n)) await b h = ground arith
release-allocate p q (some (negsuc n)) await b h = cc

-- A buffer of the pool cannot grow, without waiting, where its whole new size does not fit beside
-- what is allocated, also when the bytes that it would gain do fit.
resize_refuses_fitting :
    (p : Pool) (b : Buffer) (n : ℕ)
    → b.marked ≡ true
    → b.size < n
    → p.allocated + (n - b.size) ≤ p.total_size
    → p.total_size < n + p.allocated
    → resize p b (pos n) false ≡ throws buffer_error
unfolding resize grow_loop
resize_refuses_fitting p b n k l fits h = ground arith

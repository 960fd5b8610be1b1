-- ===== src/Runtime/Reading.antt =====
-- Reading from a buffer that holds given bytes at an offset.
use mycat_js.Prelude.{
  ℕ, zero, suc, ◌+◌, ◌*◌, ◌≤◌, ◌<◌, ◌≡◌, refl, ap, ◌∙◌, [], ◌∷◌, ◌++◌, some, length, get_elem?,
  take, arith, ok,
}
use native.Mathlib.Numerals.{add-one, towards_suc}
use mycat_js.Runtime.{
  Bytes, overwrite, le_bytes, read_u8, read_u16_le, read_u32_le, read_u64_le, byte_at, slice,
}

-- The bytes `xs` stand in the buffer from `p` on.
abbrev pub Holds : Bytes → ℕ → Bytes → Type 0
Holds b p [] = Unit {0}
Holds b p (x ∷ xs) = (get_elem? b p ≡ some x) × Holds b (suc p) xs

Holds-suc : (c : ℕ) (b : Bytes) (p : ℕ) (xs : Bytes) → Holds b p xs → Holds (c ∷ b) (suc p) xs
Holds-suc c b p [] h = tt
Holds-suc c b p (x ∷ xs) h = (h.0, Holds-suc c b (suc p) xs h.1)

pub overwrite-Holds :
    (b : Bytes) (p : ℕ) (xs : Bytes) → p + length xs ≤ length b → Holds (overwrite b p xs) p xs
unfolding overwrite
overwrite-Holds [] p [] h = tt
overwrite-Holds [] p (x ∷ xs) h = absurd (omega arith)
overwrite-Holds (b ∷ bs) zero [] h = tt
overwrite-Holds (b ∷ bs) zero (x ∷ xs) h =
    (refl, Holds-suc x (overwrite bs 0 xs) 0 xs (overwrite-Holds bs 0 xs (omega arith)))
overwrite-Holds (b ∷ bs) (suc p) xs h =
    Holds-suc b (overwrite bs p xs) p xs (overwrite-Holds bs p xs (omega arith))

-- The bytes before the offset of a write stay.
pub get_elem?-overwrite_below :
    (b : Bytes) (p i : ℕ) (xs : Bytes) → i < p → get_elem? (overwrite b p xs) i ≡ get_elem? b i
unfolding overwrite
get_elem?-overwrite_below [] p i xs h = refl
get_elem?-overwrite_below (b ∷ bs) zero i xs h = absurd (omega arith)
get_elem?-overwrite_below (b ∷ bs) (suc p) zero xs h = refl
get_elem?-overwrite_below (b ∷ bs) (suc p) (suc i) xs h =
    get_elem?-overwrite_below bs p i xs (omega arith)

-- Those behind it stay too.
pub get_elem?-overwrite_above :
    (b : Bytes) (p i : ℕ) (xs : Bytes)
    → p + length xs ≤ i
    → get_elem? (overwrite b p xs) i ≡ get_elem? b i
unfolding overwrite
get_elem?-overwrite_above [] p i xs h = refl
get_elem?-overwrite_above (b ∷ bs) zero i [] h = refl
get_elem?-overwrite_above (b ∷ bs) zero zero (x ∷ xs) h = absurd (omega arith)
get_elem?-overwrite_above (b ∷ bs) zero (suc i) (x ∷ xs) h =
    get_elem?-overwrite_above bs zero i xs (omega arith)
get_elem?-overwrite_above (b ∷ bs) (suc p) zero xs h = absurd (omega arith)
get_elem?-overwrite_above (b ∷ bs) (suc p) (suc i) xs h =
    get_elem?-overwrite_above bs p i xs (omega arith)

pub Holds-append_left : (b : Bytes) (p : ℕ) (xs ys : Bytes) → Holds b p (xs ++ ys) → Holds b p xs
Holds-append_left b p [] ys h = tt
Holds-append_left b p (x ∷ xs) ys h = (h.0, Holds-append_left b (suc p) xs ys h.1)

pub Holds-append_right :
    (b : Bytes) (p q : ℕ) (xs ys : Bytes) → q ≡ p + length xs → Holds b p (xs ++ ys) → Holds b q ys
Holds-append_right b p q [] ys e h = let e' : q ≡ p = omega arith in rw e' h
Holds-append_right b p q (x ∷ xs) ys e h = Holds-append_right b (suc p) q xs ys (omega arith) h.1

pub Holds-pred : (c : ℕ) (b : Bytes) (p : ℕ) (xs : Bytes) → Holds (c ∷ b) (suc p) xs → Holds b p xs
Holds-pred c b p [] h = tt
Holds-pred c b p (x ∷ xs) h = (h.0, Holds-pred c b (suc p) xs h.1)

take-Holds : (b : Bytes) (xs : Bytes) → Holds b 0 xs → take (length xs) b ≡ xs
take-Holds b [] h = refl
take-Holds [] (x ∷ xs) h = cc h.0
take-Holds (b ∷ bs) (x ∷ xs) h = cc (h.0, take-Holds bs xs (Holds-pred b bs 0 xs h.1))

-- The slice of a buffer where it holds `xs`.
pub slice-Holds : (b : Bytes) (p : ℕ) (xs : Bytes) → Holds b p xs → slice b p (length xs) ≡ xs
slice-Holds b zero xs h = take-Holds b xs h
slice-Holds [] (suc p) [] h = refl
slice-Holds [] (suc p) (x ∷ xs) h = cc h.0
slice-Holds (b ∷ bs) (suc p) xs h = slice-Holds bs p xs (Holds-pred b bs p xs h)

pub read_u8-Holds : (b : Bytes) (p x : ℕ) → get_elem? b p ≡ some x → read_u8 b p ≡ ok x
unfolding read_u8
read_u8-Holds b p x h = rw (h, read_u8)

pub byte_at-Holds : (b : Bytes) (p x : ℕ) → get_elem? b p ≡ some x → byte_at b p ≡ x
unfolding byte_at
byte_at-Holds b p x h = rw (h, byte_at)

read_u16_le-pair :
    (b : Bytes) (p x y : ℕ)
    → get_elem? b p ≡ some x
    → get_elem? b (suc p) ≡ some y
    → read_u16_le b p ≡ ok (x + 256 * y)
unfolding read_u16_le
read_u16_le-pair b p x y h k = simp (add-one, read_u8-Holds b p x h, read_u8-Holds b (suc p) y k)

read_u32_le-four :
    (b : Bytes) (p x y z w : ℕ)
    → Holds b p (x ∷ y ∷ z ∷ w ∷ [])
    → read_u32_le b p ≡ ok (x + 256 * y + 65536 * (z + 256 * w))
unfolding read_u32_le
read_u32_le-four b p x y z w h = simp (
  towards_suc,
  read_u16_le-pair b p x y h.0 h.1.0,
  read_u16_le-pair b (suc (suc p)) z w h.1.1.0 h.1.1.1.0,
)

pub read_u16_le-Holds :
    (b : Bytes) (p v : ℕ) → v < 65536 → Holds b p (le_bytes 2 v) → read_u16_le b p ≡ ok v
read_u16_le-Holds b p v small h = read_u16_le-pair b p _ _ h.0 h.1.0 ∙ ap ok (omega arith)

pub read_u32_le-Holds :
    (b : Bytes) (p v : ℕ) → v < 4294967296 → Holds b p (le_bytes 4 v) → read_u32_le b p ≡ ok v
read_u32_le-Holds b p v small h = read_u32_le-four b p _ _ _ _ h ∙ ap ok (omega arith)

pub read_u64_le-Holds :
    (b : Bytes) (p v : ℕ)
    → v < 18446744073709551616
    → Holds b p (le_bytes 8 v)
    → read_u64_le b p ≡ ok v
unfolding read_u64_le
read_u64_le-Holds b p v small h =
    simp
      (
        towards_suc,
        read_u32_le-four b p _ _ _ _ (h.0, (h.1.0, (h.1.1.0, (h.1.1.1.0, tt)))),
        read_u32_le-four b (suc (suc (suc (suc p)))) _ _ _ _ h.1.1.1.1,
      )
      (ap ok (omega arith))

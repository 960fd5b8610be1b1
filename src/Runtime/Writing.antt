-- ===== src/Runtime/Writing.antt =====
-- Writes one after the other are one write of all their bytes.
use mycat_js.Prelude.{
  ℕ, zero, suc, ◌+◌, ◌≤◌, ◌≡◌, refl, ap, fun_ext, [], ◌∷◌, ◌++◌, length, length-append, arith, ok,
}
use mycat_js.Runtime.{
  le_bytes, write_u8, write_u16_le, write_u32_le, Bytes, overwrite, Writer, set_bytes, ◌>>◌,
}

pub length-overwrite : (b : Bytes) (p : ℕ) (xs : Bytes) → length (overwrite b p xs) ≡ length b
unfolding overwrite
length-overwrite [] p xs = refl
length-overwrite (b ∷ bs) zero [] = refl
length-overwrite (b ∷ bs) zero (x ∷ xs) = ap suc (length-overwrite bs zero xs)
length-overwrite (b ∷ bs) (suc p) xs = ap suc (length-overwrite bs p xs)

pub overwrite-append :
    (b : Bytes) (p q : ℕ) (xs ys : Bytes)
    → q ≡ p + length xs
    → overwrite (overwrite b p xs) q ys ≡ overwrite b p (xs ++ ys)
unfolding overwrite
overwrite-append [] p q xs ys e = refl
overwrite-append (b ∷ bs) zero zero [] ys e = refl
overwrite-append (b ∷ bs) zero (suc q) [] ys e = absurd (omega arith)
overwrite-append (b ∷ bs) zero zero (x ∷ xs) ys e = absurd (omega arith)
overwrite-append (b ∷ bs) zero (suc q) (x ∷ xs) ys e =
    ap (◌∷◌ x) (overwrite-append bs zero q xs ys (omega arith))
overwrite-append (b ∷ bs) (suc p) zero xs ys e = absurd (omega arith)
overwrite-append (b ∷ bs) (suc p) (suc q) xs ys e =
    ap (◌∷◌ b) (overwrite-append bs p q xs ys (omega arith))

set_bytes->>-point :
    (xs ys : Bytes) (b : Bytes) (p : ℕ)
    → (set_bytes xs >> set_bytes ys) b p ≡ set_bytes (xs ++ ys) b p
unfolding set_bytes ◌>>◌
set_bytes->>-point xs ys b p = ground (
  arith,
  length-append xs ys,
  length-overwrite b p xs,
  overwrite-append b p (p + length xs) xs ys refl,
)

pub set_bytes->>-set_bytes : (xs ys : Bytes) → (set_bytes xs >> set_bytes ys) ≡ set_bytes (xs ++ ys)
set_bytes->>-set_bytes xs ys = fun_ext λ b. fun_ext λ p. set_bytes->>-point xs ys b p

-- A writer that writes given bytes.
pub record Emits (w : Writer) (xs : Bytes) : Type 0 where
  pub emits : w ≡ set_bytes xs

-- One after the other they write the bytes of both.
pub >>-Emits : {w v : Writer} {xs ys : Bytes} → Emits w xs → Emits v ys → Emits (w >> v) (xs ++ ys)
>>-Emits {xs} {ys} e f = record { emits = rw (e.emits, f.emits) (set_bytes->>-set_bytes xs ys) }

pub set_bytes-Emits : (xs : Bytes) → Emits (set_bytes xs) xs
set_bytes-Emits xs = record { emits = refl }

pub write_u8-Emits : (v : ℕ) → Emits (write_u8 v) (le_bytes 1 v)
unfolding write_u8
write_u8-Emits v = record { emits = refl }

pub write_u16_le-Emits : (v : ℕ) → Emits (write_u16_le v) (le_bytes 2 v)
unfolding write_u16_le
write_u16_le-Emits v = record { emits = refl }

pub write_u32_le-Emits : (v : ℕ) → Emits (write_u32_le v) (le_bytes 4 v)
unfolding write_u32_le
write_u32_le-Emits v = record { emits = refl }

pub set_bytes-ok :
    (xs b : Bytes) (p : ℕ)
    → p + length xs ≤ length b
    → set_bytes xs b p ≡ ok (overwrite b p xs, p + length xs)
unfolding set_bytes
set_bytes-ok xs b p h = ground arith

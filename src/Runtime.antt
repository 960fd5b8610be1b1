-- ===== src/Runtime.antt =====
-- The part of the runtime's Buffer that the source uses. A buffer is the list of its bytes.
-- A write takes the low byte of a number, and throws a RangeError where it does not fit.
pub mod Writing
pub mod Reading
use mycat_js.Prelude.{
  ℕ, zero, suc, ◌+◌, ◌-◌, ◌*◌, ◌/◌, ◌%◌, ◌^◌, ◌≡◌, List, [], ◌∷◌, ◌++◌, Option, none, some, length,
  get_elem?, take, drop, replicate, leb, if◌then◌else◌, Error, range_error, Result, ok, err, ◌>>=◌,
}

abbrev pub Bytes : Type 0
Bytes = List ℕ

-- The bytes of `src` over those of the buffer from an offset on.
unfoldable pub overwrite : Bytes → ℕ → Bytes → Bytes
overwrite [] p src = []
overwrite (b ∷ bs) zero [] = b ∷ bs
overwrite (b ∷ bs) zero (x ∷ xs) = x ∷ overwrite bs zero xs
overwrite (b ∷ bs) (suc p) src = b ∷ overwrite bs p src

-- A call that writes at an offset: it returns the buffer and the offset behind what it wrote.
abbrev pub Writer : Type 0
Writer = Bytes → ℕ → Result (Bytes × ℕ)

-- `p += buffer.set(src, p)`
unfoldable pub set_bytes : Bytes → Writer
set_bytes src b p =
    if leb (p + length src) (length b)
    then ok (overwrite b p src, p + length src)
    else err range_error

-- One write after the other, each from the offset that the last one returned.
infixr 6 ◌>>◌
unfoldable pub ◌>>◌ : Writer → Writer → Writer
◌>>◌ w v b p = w b p >>= λ (c, q). v c q

-- The little-endian bytes of a number.
abbrev pub le_bytes : ℕ → ℕ → Bytes
le_bytes zero v = []
le_bytes (suc n) v = v % 256 ∷ le_bytes n (v / 256)

-- writeUInt8, writeInt8
unfoldable pub write_u8 : ℕ → Writer
write_u8 v = set_bytes (le_bytes 1 v)

unfoldable pub write_u16_le : ℕ → Writer
write_u16_le v = set_bytes (le_bytes 2 v)

unfoldable pub write_u32_le : ℕ → Writer
write_u32_le v = set_bytes (le_bytes 4 v)

-- What the source calls of the runtime and this file cannot read: the bytes that `allocUnsafe`
-- happens to hand out, and the writes that name no byte order (writeUInt16, writeInt64).
pub record Platform : Type 0 where
  pub unsafe_bytes : ℕ → Bytes
  pub write_u16 : ℕ → Writer
  pub write_i64 : ℕ → Writer

-- `allocUnsafe` hands out as many bytes as asked for, and the byte order is the protocol's.
pub record IsPlatform (rt : Platform) : Type 0 where
  pub unsafe_length : (n : ℕ) → length (rt.unsafe_bytes n) ≡ n
  pub u16_lem : (v : ℕ) → rt.write_u16 v ≡ set_bytes (le_bytes 2 v)
  pub i64_lem : (v : ℕ) → rt.write_i64 v ≡ set_bytes (le_bytes 8 v)

unfoldable pub read_u8 : Bytes → ℕ → Result ℕ
read_u8 b p = elim (get_elem? b p) [ some v ↦ ok v | none ↦ err range_error ]

unfoldable pub read_u16_le : Bytes → ℕ → Result ℕ
read_u16_le b p = do lo ← read_u8 b p; hi ← read_u8 b (p + 1); ok (lo + 256 * hi)

unfoldable pub read_u32_le : Bytes → ℕ → Result ℕ
read_u32_le b p = do lo ← read_u16_le b p; hi ← read_u16_le b (p + 2); ok (lo + 65536 * hi)

-- The 64 bits as an unsigned number.
unfoldable pub read_u64_le : Bytes → ℕ → Result ℕ
read_u64_le b p = do lo ← read_u32_le b p; hi ← read_u32_le b (p + 4); ok (lo + 4294967296 * hi)

-- `b[p] & 0xff`: an element past the end is undefined, which counts as 0.
unfoldable pub byte_at : Bytes → ℕ → ℕ
byte_at b p = elim (get_elem? b p) [ some v ↦ v | none ↦ 0 ]

-- `b.slice(p, p + n)`, and what `b.copy` takes.
abbrev pub slice : Bytes → ℕ → ℕ → Bytes
slice b p n = take n (drop p b)

-- `buffer.resize(size)`: the new bytes are 0.
unfoldable pub resize_bytes : Bytes → ℕ → Bytes
resize_bytes b size = take size b ++ replicate (size - length b) 0

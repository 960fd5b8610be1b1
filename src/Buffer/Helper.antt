-- ===== src/Buffer/Helper.antt =====
-- buffer/buffer-helper.js: unsigned 3-byte numbers.
use mycat_js.Prelude.{ℕ, ◌+◌, ◌*◌, ◌/◌, ◌%◌, ◌^◌, ◌≡◌, ap, [], ◌∷◌, ◌<◌, suc, arith}
use mycat_js.Runtime.{Bytes, Writer, ◌>>◌, le_bytes, set_bytes, write_u8, byte_at}
use mycat_js.Runtime.Writing.{set_bytes->>-set_bytes}
use mycat_js.Runtime.Reading.{Holds, byte_at-Holds}
use native.Mathlib.Numerals.{towards_suc}

-- The three bytes are disjoint bits of the result, so `|` adds them.
unfoldable pub read_u24_le : Bytes → ℕ → ℕ
read_u24_le b p = byte_at b p + 256 * byte_at b (p + 1) + 65536 * byte_at b (p + 2)

-- `>>>` is a shift of the number's low 32 bits.
abbrev pub shift_right : ℕ → ℕ → ℕ
shift_right i n = i % 2 ^ 32 / 2 ^ n

unfoldable pub write_u24_le : ℕ → Writer
write_u24_le i = do write_u8 i; write_u8 (shift_right i 8); write_u8 (shift_right i 16)

three_bytes : (i : ℕ) → i % 256 ∷ shift_right i 8 % 256 ∷ shift_right i 16 % 256 ∷ [] ≡ le_bytes 3 i
three_bytes i = cc (second, third)
  where
    second : shift_right i 8 % 256 ≡ i / 256 % 256
    second = omega arith

    third : shift_right i 16 % 256 ≡ i / 256 / 256 % 256
    third = omega arith

-- The 24-bit write is one write of the three low bytes, lowest first, of any number.
pub write_u24_le-set_bytes : (i : ℕ) → write_u24_le i ≡ set_bytes (le_bytes 3 i)
unfolding write_u24_le write_u8
write_u24_le-set_bytes i = simp set_bytes->>-set_bytes (ap set_bytes (three_bytes i))

pub read_u24_le-Holds :
    (b : Bytes) (p v : ℕ) → v < 16777216 → Holds b p (le_bytes 3 v) → read_u24_le b p ≡ v
unfolding read_u24_le
read_u24_le-Holds b p v small h =
    simp
      (
        towards_suc,
        byte_at-Holds b p _ h.0,
        byte_at-Holds b (suc p) _ h.1.0,
        byte_at-Holds b (suc (suc p)) _ h.1.1.0,
      )
      (omega arith)

-- ===== src/Net/Message/Strings.antt =====
-- Byte strings with a length in front or a 0 behind: what is written is read back.
use mycat_js.Prelude.{
  ℕ, zero, suc, ◌+◌, ◌-◌, ◌^◌, ◌≡◌, ◌≤◌, ◌<◌, ◌≢◌, [], ◌∷◌, ◌++◌, some, length, length-append,
  arith, ok, pos, refl, ap, sym, take,
}
use mycat_js.Runtime.{Bytes, overwrite, set_bytes, Platform, IsPlatform, slice}
use mycat_js.Runtime.Writing.{set_bytes->>-set_bytes, set_bytes-ok, Emits}
use mycat_js.Runtime.Reading.{
  Holds, overwrite-Holds, slice-Holds, Holds-append_left, Holds-append_right, Holds-pred,
}
use mycat_js.Net.Message.{
  Message, Chunk, shared_empty, fresh, number, read_length, length_encoded_of, buffer_length,
  write_bytes_with_length, read_bytes_with_length, copy_bytes, zero_offset, read_bytes_with_null,
  has_remaining,
}
use mycat_js.Net.Message.Lengths.{
  length_encoding, length-length_encoding, write_length_encoded-set_bytes, read_length-Holds,
}

pub overwrite_all : (b xs : Bytes) → length b ≡ length xs → overwrite b 0 xs ≡ xs
unfolding overwrite
overwrite_all [] [] e = refl
overwrite_all [] (x ∷ xs) e = absurd (omega arith)
overwrite_all (b ∷ bs) [] e = absurd (omega arith)
overwrite_all (b ∷ bs) (x ∷ xs) e = ap (◌∷◌ x) (overwrite_all bs xs (omega arith))

-- A copy out of a buffer that holds `xs` is `xs`, whatever `allocUnsafe` handed out.
pub copy_bytes-Holds :
    (rt : Platform) (b : Bytes) (p : ℕ) (xs : Bytes)
    → IsPlatform rt
    → Holds b p xs
    → copy_bytes rt b p (length xs) ≡ xs
unfolding copy_bytes
copy_bytes-Holds rt b p xs law h =
    rw (slice-Holds b p xs h) (overwrite_all _ xs (law.unsafe_length (length xs)))

-- The bytes of a length-encoded string.
unfoldable pub counted : Bytes → Bytes
counted src = length_encoding (length src) ++ src

pub length-counted : (src : Bytes) → length (counted src) ≡ buffer_length src
unfolding buffer_length counted
length-counted src =
    omega
      (arith, length-append (length_encoding (length src)) src, length-length_encoding (length src))

pub write_bytes_with_length-set_bytes :
    (rt : Platform) (nil : ℕ) (src : Bytes)
    → IsPlatform rt
    → length src < 2 ^ 63
    → write_bytes_with_length rt nil (some src) ≡ set_bytes (counted src)
unfolding write_bytes_with_length counted
write_bytes_with_length-set_bytes rt nil src law small =
    rw (write_length_encoded-set_bytes rt (length src) law small) (set_bytes->>-set_bytes _ src)

pub write_bytes_with_length-Emits :
    (rt : Platform) (nil : ℕ) (src : Bytes)
    → IsPlatform rt
    → length src < 2 ^ 63
    → Emits (write_bytes_with_length rt nil (some src)) (counted src)
write_bytes_with_length-Emits rt nil src law small = record {
  emits = write_bytes_with_length-set_bytes rt nil src law small;
}

-- What a string reads back as: the shared empty buffer where it is empty.
abbrev pub chunk_of : Bytes → Chunk
chunk_of [] = shared_empty
chunk_of (x ∷ xs) = fresh (x ∷ xs)

counted_head :
    (m : Message) (src : Bytes)
    → length src < 0x1000000
    → Holds m.bytes m.position (counted src)
    → read_length m
      ≡ ok (
        number (length src),
        record m { position = m.position + length_encoded_of (pos (length src)) },
      )
unfolding counted
counted_head m src small h = ground (
  arith,
  read_length-Holds m (length src) (omega arith)
      (Holds-append_left m.bytes m.position (length_encoding (length src)) src h),
)

counted_tail :
    (rt : Platform) (m : Message) (src : Bytes)
    → IsPlatform rt
    → Holds m.bytes m.position (counted src)
    → copy_bytes rt m.bytes (m.position + length_encoded_of (pos (length src))) (length src) ≡ src
unfolding counted
counted_tail rt m src law h = copy_bytes-Holds rt m.bytes _ src law (
    Holds-append_right m.bytes m.position _ (length_encoding (length src)) src
      (ap (λ k. m.position + k) (sym (length-length_encoding (length src)))) h)

-- A length-encoded string below 2 ^ 24 bytes is read back, and the cursor moves behind it.
pub read_bytes_with_length-Holds :
    (rt : Platform) (m : Message) (src : Bytes)
    → IsPlatform rt
    → length src < 0x1000000
    → Holds m.bytes m.position (counted src)
    → read_bytes_with_length rt m
      ≡ ok (some (chunk_of src), record m { position = m.position + buffer_length src })
unfolding read_bytes_with_length buffer_length
read_bytes_with_length-Holds rt m [] law small h = ground (arith, counted_head m [] small h)
read_bytes_with_length-Holds rt m (x ∷ xs) law small h =
    ground (arith, counted_head m (x ∷ xs) small h, counted_tail rt m (x ∷ xs) law h)

-- A string below 2 ^ 24 bytes that is written with its length where it fits is read back from
-- there, and both offsets move by its buffer length; an empty one reads as the shared empty
-- buffer. The platform's byte order is the protocol's, and its new buffers have the size asked
-- for.
pub read_bytes_with_length-write_bytes_with_length :
    (rt : Platform) (b : Bytes) (p len nil : ℕ) (src : Bytes)
    → IsPlatform rt
    → length src < 0x1000000
    → p + buffer_length src ≤ length b
    → let written = overwrite b p (counted src) in
      (write_bytes_with_length rt nil (some src) b p ≡ ok (written, p + buffer_length src))
      × (read_bytes_with_length rt (record { bytes = written; length = len; position = p })
          ≡ ok (
            some (chunk_of src),
            record { bytes = written; length = len; position = p + buffer_length src },
          ))
read_bytes_with_length-write_bytes_with_length rt b p len nil src law small fits =
    let fits' : p + length (counted src) ≤ length b = rw (length-counted src) fits in
    (
      rw (write_bytes_with_length-set_bytes rt nil src law (omega arith), ← length-counted src)
          (set_bytes-ok (counted src) b p fits'),
      read_bytes_with_length-Holds rt (record { bytes = _; length = len; position = p }) src law
          small (overwrite-Holds b p (counted src) fits'),
    )

abbrev pub HasNoZero : Bytes → Type 0
HasNoZero [] = Unit {0}
HasNoZero (x ∷ xs) = (x ≢ 0) × HasNoZero xs

zero_offset-take :
    (b : Bytes) (k : ℕ) (xs : Bytes)
    → HasNoZero xs
    → length xs < k
    → Holds b 0 (xs ++ 0 ∷ [])
    → zero_offset (take k b) ≡ some (length xs)
unfolding zero_offset
zero_offset-take [] k [] nz lt h = cc h.0
zero_offset-take [] k (x ∷ xs) nz lt h = cc h.0
zero_offset-take (b ∷ bs) zero xs nz lt h = absurd (omega arith)
zero_offset-take (b ∷ bs) (suc k) [] nz lt h = ground (arith, h.0)
zero_offset-take (b ∷ bs) (suc k) (x ∷ xs) nz lt h = ground (
  arith,
  h.0,
  nz.0,
  zero_offset-take bs k xs nz.1 (omega arith) (Holds-pred b bs 0 (xs ++ 0 ∷ []) h.1),
)

zero_offset-Holds :
    (b : Bytes) (p k : ℕ) (xs : Bytes)
    → HasNoZero xs
    → length xs < k
    → Holds b p (xs ++ 0 ∷ [])
    → zero_offset (slice b p k) ≡ some (length xs)
zero_offset-Holds b zero k xs nz lt h = zero_offset-take b k xs nz lt h
zero_offset-Holds [] (suc p) k [] nz lt h = cc h.0
zero_offset-Holds [] (suc p) k (x ∷ xs) nz lt h = cc h.0
zero_offset-Holds (b ∷ bs) (suc p) k xs nz lt h =
    zero_offset-Holds bs p k xs nz lt (Holds-pred b bs p (xs ++ 0 ∷ []) h)

-- A string without zeros that stands at the cursor with a 0 behind it, inside the message, is
-- read, and the cursor moves behind the 0; an empty one reads as the shared empty buffer. The
-- platform's new buffers have the size asked for.
pub read_bytes_with_null-Holds :
    (rt : Platform) (m : Message) (xs : Bytes)
    → IsPlatform rt
    → HasNoZero xs
    → m.position + length xs < m.length
    → Holds m.bytes m.position (xs ++ 0 ∷ [])
    → read_bytes_with_null rt m ≡ (chunk_of xs, record m { position = m.position + length xs + 1 })
unfolding read_bytes_with_null has_remaining
read_bytes_with_null-Holds rt m [] law nz lt h =
    ground
      (arith, zero_offset-Holds m.bytes m.position (m.length - m.position) [] nz (omega arith) h)
read_bytes_with_null-Holds rt m (x ∷ xs) law nz lt h = ground (
  arith,
  zero_offset-Holds m.bytes m.position (m.length - m.position) (x ∷ xs) nz (omega arith) h,
  copy_bytes-Holds rt m.bytes m.position (x ∷ xs) law
      (Holds-append_left m.bytes m.position (x ∷ xs) (0 ∷ []) h),
)

-- ===== src/Net/Message/Lengths.antt =====
-- Length-encoded numbers and byte strings: what is written is read back.
use mycat_js.Prelude.{
  ℕ, suc, ◌+◌, ◌^◌, ◌≡◌, ◌≤◌, ◌<◌, [], ◌∷◌, length, ltb, if◌then◌else◌, arith, ok, pos, inl, inr,
  Bool-cases, ltb→lt,
}
use mycat_js.Runtime.{Bytes, overwrite, le_bytes, set_bytes, write_u8, Platform, IsPlatform}
use mycat_js.Runtime.Writing.{set_bytes->>-set_bytes, set_bytes-ok, Emits}
use mycat_js.Runtime.Reading.{
  Holds, overwrite-Holds, read_u8-Holds, read_u16_le-Holds, read_u64_le-Holds,
}
use mycat_js.Buffer.Helper.{write_u24_le-set_bytes, read_u24_le-Holds}
use mycat_js.Net.Message.{
  Message, Length, number, big_int, read_length, length_encoded_of, write_length_encoded,
}
use native.Mathlib.Numerals.{add-one}

-- The protocol's bytes for a number.
unfoldable pub length_encoding : ℕ → Bytes
length_encoding n =
    if ltb n 0xfb
    then n ∷ []
    else if ltb n 0x10000
    then 252 ∷ le_bytes 2 n
    else if ltb n 0x1000000
    then 253 ∷ le_bytes 3 n
    else 254 ∷ le_bytes 8 n

-- What a number reads back as: a BigInt from 2 ^ 24 on.
abbrev pub length_value : ℕ → Length
length_value n = if ltb n 0x1000000 then number n else big_int (pos n)

pub length-length_encoding : (n : ℕ) → length (length_encoding n) ≡ length_encoded_of (pos n)
unfolding length_encoded_of length_encoding
length-length_encoding n = ground arith

-- A positive 64-bit number is written as its encoding in one write.
pub write_length_encoded-set_bytes :
    (rt : Platform) (n : ℕ)
    → IsPlatform rt
    → n < 2 ^ 63
    → write_length_encoded rt (pos n) ≡ set_bytes (length_encoding n)
unfolding write_length_encoded write_u8 length_encoded_of length_encoding
write_length_encoded-set_bytes rt n law small = ground (
  arith,
  law.u16_lem n,
  law.i64_lem n,
  write_u24_le-set_bytes n,
  set_bytes->>-set_bytes (252 ∷ []) (le_bytes 2 n),
  set_bytes->>-set_bytes (253 ∷ []) (le_bytes 3 n),
  set_bytes->>-set_bytes (254 ∷ []) (le_bytes 8 n),
)

pub write_length_encoded-Emits :
    (rt : Platform) (n : ℕ)
    → IsPlatform rt
    → n < 2 ^ 63
    → Emits (write_length_encoded rt (pos n)) (length_encoding n)
write_length_encoded-Emits rt n law small = record {
  emits = write_length_encoded-set_bytes rt n law small;
}

module _ (m : Message) (n : ℕ) where
  -- The cursor behind the bytes of a number.
  abbrev moved : ℕ → Message
  moved k = record m { position = m.position + k }

  read_length_one :
      n < 251 → Holds m.bytes m.position (n ∷ []) → read_length m ≡ ok (number n, moved 1)
  unfolding read_length
  read_length_one small h = ground (arith, read_u8-Holds m.bytes m.position n h.0)

  read_length_three :
      n < 0x10000
      → Holds m.bytes m.position (252 ∷ le_bytes 2 n)
      → read_length m ≡ ok (number n, moved 3)
  unfolding read_length
  read_length_three small h = ground (
    arith,
    read_u8-Holds m.bytes m.position 252 h.0,
    add-one m.position,
    read_u16_le-Holds m.bytes (suc m.position) n small h.1,
  )

  read_length_four :
      n < 0x1000000
      → Holds m.bytes m.position (253 ∷ le_bytes 3 n)
      → read_length m ≡ ok (number n, moved 4)
  unfolding read_length
  read_length_four small h = ground (
    arith,
    read_u8-Holds m.bytes m.position 253 h.0,
    add-one m.position,
    read_u24_le-Holds m.bytes (suc m.position) n small h.1,
  )

  read_length_nine :
      n < 2 ^ 63
      → Holds m.bytes m.position (254 ∷ le_bytes 8 n)
      → read_length m ≡ ok (big_int (pos n), moved 9)
  unfolding read_length
  read_length_nine small h = ground (
    arith,
    read_u8-Holds m.bytes m.position 254 h.0,
    add-one m.position,
    read_u64_le-Holds m.bytes (suc m.position) n (omega arith) h.1,
  )

  -- The encoding of a positive 64-bit number is read back, and the cursor moves behind it.
  pub read_length-Holds :
      n < 2 ^ 63
      → Holds m.bytes m.position (length_encoding n)
      → read_length m ≡ ok (length_value n, moved (length_encoded_of (pos n)))
  unfolding length_encoded_of length_encoding
  read_length-Holds small h = elim (Bool-cases (ltb n 0xfb)) [
    | inl e ↦ ground (arith, read_length_one (ltb→lt n _ e) (rw e at h))
    | inr e ↦ elim (Bool-cases (ltb n 0x10000)) [
      | inl f ↦ ground (arith, read_length_three (ltb→lt n _ f) (rw (e, f) at h))
      | inr f ↦ elim (Bool-cases (ltb n 0x1000000)) [
        | inl g ↦ ground (arith, read_length_four (ltb→lt n _ g) (rw (e, f, g) at h))
        | inr g ↦ ground (arith, read_length_nine small (rw (e, f, g) at h))
      ]
    ]
  ]

-- A number below 2 ^ 63 that is written where its bytes fit is read back from there: as a number
-- below 2 ^ 24 and as a BigInt from there on. Both offsets move by its length-encoded size. The
-- platform's byte order is the protocol's.
pub read_length-write_length_encoded :
    (rt : Platform) (b : Bytes) (p len n : ℕ)
    → IsPlatform rt
    → n < 2 ^ 63
    → p + length_encoded_of (pos n) ≤ length b
    → let written = overwrite b p (length_encoding n) in
      (write_length_encoded rt (pos n) b p ≡ ok (written, p + length_encoded_of (pos n)))
      × (read_length (record { bytes = written; length = len; position = p })
          ≡ ok (
            length_value n,
            record { bytes = written; length = len; position = p + length_encoded_of (pos n) },
          ))
read_length-write_length_encoded rt b p len n law small fits =
    let fits' : p + length (length_encoding n) ≤ length b = rw (length-length_encoding n) fits in
    (
      rw (write_length_encoded-set_bytes rt n law small, ← length-length_encoding n)
          (set_bytes-ok (length_encoding n) b p fits'),
      read_length-Holds (record { bytes = _; length = len; position = p }) n small
          (overwrite-Holds b p (length_encoding n) fits'),
    )

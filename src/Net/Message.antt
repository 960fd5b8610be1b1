-- ===== src/Net/Message.antt =====
-- net/mysql/mysql-message.js: the cursor that reads a packet, and the length-encoded writes.
-- Strings are the bytes before they are decoded.
pub mod Lengths
pub mod Strings
use mycat_js.Prelude.{
  ℕ, zero, suc, ◌+◌, ◌-◌, ◌*◌, ◌/◌, ◌%◌, ◌^◌, ◌≡◌, Bool, true, false, List, [], ◌∷◌, ◌++◌, Option,
  none, some, length, get_elem?, drop, ltb, leb, ◌==◌, if◌then◌else◌, Error, type_error, Result, ok,
  err, ◌>>=◌, ℤ, pos, negsuc,
}
use mycat_js.Runtime.{Bytes, overwrite, Writer, set_bytes, ◌>>◌, write_u8, Platform, byte_at, slice}
use mycat_js.Runtime
use mycat_js.Buffer.Helper.{read_u24_le, write_u24_le}

pub record Message : Type 0 where
  pub bytes : Bytes
  pub length : ℕ
  pub position : ℕ

-- The length is the buffer's where the argument is -1.
unfoldable pub message : Bytes → Option ℕ → Message
message b none = record { bytes = b; length = length b; position = 0 }
message b (some n) = record { bytes = b; length = n; position = 0 }

unfoldable pub has_remaining : Message → Bool
has_remaining m = ltb m.position m.length

unfoldable pub skip : Message → ℕ → Message
skip m i = record m { position = m.position + i }

unfoldable pub skip_to : Message → ℕ → Message
skip_to m i = record m { position = i }

-- A method that reads: its value and the moved cursor.
abbrev pub Reader : Type 0 → Type 0
Reader A = Message → Result (A × Message)

-- An element past the end is undefined.
unfoldable pub read : Message → Option ℕ × Message
read m = (get_elem? m.bytes m.position, record m { position = m.position + 1 })

-- A read of the buffer that moves the cursor by a width when it succeeds.
abbrev read_at : (Bytes → ℕ → Result ℕ) → ℕ → Reader ℕ
read_at f width m = do i ← f m.bytes m.position; ok (i, record m { position = m.position + width })

unfoldable pub read_u8 : Reader ℕ
read_u8 = read_at Runtime.read_u8 1

unfoldable pub read_u16 : Reader ℕ
read_u16 = read_at Runtime.read_u16_le 2

unfoldable pub read_u24 : Message → ℕ × Message
read_u24 m = (read_u24_le m.bytes m.position, record m { position = m.position + 3 })

unfoldable pub read_u32 : Reader ℕ
read_u32 = read_at Runtime.read_u32_le 4

-- The integer that `bits` bits stand for in two's complement.
abbrev pub to_signed : ℕ → ℕ → ℤ
to_signed bits v = if ltb v (2 ^ (bits - 1)) then pos v else negsuc (2 ^ bits - 1 - v)

unfoldable pub read_i32 : Reader ℤ
unfolding read_u32
read_i32 m = do (v, m') ← read_u32 m; ok (to_signed 32 v, m')

-- A Buffer has no method `readIn64LE`.
unfoldable pub read_i64 : Reader ℤ
read_i64 m = err type_error

-- What `readLength` returns: -1 for a NULL, a number, or the BigInt of `readInt64LE`.
pub data Length : Type 0 where
  null_length : Length
  number : ℕ → Length
  big_int : ℤ → Length

read_length_body : Message → ℕ → Result (Length × Message)
read_length_body m len =
    let p = m.position + 1 in
    if len == 251
    then ok (null_length, record m { position = p })
    else if len == 252
    then (Runtime.read_u16_le m.bytes p >>= λ v. ok (number v, record m { position = p + 2 }))
    else if len == 253
    then ok (number (read_u24_le m.bytes p), record m { position = p + 3 })
    else if len == 254
    then (Runtime.read_u64_le m.bytes p >>= λ v.
        ok (big_int (to_signed 64 v), record m { position = p + 8 }))
    else ok (number len, record m { position = p })

unfoldable pub read_length : Reader Length
unfolding read_length_body
read_length m = do len ← Runtime.read_u8 m.bytes m.position; read_length_body m len

-- The bytes that a read returns: the one shared empty buffer, which the callers compare with, or
-- a buffer of its own.
pub data Chunk : Type 0 where
  shared_empty : Chunk
  fresh : Bytes → Chunk

abbrev pub chunk_bytes : Chunk → Bytes
chunk_bytes shared_empty = []
chunk_bytes (fresh b) = b

-- The offset of the first 0 of a list.
unfoldable pub zero_offset : Bytes → Option ℕ
zero_offset [] = none
zero_offset (b ∷ bs) =
    if b == 0 then some 0 else elim (zero_offset bs) [ none ↦ none | some i ↦ some (suc i) ]

module _ (rt : Platform) where
  -- `allocUnsafe(n)`, and `n` bytes copied into it from `p` on, as far as there are any.
  unfoldable pub copy_bytes : Bytes → ℕ → ℕ → Bytes
  copy_bytes b p n = overwrite (rt.unsafe_bytes n) 0 (slice b p n)

  -- All that remains where no size is given.
  unfoldable pub read_bytes : Message → Option ℕ → Chunk × Message
  unfolding copy_bytes has_remaining
  read_bytes m none =
      if has_remaining m
      then (
        fresh (copy_bytes m.bytes m.position (m.length - m.position)),
        record m { position = m.length },
      )
      else (shared_empty, m)
  read_bytes m (some size) =
      (fresh (copy_bytes m.bytes m.position size), record m { position = m.position + size })

  -- The loop looks for a 0 from the cursor up to the message's length.
  unfoldable pub read_bytes_with_null : Message → Chunk × Message
  unfolding read_bytes zero_offset has_remaining
  read_bytes_with_null m =
      if has_remaining m
      then elim (zero_offset (slice m.bytes m.position (m.length - m.position))) [
        | none ↦ read_bytes m (some (m.length - m.position))
        | some zero ↦ (shared_empty, record m { position = m.position + 1 })
        | some (suc k) ↦ (
          fresh (copy_bytes m.bytes m.position (suc k)),
          record m { position = m.position + suc k + 1 },
        )
      ]
      else (shared_empty, m)

  -- `null` is `none`. A BigInt above 0 cannot be added to the cursor.
  read_counted : Length → Message → Result (Option Chunk × Message)
  unfolding read_bytes
  read_counted null_length m = ok (none, m)
  read_counted (number n) m =
      if n == 0
      then ok (some shared_empty, m)
      else (let r = read_bytes m (some n) in ok (some r.0, r.1))
  read_counted (big_int (negsuc n)) m = ok (some shared_empty, m)
  read_counted (big_int (pos n)) m = if n == 0 then ok (some shared_empty, m) else err type_error

  unfoldable pub read_bytes_with_length : Reader (Option Chunk)
  unfolding read_counted
  read_bytes_with_length m = do (len, m') ← read_length m; read_counted len m'

  -- The shared empty buffer reads as `null`, and so does `null` itself.
  abbrev text_of : Chunk → Option Bytes
  text_of shared_empty = none
  text_of (fresh b) = some b

  unfoldable pub read_string : Message → Option Bytes × Message
  read_string m = let r = read_bytes m none in (text_of r.0, r.1)

  unfoldable pub read_string_with_null : Message → Option Bytes × Message
  read_string_with_null m = let r = read_bytes_with_null m in (text_of r.0, r.1)

  unfoldable pub read_string_with_length : Reader (Option Bytes)
  read_string_with_length m = do
    (c, m') ← read_bytes_with_length m
    ok (elim c [ none ↦ none | some d ↦ text_of d ], m')

-- The loop of `getRowLength` over the columns left.
unfoldable pub row_length_loop : ℕ → ℕ → Message → Result ℕ
row_length_loop zero size m = ok size
row_length_loop (suc k) size m = read_length m >>= λ (len, m'). elim len [
  | null_length ↦ row_length_loop k size m'
  | number n ↦ row_length_loop k (size + n) (record m' { position = m'.position + n })
  | big_int z ↦ elim z [
    | negsuc n ↦ row_length_loop k size m'
    | pos n ↦ if n == 0 then row_length_loop k size m' else err type_error
  ]
]

-- `finally` puts the cursor back, whether or not a read throws.
unfoldable pub get_row_length : Message → ℕ → Result ℕ × Message
get_row_length m field_count =
    (row_length_loop field_count 0 (record m { position = m.position + 4 }), m)

-- The arguments of the Date that is built; an element past the end is undefined.
pub record DateFields : Type 0 where
  pub year : ℕ
  pub month : Option ℤ
  pub date : Option ℕ
  pub hour : Option ℕ
  pub minute : Option ℕ
  pub second : Option ℕ
  pub millis : Option ℕ

-- `--month`
before : Option ℕ → Option ℤ
before none = none
before (some zero) = some (negsuc 0)
before (some (suc n)) = some (pos n)

unfoldable pub read_time : Message → DateFields × Message
unfolding read skip
read_time m =
    let (hour, m1) = read (skip m 6) in
    let (minute, m2) = read m1 in
    let (second, m3) = read m2 in
    (
      record {
        year = 0;
        month = some (pos 0);
        date = some 0;
        hour = hour;
        minute = minute;
        second = second;
        millis = none;
      },
      m3,
    )

-- The last four bytes count nanoseconds, and stand there only where the length is 11.
read_millis : Option ℕ → Reader (Option ℕ)
read_millis len m =
    if elim len [ none ↦ false | some n ↦ n == 11 ]
    then (read_u32 m >>= λ (nanos, m'). ok (some (nanos / 1000000), m'))
    else ok (none, m)

unfoldable pub read_date : Reader DateFields
unfolding read before read_millis
read_date m = do
  let (len, m1) = read m
  (year, m2) ← read_u16 m1
  let (month, m3) = read m2
  let (date, m4) = read m3
  let (hour, m5) = read m4
  let (minute, m6) = read m5
  let (second, m7) = read m6
  (millis, m8) ← read_millis len m7
  ok (
    record {
      year = year;
      month = before month;
      date = date;
      hour = hour;
      minute = minute;
      second = second;
      millis = millis;
    },
    m8,
  )

-- Bytes needed for the length-encoded number.
unfoldable pub length_encoded_of : ℤ → ℕ
length_encoded_of (negsuc n) = 9
length_encoded_of (pos n) =
    if ltb n 0xfb then 1 else if ltb n 0x10000 then 3 else if ltb n 0x1000000 then 4 else 9

-- The 64 bits of an integer in two's complement, of a number the low byte that is written.
abbrev pub bits64 : ℤ → ℕ
bits64 (pos n) = n % 2 ^ 64
bits64 (negsuc n) = 2 ^ 64 - 1 - n % 2 ^ 64

module _ (rt : Platform) where
  -- The `switch` on the byte count. Its default, an error, is never reached.
  unfoldable pub write_length_encoded : ℤ → Writer
  write_length_encoded n =
      let len = length_encoded_of n in
      if len == 1
      then write_u8 (bits64 n)
      else if len == 3
      then (write_u8 0xfc >> rt.write_u16 (bits64 n))
      else if len == 4
      then (write_u8 0xfd >> write_u24_le (bits64 n))
      else (write_u8 0xfe >> rt.write_i64 (bits64 n))

  -- A missing source writes the byte `nil`.
  unfoldable pub write_bytes_with_length : ℕ → Option Bytes → Writer
  write_bytes_with_length nil none = write_u8 nil
  write_bytes_with_length nil (some src) = write_length_encoded (pos (length src)) >> set_bytes src

unfoldable pub buffer_length : Bytes → ℕ
buffer_length b = length_encoded_of (pos (length b)) + length b

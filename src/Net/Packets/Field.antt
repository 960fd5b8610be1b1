-- ===== src/Net/Packets/Field.antt =====
-- net/mysql/field-packet.js
use mycat_js.Prelude.{
  ℕ, suc, ◌+◌, ◌-◌, ◌*◌, ◌^◌, ◌/◌, ◌%◌, ◌≡◌, ◌<◌, ◌≤◌, List, [], ◌∷◌, ◌++◌, Option, none, some,
  length, length-append, pos, arith, refl, sym, ◌∙◌, ap, Bool, true, false, ltb, leb, if◌then◌else◌,
  replicate, length-replicate, zero, Bool-cases, inl, inr, ◌≢◌,
}
use mycat_js.Prelude
use mycat_js.Runtime.{
  Bytes, Writer, set_bytes, ◌>>◌, le_bytes, write_u8, write_u16_le, write_u32_le, Platform,
  IsPlatform,
}
use mycat_js.Runtime.Writing.{
  Emits, >>-Emits, set_bytes-Emits, write_u8-Emits, write_u16_le-Emits, write_u32_le-Emits,
}
use mycat_js.Buffer.Helper.{write_u24_le}
use mycat_js.Net.Message.{write_bytes_with_length, buffer_length}
use mycat_js.Net.Message.Strings.{counted, length-counted, write_bytes_with_length-Emits}
use mycat_js.Net.Packets.{write_if_some, bytes_if_some, length_if_some, IsSmallField}
use mycat_js.Net.Packets.Framing.{Frames, header-Frames, >>-Emits_counted, length-bytes_if_some}
use mycat_js.Net.Connection.{Connection, write_packet}

pub record FieldPacket : Type 0 where
  pub sequence_id : ℕ
  pub catalog : Option Bytes
  pub db : Option Bytes
  pub table : Option Bytes
  pub org_table : Option Bytes
  pub name : Option Bytes
  pub org_name : Option Bytes
  pub charset_index : ℕ
  pub length : ℕ
  pub type : ℕ
  pub flags : ℕ
  pub decimals : ℕ
  pub definition : Option Bytes

-- The length of a name: one byte where it is missing.
abbrev pub name_length : Option Bytes → ℕ
name_length m = length_if_some m buffer_length 1

unfoldable pub calc_payload_length : FieldPacket → ℕ
calc_payload_length k =
    name_length k.catalog
    + name_length k.db
    + name_length k.table
    + name_length k.org_table
    + name_length k.name
    + name_length k.org_name
    + 13
    + length_if_some k.definition buffer_length 0

unfoldable pub write_body : Platform → FieldPacket → Writer
write_body rt k = do
  write_u24_le (calc_payload_length k)
  write_u8 k.sequence_id
  write_bytes_with_length rt 0 k.catalog
  write_bytes_with_length rt 0 k.db
  write_bytes_with_length rt 0 k.table
  write_bytes_with_length rt 0 k.org_table
  write_bytes_with_length rt 0 k.name
  write_bytes_with_length rt 0 k.org_name
  write_u8 0x0c
  write_u16_le k.charset_index
  write_u32_le k.length
  write_u8 k.type
  write_u16_le k.flags
  write_u8 k.decimals
  set_bytes (0 ∷ 0 ∷ [])
  write_if_some k.definition (λ m. write_bytes_with_length rt 0 (some m))

unfoldable pub write :
    Platform → FieldPacket → Connection → ℕ → Bool → Prelude.Result (ℕ × Connection)
write rt k c offset flush = write_packet c offset (calc_payload_length k) flush 0 (write_body rt k)

-- A missing name is written as an empty string.
unfoldable pub name_bytes : Option Bytes → Bytes
name_bytes none = le_bytes 1 0
name_bytes (some m) = counted m

abbrev pub fixed_part : FieldPacket → Bytes
fixed_part k =
    le_bytes 1 0x0c
    ++ (le_bytes 2 k.charset_index
        ++ (le_bytes 4 k.length
            ++ (le_bytes 1 k.type
                ++ (le_bytes 2 k.flags
                    ++ (le_bytes 1 k.decimals
                        ++ ((0 ∷ 0 ∷ []) ++ bytes_if_some k.definition counted))))))

abbrev pub payload : FieldPacket → Bytes
payload k =
    name_bytes k.catalog
    ++ (name_bytes k.db
        ++ (name_bytes k.table
            ++ (name_bytes k.org_table
                ++ (name_bytes k.name ++ (name_bytes k.org_name ++ fixed_part k)))))

pub record IsSmall (k : FieldPacket) : Type 0 where
  pub catalog_small : IsSmallField k.catalog
  pub db_small : IsSmallField k.db
  pub table_small : IsSmallField k.table
  pub org_table_small : IsSmallField k.org_table
  pub name_small : IsSmallField k.name
  pub org_name_small : IsSmallField k.org_name
  pub definition_small : IsSmallField k.definition

name-Emits :
    (rt : Platform) (m : Option Bytes)
    → IsPlatform rt
    → IsSmallField m
    → Emits (write_bytes_with_length rt 0 m) (name_bytes m)
unfolding name_bytes write_bytes_with_length
name-Emits rt none law small = write_u8-Emits 0
name-Emits rt (some m) law small = fold (write_bytes_with_length-Emits rt 0 m law small)
  where
    fold :
        Emits (write_bytes_with_length rt 0 (some m)) (counted m)
        → Emits (write_bytes_with_length rt 0 (some m)) (name_bytes (some m))
    fold e = e

length-name_bytes : (m : Option Bytes) → length (name_bytes m) ≡ name_length m
unfolding name_bytes
length-name_bytes none = refl
length-name_bytes (some m) = length-counted m

calc_payload_length-length : (k : FieldPacket) → calc_payload_length k ≡ length (payload k)
unfolding calc_payload_length
calc_payload_length-length k =
    omega (arith, length-append {0}, length-name_bytes, length-bytes_if_some)

fixed_part-Emits :
    (rt : Platform) (k : FieldPacket)
    → IsPlatform rt
    → IsSmallField k.definition
    → Emits
        (do
          write_u8 0x0c
          write_u16_le k.charset_index
          write_u32_le k.length
          write_u8 k.type
          write_u16_le k.flags
          write_u8 k.decimals
          set_bytes (0 ∷ 0 ∷ [])
          write_if_some k.definition (λ m. write_bytes_with_length rt 0 (some m)))
        (fixed_part k)
fixed_part-Emits rt k law small = >>-Emits (write_u8-Emits 0x0c) (
    >>-Emits (write_u16_le-Emits k.charset_index) (
      >>-Emits (write_u32_le-Emits k.length) (
        >>-Emits (write_u8-Emits k.type) (
          >>-Emits (write_u16_le-Emits k.flags) (
            >>-Emits (write_u8-Emits k.decimals)
              (>>-Emits_counted rt k.definition law small (set_bytes-Emits (0 ∷ 0 ∷ []))))))))

-- The code writes the protocol's field packet in a frame whose header announces its length, where
-- each string is below 2 ^ 63 bytes and the platform's byte order is the protocol's.
pub field_packet-Frames :
    (rt : Platform) (k : FieldPacket)
    → IsPlatform rt
    → IsSmall k
    → Frames k.sequence_id (payload k) (calc_payload_length k) (write_body rt k)
unfolding write_body
field_packet-Frames rt k law small = header-Frames (calc_payload_length-length k) (
    >>-Emits (name-Emits rt k.catalog law small.catalog_small) (
      >>-Emits (name-Emits rt k.db law small.db_small) (
        >>-Emits (name-Emits rt k.table law small.table_small) (
          >>-Emits (name-Emits rt k.org_table law small.org_table_small) (
            >>-Emits (name-Emits rt k.name law small.name_small) (
              >>-Emits (name-Emits rt k.org_name law small.org_name_small)
                (fixed_part-Emits rt k law small.definition_small)))))))

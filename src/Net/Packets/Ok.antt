-- ===== src/Net/Packets/Ok.antt =====
-- net/mysql/ok-packet.js
use mycat_js.Prelude.{
  ℕ, suc, ◌+◌, ◌^◌, ◌%◌, ◌≡◌, ◌<◌, List, [], ◌∷◌, ◌++◌, Option, none, some, length, length-append,
  pos, arith, refl, sym, ◌∙◌, ap, Bool,
}
use mycat_js.Prelude
use mycat_js.Runtime.{Bytes, Writer, ◌>>◌, le_bytes, write_u8, write_u16_le, Platform, IsPlatform}
use mycat_js.Runtime.Writing.{>>-Emits, write_u8-Emits, write_u16_le-Emits}
use mycat_js.Buffer.Helper.{write_u24_le}
use mycat_js.Net.Message.{
  length_encoded_of, write_length_encoded, write_bytes_with_length, buffer_length,
}
use mycat_js.Net.Message.Lengths.{
  length_encoding, length-length_encoding, write_length_encoded-Emits,
}
use mycat_js.Net.Message.Strings.{counted}
use mycat_js.Net.Packets.{write_if_some, bytes_if_some, length_if_some, IsSmallField}
use mycat_js.Net.Packets.Framing.{Frames, header-Frames, >>-Emits_counted, length-bytes_if_some}
use mycat_js.Net.Connection.{Connection, write_packet}

pub record OkPacket : Type 0 where
  pub sequence_id : ℕ
  pub field_count : ℕ
  pub affected_rows : ℕ
  pub insert_id : ℕ
  pub server_status : ℕ
  pub warning_count : ℕ
  pub message : Option Bytes

unfoldable pub calc_payload_length : OkPacket → ℕ
calc_payload_length k =
    1
    + length_encoded_of (pos k.affected_rows)
    + length_encoded_of (pos k.insert_id)
    + 4
    + length_if_some k.message buffer_length 0

unfoldable pub write_body : Platform → OkPacket → Writer
write_body rt k = do
  write_u24_le (calc_payload_length k)
  write_u8 k.sequence_id
  write_u8 k.field_count
  write_length_encoded rt (pos k.affected_rows)
  write_length_encoded rt (pos k.insert_id)
  write_u16_le k.server_status
  write_u16_le k.warning_count
  write_if_some k.message (λ m. write_bytes_with_length rt 0 (some m))

unfoldable pub write : Platform → OkPacket → Connection → ℕ → Bool → Prelude.Result (ℕ × Connection)
write rt k c offset flush =
    write_packet c offset (calc_payload_length k) flush offset (write_body rt k)

-- The protocol's payload.
abbrev pub payload : OkPacket → Bytes
payload k =
    le_bytes 1 k.field_count
    ++ (length_encoding k.affected_rows
        ++ (length_encoding k.insert_id
            ++ (le_bytes 2 k.server_status
                ++ (le_bytes 2 k.warning_count ++ bytes_if_some k.message counted))))

-- All numbers and the message's length fit in 63 bits.
pub record IsSmall (k : OkPacket) : Type 0 where
  pub rows_small : k.affected_rows < 2 ^ 63
  pub id_small : k.insert_id < 2 ^ 63
  pub message_small : IsSmallField k.message

calc_payload_length-length : (k : OkPacket) → calc_payload_length k ≡ length (payload k)
unfolding calc_payload_length
calc_payload_length-length k =
    omega (arith, length-append {0}, length-length_encoding, length-bytes_if_some)

-- The code writes the protocol's OK packet in a frame whose header announces its length, where
-- the counts and the length of the message are below 2 ^ 63 and the platform's byte order is the
-- protocol's.
pub ok_packet-Frames :
    (rt : Platform) (k : OkPacket)
    → IsPlatform rt
    → IsSmall k
    → Frames k.sequence_id (payload k) (calc_payload_length k) (write_body rt k)
unfolding write_body
ok_packet-Frames rt k law small = header-Frames (calc_payload_length-length k) (
    >>-Emits (write_u8-Emits k.field_count) (
      >>-Emits (write_length_encoded-Emits rt k.affected_rows law small.rows_small) (
        >>-Emits (write_length_encoded-Emits rt k.insert_id law small.id_small) (
          >>-Emits (write_u16_le-Emits k.server_status) (
            >>-Emits_counted rt k.message law small.message_small
              (write_u16_le-Emits k.warning_count))))))

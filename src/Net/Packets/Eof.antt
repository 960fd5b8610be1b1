-- ===== src/Net/Packets/Eof.antt =====
-- net/mysql/eof-packet.js
use mycat_js.Prelude.{
  ℕ, suc, ◌+◌, ◌-◌, ◌*◌, ◌^◌, ◌/◌, ◌%◌, ◌≡◌, ◌<◌, ◌≤◌, List, [], ◌∷◌, ◌++◌, Option, none, some,
  length, length-append, pos, arith, refl, sym, ◌∙◌, ap, Bool, true, false, ltb, leb, if◌then◌else◌,
  replicate, length-replicate, zero, Bool-cases, inl, inr, ◌≢◌,
}
use mycat_js.Prelude
use mycat_js.Runtime.{Bytes, Writer, ◌>>◌, le_bytes, write_u8, write_u16_le}
use mycat_js.Runtime.Writing.{>>-Emits, write_u8-Emits, write_u16_le-Emits}
use mycat_js.Buffer.Helper.{write_u24_le}
use mycat_js.Net.Packets.Framing.{Frames, header-Frames}
use mycat_js.Net.Connection.{Connection, write_packet}

pub record EofPacket : Type 0 where
  pub sequence_id : ℕ
  pub field_count : ℕ
  pub warning_count : ℕ
  pub status : ℕ

unfoldable pub calc_payload_length : EofPacket → ℕ
calc_payload_length k = 5

unfoldable pub write_body : EofPacket → Writer
write_body k = do
  write_u24_le (calc_payload_length k)
  write_u8 k.sequence_id
  write_u8 k.field_count
  write_u16_le k.warning_count
  write_u16_le k.status

-- The flush starts at 0, whatever the offset.
unfoldable pub write : EofPacket → Connection → ℕ → Bool → Prelude.Result (ℕ × Connection)
write k c offset flush = write_packet c offset (calc_payload_length k) flush 0 (write_body k)

abbrev pub payload : EofPacket → Bytes
payload k = le_bytes 1 k.field_count ++ (le_bytes 2 k.warning_count ++ le_bytes 2 k.status)

-- The code writes the protocol's EOF packet in a frame whose header announces its length.
pub eof_packet-Frames :
    (k : EofPacket) → Frames k.sequence_id (payload k) (calc_payload_length k) (write_body k)
unfolding write_body calc_payload_length
eof_packet-Frames k = header-Frames refl (
    >>-Emits (write_u8-Emits k.field_count)
      (>>-Emits (write_u16_le-Emits k.warning_count) (write_u16_le-Emits k.status)))

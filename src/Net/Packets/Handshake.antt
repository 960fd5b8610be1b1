-- ===== src/Net/Packets/Handshake.antt =====
-- net/mysql/handshake-packet.js
use mycat_js.Prelude.{
  ℕ, suc, ◌+◌, ◌-◌, ◌*◌, ◌^◌, ◌/◌, ◌%◌, ◌≡◌, ◌<◌, ◌≤◌, List, [], ◌∷◌, ◌++◌, Option, none, some,
  length, length-append, pos, arith, refl, sym, ◌∙◌, ap, Bool, true, false, ltb, leb, if◌then◌else◌,
  replicate, length-replicate, zero, Bool-cases, inl, inr, ◌≢◌,
}
use mycat_js.Prelude
use mycat_js.Runtime.{
  Bytes, Writer, set_bytes, ◌>>◌, le_bytes, write_u8, write_u16_le, write_u32_le,
}
use mycat_js.Runtime.Writing.{
  >>-Emits, set_bytes-Emits, write_u8-Emits, write_u16_le-Emits, write_u32_le-Emits,
}
use mycat_js.Buffer.Helper.{write_u24_le}
use mycat_js.Net.Packets.Framing.{Frames, header-Frames}
use mycat_js.Net.Connection.{Connection, write_packet}

pub record HandshakePacket : Type 0 where
  pub sequence_id : ℕ
  pub protocol_version : ℕ
  pub server_version : Bytes
  pub thread_id : ℕ
  pub seed : Bytes
  pub server_capabilities : ℕ
  pub server_charset_index : ℕ
  pub server_status : ℕ
  pub rest_of_scramble_buff : Bytes

unfoldable pub calc_payload_length : HandshakePacket → ℕ
calc_payload_length k =
    1 + length k.server_version + 5 + length k.seed + 19 + length k.rest_of_scramble_buff + 1

unfoldable pub write_body : HandshakePacket → Writer
write_body k = do
  write_u24_le (calc_payload_length k)
  write_u8 k.sequence_id
  write_u8 k.protocol_version
  set_bytes k.server_version
  write_u8 0
  write_u32_le k.thread_id
  set_bytes k.seed
  write_u8 0
  write_u16_le k.server_capabilities
  write_u8 k.server_charset_index
  write_u16_le k.server_status
  set_bytes (replicate 13 0)
  set_bytes k.rest_of_scramble_buff
  write_u8 0

unfoldable pub write : HandshakePacket → Connection → ℕ → Bool → Prelude.Result (ℕ × Connection)
write k c offset flush = write_packet c offset (calc_payload_length k) flush offset (write_body k)

abbrev pub payload : HandshakePacket → Bytes
payload k =
    le_bytes 1 k.protocol_version
    ++ (k.server_version
        ++ (le_bytes 1 0
            ++ (le_bytes 4 k.thread_id
                ++ (k.seed
                    ++ (le_bytes 1 0
                        ++ (le_bytes 2 k.server_capabilities
                            ++ (le_bytes 1 k.server_charset_index
                                ++ (le_bytes 2 k.server_status
                                    ++ (replicate 13 0
                                        ++ (k.rest_of_scramble_buff ++ le_bytes 1 0))))))))))

calc_payload_length-length : (k : HandshakePacket) → calc_payload_length k ≡ length (payload k)
unfolding calc_payload_length
calc_payload_length-length k = omega (
  arith,
  length-append k.server_version _,
  length-append k.seed _,
  length-append k.rest_of_scramble_buff _,
)

-- The code writes the first greeting in a frame whose header announces its length.
pub handshake-Frames :
    (k : HandshakePacket) → Frames k.sequence_id (payload k) (calc_payload_length k) (write_body k)
unfolding write_body
handshake-Frames k = header-Frames (calc_payload_length-length k) (
    >>-Emits (write_u8-Emits k.protocol_version) (
      >>-Emits (set_bytes-Emits k.server_version) (
        >>-Emits (write_u8-Emits 0) (
          >>-Emits (write_u32_le-Emits k.thread_id) (
            >>-Emits (set_bytes-Emits k.seed) (
              >>-Emits (write_u8-Emits 0) (
                >>-Emits (write_u16_le-Emits k.server_capabilities) (
                  >>-Emits (write_u8-Emits k.server_charset_index) (
                    >>-Emits (write_u16_le-Emits k.server_status) (
                      >>-Emits (set_bytes-Emits (replicate 13 0)) (
                        >>-Emits (set_bytes-Emits k.rest_of_scramble_buff)
                          (write_u8-Emits 0))))))))))))

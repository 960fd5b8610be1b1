-- ===== src/Net/Packets.antt =====
-- net/mysql/mysql-packet.js: what the packets that the server writes have in common. A child for
-- each packet has its `calcPayloadLength` and, as `write_body`, the code of its `write` from the
-- header on; Net.Connection has the rest.
pub mod Framing
pub mod Ok
pub mod Eof
pub mod ErrorPacket
pub mod ResultSetHeader
pub mod Field
pub mod Handshake
pub mod HandshakeV10
pub mod AuthSwitch
pub mod Login
use mycat_js.Prelude.{
  ℕ, ◌/◌, ◌^◌, ◌<◌, ◌%◌, Bool, List, [], ◌∷◌, ◌++◌, Option, none, some, length, ◌==◌, ok,
}
use mycat_js.Runtime.{Bytes, Writer, set_bytes, le_bytes}

-- `cap & flag`, for a flag of one bit.
abbrev pub has_flag : ℕ → ℕ → Bool
has_flag cap flag = cap / flag % 2 == 1

-- config/capabilities.js
abbrev pub client_connect_with_db : ℕ
client_connect_with_db = 8

abbrev pub client_compress : ℕ
client_compress = 32

abbrev pub client_multi_statements : ℕ
client_multi_statements = 65536

abbrev pub client_protocol_41 : ℕ
client_protocol_41 = 512

abbrev pub client_secure_connection : ℕ
client_secure_connection = 32768

abbrev pub client_plugin_auth : ℕ
client_plugin_auth = 524288

-- No write.
abbrev pub no_write : Writer
no_write b p = ok (b, p)

-- The write of a field that a packet may lack.
abbrev pub write_if_some : Option Bytes → (Bytes → Writer) → Writer
write_if_some none f = no_write
write_if_some (some m) f = f m

-- The bytes of such a field.
abbrev pub bytes_if_some : Option Bytes → (Bytes → Bytes) → Bytes
bytes_if_some none f = []
bytes_if_some (some m) f = f m

-- A number that counts only where the field is there.
abbrev pub length_if_some : Option Bytes → (Bytes → ℕ) → ℕ → ℕ
length_if_some none f d = d
length_if_some (some m) f d = f m

-- A packet on the wire: the length of the payload in 3 bytes, the sequence number, the payload.
abbrev pub frame : ℕ → Bytes → Bytes
frame seq payload = le_bytes 3 (length payload) ++ (seq % 256 ∷ payload)

-- A field's bytes are fewer than 2 ^ 63.
abbrev pub IsSmallField : Option Bytes → Type 0
IsSmallField none = Unit {0}
IsSmallField (some m) = length m < 2 ^ 63

-- ===== src/Net/Packets/AuthSwitch.antt =====
-- net/mysql/auth-switch-packet.js
use mycat_js.Prelude.{
  ℕ, suc, ◌+◌, ◌-◌, ◌*◌, ◌^◌, ◌/◌, ◌%◌, ◌≡◌, ◌<◌, ◌≤◌, List, [], ◌∷◌, ◌++◌, Option, none, some,
  length, length-append, pos, arith, refl, sym, ◌∙◌, ap, Bool, true, false, ltb, leb, if◌then◌else◌,
  replicate, length-replicate, ◌>>=◌, zero, Bool-cases, inl, inr, ◌≢◌,
}
use mycat_js.Prelude
use mycat_js.Runtime.{Bytes, Writer, set_bytes, ◌>>◌, le_bytes, write_u8, Platform}
use mycat_js.Runtime.Writing.{Emits, >>-Emits, set_bytes-Emits, write_u8-Emits}
use mycat_js.Buffer.Helper.{write_u24_le}
use mycat_js.Net.Packets.Framing.{header-Emits}
use mycat_js.Net.Connection.{Connection, write_packet}
use mycat_js.Net.Message.{Chunk, message, read_u24, read_u8, read_bytes}

pub record AuthSwitchPacket : Type 0 where
  pub payload_length : ℕ
  pub sequence_id : ℕ
  pub plugin_name : Bytes
  pub auth_data : Bytes

-- The constructor does not call `super`, without which `this` cannot be had: it throws.
unfoldable pub new_auth_switch : Option Bytes → Option Bytes → Prelude.Result AuthSwitchPacket
new_auth_switch plugin_name auth_data = Prelude.err Prelude.reference_error

unfoldable pub calc_payload_length : AuthSwitchPacket → ℕ
calc_payload_length k = 3 + (length k.plugin_name + 1) + length k.auth_data

unfoldable pub write_body : AuthSwitchPacket → Writer
write_body k = do
  write_u24_le (calc_payload_length k)
  write_u8 k.sequence_id
  write_u8 0xfe
  set_bytes k.plugin_name
  set_bytes k.auth_data

-- It is always flushed.
unfoldable pub write : AuthSwitchPacket → Connection → ℕ → Prelude.Result (ℕ × Connection)
write k c offset = write_packet c offset (calc_payload_length k) true offset (write_body k)

-- The header's numbers, and as many bytes as the header says.
unfoldable pub read : Platform → AuthSwitchPacket → Bytes → Prelude.Result (ℕ × ℕ × Chunk)
read rt k buffer =
    let (n, m1) = read_u24 (message buffer none) in
    read_u8 m1 >>= λ (seq, m2). Prelude.ok (n, seq, (read_bytes rt m2 (some n)).0)

abbrev pub payload : AuthSwitchPacket → Bytes
payload k = le_bytes 1 0xfe ++ (k.plugin_name ++ k.auth_data)

-- The code writes the authentication switch behind a header that announces 3 bytes more than
-- follow it.
write_body_overstates :
    (k : AuthSwitchPacket)
    → Emits (write_body k) (le_bytes 3 (calc_payload_length k) ++ (k.sequence_id % 256 ∷ payload k))
      × (calc_payload_length k ≡ length (payload k) + 3)
unfolding write_body calc_payload_length
write_body_overstates k = (
  header-Emits k.sequence_id _ (
      >>-Emits (write_u8-Emits 0xfe)
        (>>-Emits (set_bytes-Emits k.plugin_name) (set_bytes-Emits k.auth_data))),
  omega (arith, length-append {0}),
)

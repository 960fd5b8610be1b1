-- ===== src/Net/Packets/HandshakeV10.antt =====
-- net/mysql/handshake-v10-packet.js
use mycat_js.Prelude.{
  ℕ, suc, ◌+◌, ◌-◌, ◌*◌, ◌^◌, ◌/◌, ◌%◌, ◌≡◌, ◌<◌, ◌≤◌, List, [], ◌∷◌, ◌++◌, Option, none, some,
  length, length-append, pos, arith, refl, sym, ◌∙◌, ap, Bool, true, false, ltb, leb, if◌then◌else◌,
  tests, ltb-false→le, replicate, length-replicate, zero, Bool-cases, inl, inr, ◌≢◌,
}
use mycat_js.Prelude
use mathlib.Core.List.{append-nil}
use mycat_js.Runtime.{
  Bytes, Writer, set_bytes, ◌>>◌, le_bytes, write_u8, write_u16_le, write_u32_le,
}
use mycat_js.Runtime.Writing.{
  Emits, >>-Emits, set_bytes-Emits, write_u8-Emits, write_u16_le-Emits, write_u32_le-Emits,
}
use mycat_js.Buffer.Helper.{write_u24_le}
use mycat_js.Net.Packets.{has_flag, no_write, client_secure_connection, client_plugin_auth}
use mycat_js.Net.Packets.Framing.{Frames, header-Frames, no_write->>, >>-no_write}
use mycat_js.Net.Connection.{Connection, write_packet}

pub record HandshakeV10Packet : Type 0 where
  pub sequence_id : ℕ
  pub protocol_version : ℕ
  pub server_version : Bytes
  pub thread_id : ℕ
  pub seed : Bytes
  pub server_capabilities : ℕ
  pub server_charset_index : ℕ
  pub server_status : ℕ
  pub rest_of_scramble_buff : Bytes
  pub auth_plugin_name : Bytes

-- Whether the packet has the second part of the scramble, and the name of the plugin.
abbrev pub is_secure : HandshakeV10Packet → Bool
is_secure k = has_flag k.server_capabilities client_secure_connection

abbrev pub has_plugin : HandshakeV10Packet → Bool
has_plugin k = has_flag k.server_capabilities client_plugin_auth

unfoldable pub calc_payload_length : HandshakeV10Packet → ℕ
calc_payload_length k =
    1
    + (length k.server_version + 1)
    + 4
    + length k.seed
    + 1
    + 2
    + 1
    + 2
    + 2
    + 1
    + 10
    + (if is_secure k
        then (if leb (length k.rest_of_scramble_buff) 13
            then 13
            else length k.rest_of_scramble_buff)
        else 0)
    + (if has_plugin k then length k.auth_plugin_name + 1 else 0)

-- `for (let i = 0; i < n; ++i) p = buffer.writeInt8(0, p);`
unfoldable pub pad : ℕ → Writer
pad zero = no_write
pad (suc n) = do write_u8 0; pad n

-- The length of the plugin's data, where there is a plugin.
abbrev pub data_length : HandshakeV10Packet → ℕ
data_length k =
    (if ltb (length k.rest_of_scramble_buff) 13 then 13 else length k.rest_of_scramble_buff)
    + length k.seed

unfoldable pub write_scramble : HandshakeV10Packet → Writer
write_scramble k =
    let rest_size = length k.rest_of_scramble_buff in
    if is_secure k
    then (set_bytes k.rest_of_scramble_buff
        >> (if ltb rest_size 13 then pad (13 - rest_size) else no_write))
    else no_write

unfoldable pub write_plugin : HandshakeV10Packet → Writer
write_plugin k = if has_plugin k then (set_bytes k.auth_plugin_name >> write_u8 0) else no_write

unfoldable pub write_body : HandshakeV10Packet → Writer
write_body k = do
  write_u24_le (calc_payload_length k)
  write_u8 k.sequence_id
  write_u8 k.protocol_version
  set_bytes k.server_version
  write_u8 0
  write_u32_le k.thread_id
  set_bytes k.seed
  write_u8 0
  write_u16_le k.server_capabilities
  write_u8 k.server_charset_index
  write_u16_le k.server_status
  write_u16_le (k.server_capabilities / 2 ^ 16)
  write_u8 (if has_plugin k then data_length k else 0)
  set_bytes (replicate 10 0)
  write_scramble k
  write_plugin k

unfoldable pub write : HandshakeV10Packet → Connection → ℕ → Bool → Prelude.Result (ℕ × Connection)
write k c offset flush = write_packet c offset (calc_payload_length k) flush offset (write_body k)

-- The second part of the scramble, filled up with zeros to 13 bytes.
unfoldable pub scramble_bytes : HandshakeV10Packet → Bytes
scramble_bytes k =
    if is_secure k
    then k.rest_of_scramble_buff ++ replicate (13 - length k.rest_of_scramble_buff) 0
    else []

unfoldable pub plugin_bytes : HandshakeV10Packet → Bytes
plugin_bytes k = if has_plugin k then k.auth_plugin_name ++ le_bytes 1 0 else []

abbrev pub payload : HandshakeV10Packet → Bytes
payload k =
    le_bytes 1 k.protocol_version
    ++ (k.server_version
        ++ (le_bytes 1 0
            ++ (le_bytes 4 k.thread_id
                ++ (k.seed
                    ++ (le_bytes 1 0
                        ++ (le_bytes 2 k.server_capabilities
                            ++ (le_bytes 1 k.server_charset_index
                                ++ (le_bytes 2 k.server_status
                                    ++ (le_bytes 2 (k.server_capabilities / 2 ^ 16)
                                        ++ (le_bytes 1 (if has_plugin k then data_length k else 0)
                                            ++ (replicate 10 0
                                                ++ (scramble_bytes k ++ plugin_bytes k))))))))))))

length-scramble_bytes :
    (k : HandshakeV10Packet)
    → length (scramble_bytes k) ≡ (
        if is_secure k
        then (if leb (length k.rest_of_scramble_buff) 13
            then 13
            else length k.rest_of_scramble_buff)
        else 0)
unfolding scramble_bytes
length-scramble_bytes k = elim (Bool-cases (is_secure k)) [
  | inl f ↦ rw f (
      ground (
        arith,
        length-append k.rest_of_scramble_buff (replicate (13 - length k.rest_of_scramble_buff) 0),
        length-replicate {A = ℕ} (13 - length k.rest_of_scramble_buff) 0,
      ))
  | inr f ↦ rw f refl
]

length-plugin_bytes :
    (k : HandshakeV10Packet)
    → length (plugin_bytes k) ≡ (if has_plugin k then length k.auth_plugin_name + 1 else 0)
unfolding plugin_bytes
length-plugin_bytes k = elim (Bool-cases (has_plugin k)) [
  | inl f ↦ rw f (omega (arith, length-append k.auth_plugin_name (0 ∷ [])))
  | inr f ↦ rw f refl
]

calc_payload_length-length : (k : HandshakeV10Packet) → calc_payload_length k ≡ length (payload k)
unfolding calc_payload_length
calc_payload_length-length k = omega (
  arith,
  length-append k.server_version _,
  length-append k.seed _,
  length-append (scramble_bytes k) (plugin_bytes k),
  length-scramble_bytes k,
  length-plugin_bytes k,
)

pad_suc-Emits : (n : ℕ) → Emits (write_u8 0 >> pad n) (0 ∷ replicate n 0)
unfolding pad
pad_suc-Emits zero = rw (>>-no_write (write_u8 0)) (write_u8-Emits 0)
pad_suc-Emits (suc n) = >>-Emits (write_u8-Emits 0) (pad_suc-Emits n)

>>-pad-Emits :
    (n : ℕ) {w : Writer} {xs : Bytes} → Emits w xs → Emits (w >> pad n) (xs ++ replicate n 0)
unfolding pad
>>-pad-Emits zero {w} {xs} e = rw (>>-no_write w, append-nil xs) e
>>-pad-Emits (suc n) e = >>-Emits e (pad_suc-Emits n)

padded-Emits :
    (rest : Bytes)
    → Emits
        (set_bytes rest >> (if ltb (length rest) 13 then pad (13 - length rest) else no_write))
        (rest ++ replicate (13 - length rest) 0)
padded-Emits rest = elim (Bool-cases (ltb (length rest) 13)) [
  | inl f ↦ rw f (>>-pad-Emits (13 - length rest) (set_bytes-Emits rest))
  | inr f ↦
      let none_left : 13 - length rest ≡ 0 = omega (tests, ltb-false→le _ _ f) in
      rw (f, none_left, >>-no_write (set_bytes rest), append-nil rest) (set_bytes-Emits rest)
]

plugin-Emits :
    (k : HandshakeV10Packet) {w : Writer} {xs : Bytes}
    → Emits w xs
    → Emits (w >> write_plugin k) (xs ++ plugin_bytes k)
unfolding write_plugin plugin_bytes
plugin-Emits k {w} {xs} e = elim (Bool-cases (has_plugin k)) [
  | inl f ↦ rw f (>>-Emits e (>>-Emits (set_bytes-Emits k.auth_plugin_name) (write_u8-Emits 0)))
  | inr f ↦ rw (f, >>-no_write w, append-nil xs) e
]

scramble-Emits :
    (k : HandshakeV10Packet) {w : Writer} {xs : Bytes}
    → Emits w xs
    → Emits (w >> write_scramble k >> write_plugin k) (xs ++ (scramble_bytes k ++ plugin_bytes k))
unfolding write_scramble scramble_bytes
scramble-Emits k {w} {xs} e = elim (Bool-cases (is_secure k)) [
  | inl f ↦ rw f (>>-Emits e (plugin-Emits k (padded-Emits k.rest_of_scramble_buff)))
  | inr f ↦ rw (f, no_write->> (write_plugin k)) (plugin-Emits k e)
]

-- The code writes the greeting of protocol 10 in a frame whose header announces its length, for
-- every combination of the two capabilities and every length of the scramble.
pub handshake_v10-Frames :
    (k : HandshakeV10Packet)
    → Frames k.sequence_id (payload k) (calc_payload_length k) (write_body k)
unfolding write_body
handshake_v10-Frames k = header-Frames (calc_payload_length-length k) (
    >>-Emits (write_u8-Emits k.protocol_version) (
      >>-Emits (set_bytes-Emits k.server_version) (
        >>-Emits (write_u8-Emits 0) (
          >>-Emits (write_u32_le-Emits k.thread_id) (
            >>-Emits (set_bytes-Emits k.seed) (
              >>-Emits (write_u8-Emits 0) (
                >>-Emits (write_u16_le-Emits k.server_capabilities) (
                  >>-Emits (write_u8-Emits k.server_charset_index) (
                    >>-Emits (write_u16_le-Emits k.server_status) (
                      >>-Emits (write_u16_le-Emits (k.server_capabilities / 2 ^ 16)) (
                        >>-Emits (write_u8-Emits (if has_plugin k then data_length k else 0))
                          (scramble-Emits k (set_bytes-Emits (replicate 10 0))))))))))))))

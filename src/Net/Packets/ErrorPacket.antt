-- ===== src/Net/Packets/ErrorPacket.antt =====
-- net/mysql/error-packet.js
use mycat_js.Prelude.{
  ℕ, suc, ◌+◌, ◌-◌, ◌*◌, ◌^◌, ◌/◌, ◌%◌, ◌≡◌, ◌<◌, ◌≤◌, List, [], ◌∷◌, ◌++◌, Option, none, some,
  length, length-append, pos, arith, refl, sym, ◌∙◌, ap, Bool, true, false, ltb, leb, if◌then◌else◌,
  replicate, length-replicate, zero, Bool-cases, inl, inr, ◌≢◌,
}
use mycat_js.Prelude
use mycat_js.Sql.Chars.{Text}
use mycat_js.Runtime.{Bytes, Writer, set_bytes, ◌>>◌, le_bytes, write_u8, write_u16_le}
use mycat_js.Runtime.Writing.{Emits, >>-Emits, set_bytes-Emits, write_u8-Emits, write_u16_le-Emits}
use mycat_js.Buffer.Helper.{write_u24_le}
use mycat_js.Net.Packets.{has_flag, no_write, client_protocol_41}
use mycat_js.Net.Packets.Framing.{header-Emits, no_write->>, >>-no_write}
use mathlib.Core.List.{append-nil}
use mycat_js.Net.Connection.{Connection, write_packet}

-- The state and the message are buffers or, from the table of errors, strings, which have their
-- UTF-16 units.
pub data Str : Type 0 where
  of_bytes : Bytes → Str
  of_text : Text → Str

-- `length` of either.
abbrev pub units : Str → ℕ
units (of_bytes b) = length b
units (of_text t) = length t

pub record ErrorPacket : Type 0 where
  pub sequence_id : ℕ
  pub field_count : ℕ
  pub errno : ℕ
  pub mark : ℕ
  pub sql_state : Str
  pub message : Option Str

abbrev pub mysql_errmsg_size : ℕ
mysql_errmsg_size = 512

-- The length of a message that the packet's length counts.
abbrev pub limited : Option Str → ℕ
limited none = 0
limited (some m) = if ltb mysql_errmsg_size (units m) then mysql_errmsg_size else units m

-- `caps` are the capabilities of the connection.
unfoldable pub calc_payload_length : ℕ → ErrorPacket → ℕ
calc_payload_length caps k =
    3 + (if has_flag caps client_protocol_41 then 6 else 0) + limited k.message

-- `set_text` is how `buffer.set` writes a string, and `encode` gives the bytes that it writes.
module _ (set_text : Text → Writer) where
  abbrev pub set_str : Str → Writer
  set_str (of_bytes b) = set_bytes b
  set_str (of_text t) = set_text t

  -- An empty string is no message.
  abbrev pub set_message : Option Str → Writer
  set_message none = no_write
  set_message (some (of_text [])) = no_write
  set_message (some (of_text (u ∷ t))) = set_text (u ∷ t)
  set_message (some (of_bytes b)) = set_bytes b

  -- The code works out a shorter length for a long message, but `set` takes the whole message.
  unfoldable pub write_body : ℕ → ErrorPacket → Writer
  write_body caps k = do
    write_u24_le (calc_payload_length caps k)
    write_u8 k.sequence_id
    write_u8 k.field_count
    write_u16_le k.errno
    if has_flag caps client_protocol_41 then (write_u8 k.mark >> set_str k.sql_state) else no_write
    set_message k.message

  unfoldable pub write : ErrorPacket → Connection → ℕ → Bool → Prelude.Result (ℕ × Connection)
  write k c offset flush =
      write_packet c offset (calc_payload_length c.capabilities k) flush offset
        (write_body c.capabilities k)

module _ (encode : Text → Bytes) where
  abbrev pub bytes_of : Str → Bytes
  bytes_of (of_bytes b) = b
  bytes_of (of_text t) = encode t

  abbrev pub message_bytes : Option Str → Bytes
  message_bytes none = []
  message_bytes (some (of_text [])) = []
  message_bytes (some (of_text (u ∷ t))) = encode (u ∷ t)
  message_bytes (some (of_bytes b)) = b

  -- The state stands only in the packets of protocol 4.1.
  abbrev pub state_bytes : ℕ → ErrorPacket → Bytes
  state_bytes caps k =
      if has_flag caps client_protocol_41 then le_bytes 1 k.mark ++ bytes_of k.sql_state else []

  abbrev pub payload : ℕ → ErrorPacket → Bytes
  payload caps k =
      le_bytes 1 k.field_count
      ++ (le_bytes 2 k.errno ++ (state_bytes caps k ++ message_bytes k.message))

-- What the packet has as a string is written with a byte for each unit.
abbrev pub IsSingle : (Text → Bytes) → Str → Type 0
IsSingle encode s = length (bytes_of encode s) ≡ units s

module _ {set_text : Text → Writer} {encode : Text → Bytes}
    (writes : (t : Text) → Emits (set_text t) (encode t)) where
  set_str-Emits : (s : Str) → Emits (set_str set_text s) (bytes_of encode s)
  set_str-Emits (of_bytes b) = set_bytes-Emits b
  set_str-Emits (of_text t) = writes t

  message-Emits :
      (m : Option Str) {w : Writer} {xs : Bytes}
      → Emits w xs
      → Emits (w >> set_message set_text m) (xs ++ message_bytes encode m)
  message-Emits none {w} {xs} e = rw (>>-no_write w, append-nil xs) e
  message-Emits (some (of_text [])) {w} {xs} e = rw (>>-no_write w, append-nil xs) e
  message-Emits (some (of_text (u ∷ t))) e = >>-Emits e (writes (u ∷ t))
  message-Emits (some (of_bytes b)) e = >>-Emits e (set_bytes-Emits b)

  state-Emits :
      (caps : ℕ) (k : ErrorPacket) {w : Writer} {xs : Bytes}
      → Emits w xs
      → Emits
          (w
            >> (if has_flag caps client_protocol_41
                then (write_u8 k.mark >> set_str set_text k.sql_state)
                else no_write)
            >> set_message set_text k.message)
          (xs ++ (state_bytes encode caps k ++ message_bytes encode k.message))
  state-Emits caps k {w} e = elim (Bool-cases (has_flag caps client_protocol_41)) [
    | inl f ↦ rw f (
        >>-Emits e
          (message-Emits k.message (>>-Emits (write_u8-Emits k.mark) (set_str-Emits k.sql_state))))
    | inr f ↦ rw (f, no_write->> (set_message set_text k.message)) (message-Emits k.message e)
  ]

  pub write_body-Emits :
      (caps : ℕ) (k : ErrorPacket)
      → Emits
          (write_body set_text caps k)
          (le_bytes 3 (calc_payload_length caps k) ++ (k.sequence_id % 256 ∷ payload encode caps k))
  unfolding write_body
  write_body-Emits caps k =
      header-Emits k.sequence_id _
        (>>-Emits (write_u8-Emits k.field_count) (state-Emits caps k (write_u16_le-Emits k.errno)))

message_size :
    (encode : Text → Bytes) (message : Option Str)
    → ((m : Str) → message ≡ some m → IsSingle encode m)
    → length (message_bytes encode message)
      ≡ limited message + (length (message_bytes encode message) - mysql_errmsg_size)
message_size encode none h = omega arith
message_size encode (some (of_text [])) h = omega arith
message_size encode (some (of_text (u ∷ t))) h =
    let single : length (encode (u ∷ t)) ≡ length (u ∷ t) = h (of_text (u ∷ t)) refl in
    ground (arith, single)
message_size encode (some (of_bytes b)) h = ground arith

-- With a state of 5 bytes and a message that is written with a byte for each of its units, if it
-- is a string, the code writes the packet's whole payload behind a header whose length leaves out
-- what the message has above 512 bytes. The parameters are how `buffer.set` writes a string and
-- the bytes that this gives.
pub write_body-announced :
    {set_text : Text → Writer} {encode : Text → Bytes} (caps : ℕ) (k : ErrorPacket)
    → ((t : Text) → Emits (set_text t) (encode t))
    → length (bytes_of encode k.sql_state) ≡ 5
    → ((m : Str) → k.message ≡ some m → IsSingle encode m)
    → (announced : ℕ) × Emits
        (write_body set_text caps k)
        (le_bytes 3 announced ++ (k.sequence_id % 256 ∷ payload encode caps k))
      × (length (payload encode caps k)
          ≡ announced + (length (message_bytes encode k.message) - mysql_errmsg_size))
unfolding calc_payload_length
write_body-announced {encode} caps k writes state single =
    (calc_payload_length caps k, write_body-Emits writes caps k, size)
  where
    size :
        length (payload encode caps k)
        ≡ calc_payload_length caps k + (length (message_bytes encode k.message) - mysql_errmsg_size)
    size = elim (Bool-cases (has_flag caps client_protocol_41)) [
      | inl f ↦ rw f (
          omega (
            arith,
            message_size encode k.message single,
            length-append (bytes_of encode k.sql_state) (message_bytes encode k.message),
          ))
      | inr f ↦ rw f (omega (arith, message_size encode k.message single))
    ]

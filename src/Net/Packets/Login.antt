-- ===== src/Net/Packets/Login.antt =====
-- net/mysql/auth-packet.js, the packet by which a client logs in. Strings are bytes that are not
-- decoded. Which charset indexes have an encoding is a parameter.
use mycat_js.Prelude.{
  ℕ, Bool, [], Option, none, some, if◌then◌else◌, Error, reference_error, Result, ok, err, ◌>>=◌,
}
use mycat_js.Runtime.{Bytes, Platform}
use mycat_js.Net.Message.{
  Message, Chunk, message, has_remaining, skip, read_u8, read_u24, read_u32, read_bytes_with_length,
  read_string_with_null,
}
use mycat_js.Net.Packets.{
  has_flag, client_connect_with_db, client_multi_statements, client_plugin_auth,
}

pub record AuthPacket : Type 0 where
  pub payload_length : ℕ
  pub sequence_id : ℕ
  pub client_flags : ℕ
  pub max_packet_size : ℕ
  pub charset_index : ℕ
  pub user : Option Bytes
  pub password : Option Chunk
  pub database : Bytes
  pub allow_multi_statements : Bool
  pub client_auth_plugin : Option Bytes

abbrev pub er_unknown_character_set : ℕ
er_unknown_character_set = 1115

-- How `read` ends: with the packet, or by a throw, before which it may have sent an error packet of
-- a sequence number and an error number.
pub data ReadEnd : Type 0 where
  read_ok : AuthPacket → ReadEnd
  read_throws : Error → ReadEnd
  sends_and_throws : ℕ → ℕ → Error → ReadEnd

abbrev or_empty : Option Bytes → Bytes
or_empty none = []
or_empty (some db) = db

module _ (rt : Platform) where
  -- The fields that every client sends.
  unfoldable pub read_fields : Bytes → ℕ → Result (AuthPacket × Message)
  read_fields buffer length =
      let (payload_length, m1) = read_u24 (message buffer (some length)) in
      read_u8 m1 >>= λ (sequence_id, m2). read_u32 m2 >>= λ (client_flags, m3).
      read_u32 m3 >>= λ (max_packet_size, m4). read_u8 m4 >>= λ (charset_index, m5).
      let (user, m6) = read_string_with_null rt (skip m5 23) in
      read_bytes_with_length rt m6 >>= λ (password, m7). ok (
        record {
          payload_length = payload_length;
          sequence_id = sequence_id;
          client_flags = client_flags;
          max_packet_size = max_packet_size;
          charset_index = charset_index;
          user = user;
          password = password;
          database = [];
          allow_multi_statements = has_flag client_flags client_multi_statements;
          client_auth_plugin = some [];
        },
        m7,
      )

  unfoldable pub read_database : AuthPacket → Message → AuthPacket × Message
  read_database k m =
      if has_remaining m
      then (let (db, m') = read_string_with_null rt m in (record k { database = or_empty db }, m'))
      else (k, m)

  unfoldable pub read_plugin : AuthPacket → Message → AuthPacket
  read_plugin k m =
      if has_flag k.client_flags client_plugin_auth
      then record k { client_auth_plugin = (read_string_with_null rt m).0 }
      else k

  -- For a charset without an encoding, the returned object takes `message`, which is no variable.
  unfoldable pub read_options : (ℕ → Bool) → AuthPacket → Message → ReadEnd
  read_options encodes k m =
      if has_flag k.client_flags client_connect_with_db
      then (if encodes k.charset_index
          then (let (k', m') = read_database k m in read_ok (read_plugin k' m'))
          else sends_and_throws 2 er_unknown_character_set reference_error)
      else read_ok (read_plugin k m)

  read_behind : (ℕ → Bool) → Result (AuthPacket × Message) → ReadEnd
  unfolding read_options
  read_behind encodes (err e) = read_throws e
  read_behind encodes (ok (k, m)) = read_options encodes k m

  unfoldable pub read : (ℕ → Bool) → Bytes → ℕ → ReadEnd
  unfolding read_behind read_fields
  read encodes buffer length = read_behind encodes (read_fields buffer length)

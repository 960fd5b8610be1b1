-- ===== src/Tests/Packets.antt =====
-- The packets and the frames, at concrete inputs.
use mycat_js.Prelude.{
  ltb, ◌++◌, ◌%◌, map, ℕ, ◌+◌, ◌≡◌, refl, [], ◌∷◌, true, false, none, some, ok, arith, replicate,
  length,
}
use mathlib.Core.Option.{some-injective}
use mycat_js.Tests.Pools.{runtime, runtime-IsPlatform}
use mycat_js.Runtime.Writing.{Emits, set_bytes-Emits}
use mycat_js.Sql.Chars.{Text}
use mycat_js.Runtime.{set_bytes, le_bytes, Bytes, resize_bytes}
use mycat_js.Buffer.Pool.{resize}
use mycat_js.Net.Message.{Message, message}
use mycat_js.Net.Connection.{Connection, on_wire, ensure_write_buffer}
use mycat_js.Net.Connection.Sending.{write_packet-sends}
use mycat_js.Net.Packets.{frame}
use mycat_js.Net.Packets.Framing.{Frames}
use mycat_js.Net.Packets.Ok
use mycat_js.Net.Packets.Eof
use mycat_js.Net.Packets.ErrorPacket
use mycat_js.Net.Packets.ResultSetHeader
use mycat_js.Net.Packets.Field
use mycat_js.Net.Packets.Handshake
use mycat_js.Net.Packets.HandshakeV10
use mycat_js.Net.Packets.AuthSwitch

abbrev name : Bytes
name = 114 ∷ 111 ∷ 111 ∷ 116 ∷ []

abbrev an_ok : Ok.OkPacket
an_ok = record {
  sequence_id = 1;
  field_count = 0;
  affected_rows = 300;
  insert_id = 7;
  server_status = 2;
  warning_count = 0;
  message = some name;
}

ok_packet-Frames_example :
    Frames 1 (Ok.payload an_ok) (Ok.calc_payload_length an_ok) (Ok.write_body runtime an_ok)
ok_packet-Frames_example =
    Ok.ok_packet-Frames runtime an_ok runtime-IsPlatform
      (record { rows_small = omega arith; id_small = omega arith; message_small = omega arith })

abbrev an_eof : Eof.EofPacket
an_eof = record { sequence_id = 5; field_count = 254; warning_count = 0; status = 2 }

abbrev an_error : Text → ErrorPacket.ErrorPacket
an_error text = record {
  sequence_id = 2;
  field_count = 255;
  errno = 1045;
  mark = 35;
  sql_state = ErrorPacket.of_text (50 ∷ 56 ∷ 48 ∷ 48 ∷ 48 ∷ []);
  message = some (ErrorPacket.of_text text);
}

-- A string is written with a byte for each unit.
abbrev encode_units : Text → Bytes
encode_units t = map (λ u. u % 256) t

-- A message of 600 units is announced 88 bytes too short.
write_body-announced_example :
    (announced : ℕ) × Emits
      (ErrorPacket.write_body (λ t. set_bytes (encode_units t)) 512 (an_error (replicate 600 120)))
      (le_bytes 3 announced
        ++ (2 ∷ ErrorPacket.payload encode_units 512 (an_error (replicate 600 120))))
    × (length (ErrorPacket.payload encode_units 512 (an_error (replicate 600 120)))
        ≡ announced + 88)
write_body-announced_example =
    ErrorPacket.write_body-announced 512 (an_error (replicate 600 120))
      (λ t. set_bytes-Emits (encode_units t)) refl single
  where
    single :
        (m : ErrorPacket.Str)
        → some (ErrorPacket.of_text (replicate 600 120)) ≡ some m
        → ErrorPacket.IsSingle encode_units m
    single m e = rw (← some-injective _ _ e) refl

abbrev a_header : ResultSetHeader.ResultSetHeaderPacket
a_header = record { sequence_id = 1; field_count = 3; extra = 260 }

abbrev a_field : Field.FieldPacket
a_field = record {
  sequence_id = 2;
  catalog = none;
  db = some name;
  table = some name;
  org_table = none;
  name = some name;
  org_name = some [];
  charset_index = 33;
  length = 256;
  type = 253;
  flags = 1;
  decimals = 0;
  definition = some name;
}

field_packet-Frames_example :
    Frames 2
      (Field.payload a_field)
      (Field.calc_payload_length a_field)
      (Field.write_body runtime a_field)
field_packet-Frames_example = Field.field_packet-Frames runtime a_field runtime-IsPlatform (record {
  catalog_small = tt;
  db_small = omega arith;
  table_small = omega arith;
  org_table_small = tt;
  name_small = omega arith;
  org_name_small = omega arith;
  definition_small = omega arith;
})

abbrev a_handshake : Handshake.HandshakePacket
a_handshake = record {
  sequence_id = 0;
  protocol_version = 10;
  server_version = 53 ∷ 46 ∷ 54 ∷ [];
  thread_id = 9;
  seed = 1 ∷ 2 ∷ 3 ∷ 4 ∷ 5 ∷ 6 ∷ 7 ∷ 8 ∷ [];
  server_capabilities = 33280;
  server_charset_index = 33;
  server_status = 2;
  rest_of_scramble_buff = replicate 12 65;
}

abbrev a_greeting : HandshakeV10.HandshakeV10Packet
a_greeting = record {
  sequence_id = 0;
  protocol_version = 10;
  server_version = 53 ∷ 46 ∷ 54 ∷ [];
  thread_id = 9;
  seed = 1 ∷ 2 ∷ 3 ∷ 4 ∷ 5 ∷ 6 ∷ 7 ∷ 8 ∷ [];
  server_capabilities = 557568;
  server_charset_index = 33;
  server_status = 2;
  rest_of_scramble_buff = replicate 12 65;
  auth_plugin_name = name;
}

handshake_v10-Frames_example :
    Frames 0
      (HandshakeV10.payload a_greeting)
      (HandshakeV10.calc_payload_length a_greeting)
      (HandshakeV10.write_body a_greeting)
handshake_v10-Frames_example = HandshakeV10.handshake_v10-Frames a_greeting

abbrev a_switch : AuthSwitch.AuthSwitchPacket
a_switch = record {
  payload_length = 0;
  sequence_id = 2;
  plugin_name = name;
  auth_data = replicate 20 66;
}

abbrev a_message : Message
a_message = message (9 ∷ frame 3 name) none

-- A connection whose buffer is too short for the packet.
abbrev a_connection : Bytes → Connection
a_connection buffer = record {
  write_buffer = buffer;
  marked = false;
  pool = record { chunk_size = 8; page_size = 16; page_count = 2; total_size = 32; allocated = 0 };
  packet_header_size = 4;
  capabilities = 512;
  compress = none;
  socket = [];
  write_fails = λ b. ltb 20 (length b);
  flush_fails = false;
  out_bytes = 10;
}

abbrev earlier : Bytes
earlier = 1 ∷ 2 ∷ 3 ∷ []

write_packet-sends_example :
    (w : Connection) × (Eof.write an_eof (a_connection earlier) 3 true ≡ ok (0, w))
    × (w.socket ≡ (earlier ++ frame 5 (Eof.payload an_eof)) ∷ [])
    × (w.out_bytes ≡ 22)
unfolding Eof.write Eof.calc_payload_length ensure_write_buffer resize on_wire resize_bytes
write_packet-sends_example =
    write_packet-sends (a_connection earlier) (a_connection (resize_bytes earlier 12)) 0 3 5
      (Eof.eof_packet-Frames an_eof).writes refl (omega arith) refl

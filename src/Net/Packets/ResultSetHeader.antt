-- ===== src/Net/Packets/ResultSetHeader.antt =====
-- net/mysql/result-set-header-packet.js
use mycat_js.Prelude.{
  ℕ, suc, ◌+◌, ◌-◌, ◌*◌, ◌^◌, ◌/◌, ◌%◌, ◌≡◌, ◌<◌, ◌≤◌, List, [], ◌∷◌, ◌++◌, Option, none, some,
  length, length-append, pos, arith, refl, sym, ◌∙◌, ap, Bool, true, false, ltb, leb, if◌then◌else◌,
  replicate, length-replicate, zero, Bool-cases, inl, inr, ◌≢◌,
}
use mycat_js.Prelude
use mathlib.Core.List.{append-nil}
use mycat_js.Runtime.{Bytes, Writer, ◌>>◌, write_u8, Platform, IsPlatform}
use mycat_js.Runtime.Writing.{Emits, >>-Emits}
use mycat_js.Buffer.Helper.{write_u24_le}
use mycat_js.Net.Message.{length_encoded_of, write_length_encoded}
use mycat_js.Net.Message.Lengths.{
  length_encoding, length-length_encoding, write_length_encoded-Emits,
}
use mycat_js.Net.Packets.{no_write}
use mycat_js.Net.Packets.Framing.{Frames, header-Frames, >>-no_write}
use mycat_js.Net.Connection.{Connection, write_packet}

pub record ResultSetHeaderPacket : Type 0 where
  pub sequence_id : ℕ
  pub field_count : ℕ
  pub extra : ℕ

unfoldable pub calc_payload_length : ResultSetHeaderPacket → ℕ
calc_payload_length k =
    length_encoded_of (pos k.field_count)
    + (if ltb 0 k.extra then length_encoded_of (pos k.extra) else 0)

unfoldable pub write_body : Platform → ResultSetHeaderPacket → Writer
write_body rt k = do
  write_u24_le (calc_payload_length k)
  write_u8 k.sequence_id
  write_length_encoded rt (pos k.field_count)
  if ltb 0 k.extra then write_length_encoded rt (pos k.extra) else no_write

unfoldable pub write :
    Platform → ResultSetHeaderPacket → Connection → ℕ → Bool → Prelude.Result (ℕ × Connection)
write rt k c offset flush = write_packet c offset (calc_payload_length k) flush 0 (write_body rt k)

abbrev pub payload : ResultSetHeaderPacket → Bytes
payload k = length_encoding k.field_count ++ (if ltb 0 k.extra then length_encoding k.extra else [])

extra-Emits :
    (rt : Platform) (k : ResultSetHeaderPacket) {w : Writer} {xs : Bytes}
    → IsPlatform rt
    → k.extra < 2 ^ 63
    → Emits w xs
    → Emits
        (w >> (if ltb 0 k.extra then write_length_encoded rt (pos k.extra) else no_write))
        (xs ++ (if ltb 0 k.extra then length_encoding k.extra else []))
extra-Emits rt k {w} {xs} law small e = elim (Bool-cases (ltb 0 k.extra)) [
  | inl f ↦ rw f (>>-Emits e (write_length_encoded-Emits rt k.extra law small))
  | inr f ↦ rw (f, >>-no_write w, append-nil xs) e
]

calc_payload_length-length :
    (k : ResultSetHeaderPacket) → calc_payload_length k ≡ length (payload k)
unfolding calc_payload_length
calc_payload_length-length k = elim (Bool-cases (ltb 0 k.extra)) [
  | inl f ↦ rw f (omega (arith, length-append {0}, length-length_encoding))
  | inr f ↦ rw f (omega (arith, length-append {0}, length-length_encoding))
]

-- The code writes the field count, and the extra number where it is above 0, in a frame whose
-- header announces their length, where both are below 2 ^ 63 and the platform's byte order is the
-- protocol's.
pub result_set_header-Frames :
    (rt : Platform) (k : ResultSetHeaderPacket)
    → IsPlatform rt
    → k.field_count < 2 ^ 63
    → k.extra < 2 ^ 63
    → Frames k.sequence_id (payload k) (calc_payload_length k) (write_body rt k)
unfolding write_body
result_set_header-Frames rt k law small extra_small =
    header-Frames (calc_payload_length-length k)
      (extra-Emits rt k law extra_small (write_length_encoded-Emits rt k.field_count law small))

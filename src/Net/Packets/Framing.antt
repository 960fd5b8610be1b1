-- ===== src/Net/Packets/Framing.antt =====
-- What it is for a packet's code to write a frame, and how a reader takes the header.
use mycat_js.Prelude.{
  ℕ, ◌+◌, ◌%◌, ◌≡◌, ◌<◌, ◌∙◌, refl, fun_ext, [], ◌∷◌, ◌++◌, length, ok, >>=-ok, arith, Option, none,
  some, get_elem?,
}
use mycat_js.Runtime.{Bytes, Writer, set_bytes, ◌>>◌, le_bytes, write_u8, Platform, IsPlatform}
use mycat_js.Runtime.Writing.{Emits, >>-Emits, set_bytes-Emits, write_u8-Emits}
use mycat_js.Runtime.Reading.{Holds, Holds-append_left, Holds-append_right, read_u8-Holds}
use mycat_js.Buffer.Helper.{write_u24_le, write_u24_le-set_bytes, read_u24_le-Holds}
use mycat_js.Net.Message.Strings.{counted, length-counted, write_bytes_with_length-Emits}
use mycat_js.Net.Message.{buffer_length, write_bytes_with_length, Message, read_u24, read_u8}
use mycat_js.Net.Packets.{
  no_write, frame, write_if_some, bytes_if_some, length_if_some, IsSmallField,
}
use mathlib.Core.List.{append-nil}

-- The code writes the payload in its frame, and announces the payload's length.
pub record Frames (seq : ℕ) (payload : Bytes) (announced : ℕ) (body : Writer) : Type 0 where
  pub announces : announced ≡ length payload
  pub writes : Emits body (frame seq payload)

pub >>-no_write : (w : Writer) → (w >> no_write) ≡ w
unfolding ◌>>◌
>>-no_write w = fun_ext λ b. fun_ext λ p. >>=-ok (w b p)

-- The header's writes in front of code that writes the payload, with the length announced.
pub header-Emits :
    (seq announced : ℕ) {payload : Bytes} {rest : Writer}
    → Emits rest payload
    → Emits
        (write_u24_le announced >> write_u8 seq >> rest)
        (le_bytes 3 announced ++ (seq % 256 ∷ payload))
header-Emits seq announced w =
    >>-Emits (record { emits = write_u24_le-set_bytes announced }) (>>-Emits (write_u8-Emits seq) w)

pub header-Frames :
    {seq : ℕ} {payload : Bytes} {announced : ℕ} {rest : Writer}
    → announced ≡ length payload
    → Emits rest payload
    → Frames seq payload announced (write_u24_le announced >> write_u8 seq >> rest)
header-Frames {seq} {payload} {announced} {rest} e w = record {
  announces = e;
  writes = rw e (header-Emits seq (length payload) w);
}

-- The write of a last field that stands there as it is.
pub >>-Emits_plain :
    (m : Option Bytes) {w : Writer} {xs : Bytes}
    → Emits w xs
    → Emits (w >> write_if_some m set_bytes) (xs ++ bytes_if_some m (λ s. s))
>>-Emits_plain none {w} {xs} e = rw (>>-no_write w, append-nil xs) e
>>-Emits_plain (some s) e = >>-Emits e (set_bytes-Emits s)

pub no_write->> : (w : Writer) → (no_write >> w) ≡ w
unfolding ◌>>◌
no_write->> w = refl

-- The write of a last length-encoded field that a packet may lack.
pub >>-Emits_counted :
    (rt : Platform) (m : Option Bytes) {w : Writer} {xs : Bytes}
    → IsPlatform rt
    → IsSmallField m
    → Emits w xs
    → Emits
        (w >> write_if_some m (λ s. write_bytes_with_length rt 0 (some s)))
        (xs ++ bytes_if_some m counted)
>>-Emits_counted rt none {w} {xs} law small e = rw (>>-no_write w, append-nil xs) e
>>-Emits_counted rt (some s) law small e =
    >>-Emits e (write_bytes_with_length-Emits rt 0 s law small)

pub length-bytes_if_some :
    (m : Option Bytes) → length (bytes_if_some m counted) ≡ length_if_some m buffer_length 0
length-bytes_if_some none = refl
length-bytes_if_some (some s) = length-counted s

pub length-frame : (seq : ℕ) (payload : Bytes) → length (frame seq payload) ≡ 4 + length payload
length-frame seq payload = omega arith

read_u8-get :
    (m : Message) (x : ℕ)
    → get_elem? m.bytes m.position ≡ some x
    → read_u8 m ≡ ok (x, record m { position = m.position + 1 })
unfolding read_u8
read_u8-get m x h = rw (read_u8-Holds m.bytes m.position x h)

-- Where a frame stands at the cursor, of a payload below 2 ^ 24 bytes and with a sequence number
-- below 256, a reader takes the payload's length and the sequence number out of it, and stands in
-- front of the payload.
pub frame_header :
    (m : Message) (seq : ℕ) (payload : Bytes)
    → length payload < 0x1000000
    → seq < 256
    → Holds m.bytes m.position (frame seq payload)
    → let (announced, m1) = read_u24 m in
      (announced ≡ length payload)
      × (read_u8 m1 ≡ ok (seq, record m { position = m.position + 4 }))
      × Holds m.bytes (m.position + 4) payload
unfolding read_u24
frame_header m seq payload small byte h = (
  read_u24_le-Holds m.bytes m.position (length payload) small
      (Holds-append_left m.bytes m.position (le_bytes 3 (length payload)) (seq % 256 ∷ payload) h),
  sequence,
  Holds-append_right m.bytes m.position (m.position + 4)
      (le_bytes 3 (length payload) ++ (seq % 256 ∷ [])) payload (omega arith) h,
)
  where
    after_length : Holds m.bytes (m.position + 3) (seq % 256 ∷ payload)
    after_length =
        Holds-append_right m.bytes m.position (m.position + 3) (le_bytes 3 (length payload))
          (seq % 256 ∷ payload) (omega arith) h

    sequence : read_u8 (read_u24 m).1 ≡ ok (seq, record m { position = m.position + 4 })
    sequence =
        read_u8-get (record m { position = m.position + 3 }) (seq % 256) after_length.0
        ∙ ground arith

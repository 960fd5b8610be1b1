-- ===== src/Frontend/ReadHandler.antt =====
-- readUnCompressed of frontend/handler/front-read-handler.js. The socket is a parameter, and its
-- state is `S`.
pub mod Frames
pub mod Ends
use mycat_js.Prelude.{
  ℕ, zero, suc, ◌+◌, ◌≡◌, ◌<◌, Bool, List, [], ◌∷◌, ◌++◌, Option, none, some, length, ltb, ◌==◌,
  if◌then◌else◌, Error, net_error, Result, ok, err,
}
use mycat_js.Runtime.{Bytes}
use mycat_js.Buffer.Helper.{read_u24_le}

-- `socket.read`: bytes, or `none` where the peer closed the connection.
pub record Socket (S : Type 0) : Type 0 where
  pub read : S → ℕ → Result (Option (Bytes × S))

-- A read of some bytes that the peer sent gives those bytes.
pub record IsSocket {S : Type 0} (k : Socket S) (pending : S → Bytes) : Type 0 where
  pub read_exact :
      (s : S) (xs ys : Bytes)
      → 0 < length xs
      → pending s ≡ xs ++ ys
      → (t : S) × (k.read s (length xs) ≡ ok (some (xs, t))) × (pending t ≡ ys)

pub record Source (S : Type 0) : Type 0 where
  pub socket : S
  pub header_size : ℕ
  pub max_allowed_packet : ℕ
  -- The counter of ConnManager.
  pub in_bytes : ℕ

abbrev pub max_packet_len : ℕ
max_packet_len = 16777215

-- How the function ends: with a packet and its length; behind `sendError` and `close` for a packet
-- over the limit, where it returns undefined; or with an error.
pub data Ended : Type 0 where
  packet : Option Bytes → ℕ → Ended
  too_large : Ended
  failed : Error → Ended

-- The variables `buffer`, `length` and `packetLength` of the loop.
pub record Vars : Type 0 where
  pub buffer : Option Bytes
  pub length : ℕ
  pub packet_length : ℕ

-- What a round of the loop leaves.
pub data Round (S : Type 0) : Type 0 where
  ended : Ended → Source S → Round S
  again : Vars → Source S → Round S

-- What becomes of the outcome of a read.
unfoldable pub received :
    {S : Type 0} → Source S → Result (Option (Bytes × S)) → Result (Bytes × Source S)
received s (err e) = err net_error
received s (ok none) = err net_error
received s (ok (some (bytes, t))) =
    ok (bytes, record s { socket = t; in_bytes = s.in_bytes + length bytes })

-- The variables behind a payload of the length `n`.
unfoldable pub joined : ℕ → Vars → Bytes → ℕ → Bytes → Vars
joined header_size v head n payload = elim v.buffer [
  | some b ↦ record {
    buffer = some (b ++ payload);
    length = v.length + n;
    packet_length = v.packet_length + n;
  }
  | none ↦ record {
    buffer = some (head ++ payload);
    length = v.length + header_size + n;
    packet_length = v.packet_length + n;
  }
]

unfoldable pub behind_payload :
    {S : Type 0} → Source S → Vars → Bytes → ℕ → Result (Bytes × Source S) → Round S
behind_payload s v head n (err e) = ended (failed e) s
behind_payload s v head n (ok (payload, t)) =
    let w = joined s.header_size v head n payload in
    if n == max_packet_len then again w t else ended (packet w.buffer w.length) t

module _ {S : Type 0} (k : Socket S) where
  unfoldable pub read_payload : Source S → Vars → Bytes → Round S
  read_payload s v head =
      let n = read_u24_le head 0 in
      if ltb s.max_allowed_packet (v.packet_length + n)
      then ended too_large s
      else behind_payload s v head n (received s (k.read s.socket n))

  unfoldable pub behind_header : Source S → Vars → Result (Bytes × Source S) → Round S
  behind_header s v (err e) = ended (failed e) s
  behind_header s v (ok (head, t)) = read_payload t v head

  unfoldable pub round : Source S → Vars → Round S
  round s v = behind_header s v (received s (k.read s.socket s.header_size))

  unfoldable pub rounds : ℕ → Source S → Vars → Option (Ended × Source S)
  rounds zero s v = none
  rounds (suc fuel) s v = elim (round s v) [ ended e t ↦ some (e, t) | again w t ↦ rounds fuel t w ]

  -- Each round that goes on adds to `packetLength`, which the limit bounds.
  unfoldable pub read_uncompressed : Source S → Option (Ended × Source S)
  read_uncompressed s =
      rounds (s.max_allowed_packet + 1) s (record { buffer = none; length = 0; packet_length = 0 })

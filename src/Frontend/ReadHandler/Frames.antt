-- ===== src/Frontend/ReadHandler/Frames.antt =====
-- readUnCompressed of frontend/handler/front-read-handler.js puts a payload together again that the
-- client sent in frames.
use mycat_js.Prelude.{
  ℕ, zero, suc, ◌+◌, ◌≡◌, ◌≤◌, ◌<◌, true, false, List, [], ◌∷◌, ◌++◌, Option, none, some, length,
  ltb, ◌==◌, if◌then◌else◌, ok, arith, refl, ap, ◌∙◌, ◌%◌, length-append,
}
use mathlib.Core.List.{append_assoc}
use mycat_js.Runtime.{Bytes, le_bytes}
use mycat_js.Buffer.Helper.{read_u24_le, read_u24_le-Holds}
use mycat_js.Net.Packets.{frame}
use mycat_js.Frontend.ReadHandler.{
  Socket, IsSocket, Source, max_packet_len, Ended, packet, Vars, Round, ended, again, received,
  joined, behind_payload, read_payload, behind_header, round, rounds, read_uncompressed,
}

abbrev pub head_of : ℕ → Bytes → Bytes
head_of seq p = le_bytes 3 (length p) ++ seq % 256 ∷ []

head_of-read :
    (seq : ℕ) (p : Bytes) → length p < 16777216 → read_u24_le (head_of seq p) 0 ≡ length p
head_of-read seq p h = read_u24_le-Holds (head_of seq p) 0 (length p) h (refl, (refl, (refl, tt)))

-- What the client sends: the full payloads `ps`, and the last one, each in its frame.
abbrev pub wire : ℕ → List Bytes → Bytes → Bytes
wire seq [] last = frame seq last
wire seq (p ∷ ps) last = frame seq p ++ wire (suc seq) ps last

abbrev pub all_of : List Bytes → Bytes → Bytes
all_of [] last = last
all_of (p ∷ ps) last = p ++ all_of ps last

abbrev pub first_of : List Bytes → Bytes → Bytes
first_of [] last = last
first_of (p ∷ ps) last = p

abbrev pub AreFull : List Bytes → Type 0
AreFull [] = Unit {0}
AreFull (p ∷ ps) = (length p ≡ max_packet_len) × AreFull ps

abbrev vars : Option Bytes → ℕ → ℕ → Vars
vars b l n = record { buffer = b; length = l; packet_length = n }

abbrev base : Option Bytes → Bytes → Bytes
base none head = head
base (some b) head = b

abbrev base_length : Option Bytes → ℕ → ℕ → ℕ
base_length none l h = l + h
base_length (some b) l h = l

joined-base :
    (h : ℕ) (b : Option Bytes) (l n : ℕ) (head p : Bytes)
    → joined h (vars b l n) head (length p) p
      ≡ vars (some (base b head ++ p)) (base_length b l h + length p) (n + length p)
unfolding joined
joined-base h none l n head p = refl
joined-base h (some b) l n head p = refl

module _ {S : Type 0} (k : Socket S) (pending : S → Bytes) (law : IsSocket k pending) where
  -- The source behind a frame, at a state of the socket.
  abbrev past_frame : Source S → Bytes → S → Source S
  past_frame s p t = record s { socket = t; in_bytes = s.in_bytes + 4 + length p }

  -- The round behind the header and the payload `p`.
  abbrev behind_frame : Source S → Vars → ℕ → Bytes → S → Round S
  behind_frame s v seq p t =
      let w = joined s.header_size v (head_of seq p) (length p) p in
      if length p == max_packet_len
      then again w (past_frame s p t)
      else ended (packet w.buffer w.length) (past_frame s p t)

  payload-frame :
      (s : Source S) (v : Vars) (seq : ℕ) (p rest : Bytes)
      → pending s.socket ≡ p ++ rest
      → 0 < length p
      → length p < 16777216
      → v.packet_length + length p ≤ s.max_allowed_packet
      → (t : S) × (read_payload k s v (head_of seq p)
          ≡ behind_payload s v (head_of seq p) (length p) (received s (ok (some (p, t)))))
        × (pending t ≡ rest)
  unfolding read_payload
  payload-frame s v seq p rest h pos small l =
      let (t, g, i) = law.read_exact s.socket p rest pos h in
      let within : ltb s.max_allowed_packet (v.packet_length + length p) ≡ false = ground arith in
      (t, rw (head_of-read seq p small, within, g) refl, i)

  round-frame :
      (s : Source S) (v : Vars) (seq : ℕ) (p rest : Bytes)
      → s.header_size ≡ 4
      → pending s.socket ≡ frame seq p ++ rest
      → 0 < length p
      → length p < 16777216
      → v.packet_length + length p ≤ s.max_allowed_packet
      → (t : S) × (round k s v ≡ behind_frame s v seq p t) × (pending t ≡ rest)
  unfolding round behind_header received behind_payload
  round-frame s v seq p rest hs h pos small l =
      let (t, e, f) = law.read_exact s.socket (head_of seq p) (p ++ rest) (omega arith) h in
      let s' : Source S = record s { socket = t; in_bytes = s.in_bytes + 4 } in
      let (u, g, i) = payload-frame s' v seq p rest f pos small l in
      (
        u,
        ap (λ n. behind_header k s v (received s (k.read s.socket n))) hs
            ∙ ap (λ r. behind_header k s v (received s r)) e
            ∙ g,
        i,
      )

  abbrev go_on : ℕ → Round S → Option (Ended × Source S)
  go_on fuel r = elim r [ ended e t ↦ some (e, t) | again w t ↦ rounds k fuel t w ]

  abbrev Gives : ℕ → Source S → Vars → Bytes → ℕ → Bytes → Type 0
  Gives fuel s v bytes n rest =
      (t : Source S) × (rounds k fuel s v ≡ some (packet (some bytes) n, t))
      × (pending t.socket ≡ rest)

  rounds-last :
      (fuel : ℕ) (s : Source S) (b : Option Bytes) (l n seq : ℕ) (p rest : Bytes)
      → s.header_size ≡ 4
      → pending s.socket ≡ frame seq p ++ rest
      → 0 < length p
      → length p < max_packet_len
      → n + length p ≤ s.max_allowed_packet
      → Gives
          (suc fuel)
          s
          (vars b l n)
          (base b (head_of seq p) ++ p)
          (base_length b l 4 + length p)
          rest
  unfolding rounds
  rounds-last fuel s b l n seq p rest hs h pos small limit =
      let (t, e, i) = round-frame s (vars b l n) seq p rest hs h pos (omega arith) limit in
      let short : (length p == max_packet_len) ≡ false = ground arith in
      (
        past_frame s p t,
        ap (go_on fuel) e ∙ rw (short, joined-base s.header_size b l n (head_of seq p) p, hs) refl,
        i,
      )

  rounds-full :
      (fuel : ℕ) (s : Source S) (b : Option Bytes) (l n seq : ℕ) (p rest : Bytes)
      → s.header_size ≡ 4
      → pending s.socket ≡ frame seq p ++ rest
      → length p ≡ max_packet_len
      → n + length p ≤ s.max_allowed_packet
      → (t : S) × (rounds k (suc fuel) s (vars b l n)
          ≡ rounds k fuel (past_frame s p t) (
              vars
                (some (base b (head_of seq p) ++ p))
                (base_length b l 4 + length p)
                (n + length p)))
        × (pending t ≡ rest)
  unfolding rounds
  rounds-full fuel s b l n seq p rest hs h full limit =
      let (t, e, i) =
        round-frame s (vars b l n) seq p rest hs h (omega arith) (omega arith) limit in
      let long : (length p == max_packet_len) ≡ true = ground arith in
      (
        t,
        ap (go_on fuel) e ∙ rw (long, joined-base s.header_size b l n (head_of seq p) p, hs) refl,
        i,
      )

  rounds-wire :
      (fuel : ℕ) (s : Source S) (b : Option Bytes) (l n seq : ℕ) (ps : List Bytes)
      (last rest : Bytes)
      → s.header_size ≡ 4
      → pending s.socket ≡ wire seq ps last ++ rest
      → AreFull ps
      → 0 < length last
      → length last < max_packet_len
      → n + length (all_of ps last) ≤ s.max_allowed_packet
      → s.max_allowed_packet < n + fuel
      → Gives fuel s
          (vars b l n)
          (base b (head_of seq (first_of ps last)) ++ all_of ps last)
          (base_length b l 4 + length (all_of ps last))
          rest
  rounds-wire zero s b l n seq ps last rest hs h full pos small limit fuels = absurd (omega arith)
  rounds-wire (suc fuel) s b l n seq [] last rest hs h full pos small limit fuels =
      rounds-last fuel s b l n seq last rest hs h pos small limit
  rounds-wire (suc fuel) s b l n seq (p ∷ ps) last rest hs h full pos small limit fuels =
      let size : length (p ++ all_of ps last) ≡ length p + length (all_of ps last) =
        length-append p (all_of ps last) in
      let (u, e, i) =
        rounds-full fuel s b l n seq p (wire (suc seq) ps last ++ rest) hs
          (h ∙ append_assoc (frame seq p) (wire (suc seq) ps last) rest) full.0 (omega arith) in
      let (t, f, j) =
        rounds-wire fuel (past_frame s p u) (some (base b (head_of seq p) ++ p))
          (base_length b l 4 + length p) (n + length p) (suc seq) ps last rest hs i full.1 pos small
          (omega arith) (omega (arith, full.0)) in
      let total : base_length b l 4 + length p + length (all_of ps last)
          ≡ base_length b l 4 + length (p ++ all_of ps last) =
        omega arith in
      let bytes = append_assoc (base b (head_of seq p)) p (all_of ps last) in
      (
        t,
        e
            ∙ f
            ∙ ap
                (λ x.
                  some
                    (packet (some x) (base_length b l 4 + length p + length (all_of ps last)), t))
                bytes
            ∙ ap (λ x. some (packet (some (base b (head_of seq p) ++ (p ++ all_of ps last))) x, t))
                total,
        j,
      )

-- Where the client sent a payload in frames, all but the last one full and the last one neither
-- full nor empty, and the payload is within the limit, readUnCompressed gives the header of the
-- first frame with the whole payload behind it and the length of both, and leaves in the socket
-- what follows the frames. The socket is one whose reads of bytes that arrived give those bytes,
-- and the header size is 4.
pub read_uncompressed-wire :
    {S : Type 0} (k : Socket S) (pending : S → Bytes)
    → IsSocket k pending
    → (s : Source S) (seq : ℕ) (ps : List Bytes) (last rest : Bytes) → s.header_size ≡ 4
    → pending s.socket ≡ wire seq ps last ++ rest
    → AreFull ps
    → 0 < length last
    → length last < max_packet_len
    → length (all_of ps last) ≤ s.max_allowed_packet
    → (t : Source S) × (read_uncompressed k s
        ≡ some (
          packet
              (some (head_of seq (first_of ps last) ++ all_of ps last))
              (4 + length (all_of ps last)),
          t,
        ))
      × (pending t.socket ≡ rest)
unfolding read_uncompressed
read_uncompressed-wire k pending law s seq ps last rest hs h full pos small limit =
    rounds-wire k pending law (s.max_allowed_packet + 1) s none 0 0 seq ps last rest hs h full pos
      small (omega arith) (omega arith)

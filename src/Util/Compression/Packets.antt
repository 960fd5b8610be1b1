-- ===== src/Util/Compression/Packets.antt =====
-- splitPackets of util/compress-helper.js takes a bundle of packets apart.
use mycat_js.Prelude.{
  ℕ, zero, suc, ◌+◌, ◌≡◌, ◌≤◌, ◌<◌, ◌∙◌, ap, refl, List, [], ◌∷◌, ◌++◌, some, length, ◌==◌, false,
  arith, take, drop, length-drop, length-append,
}
use mycat_js.Runtime.{Bytes, le_bytes, Platform}
use mycat_js.Net.Message.{read_u24, message, skip}
use mycat_js.Buffer.Helper.{read_u24_le, read_u24_le-Holds}
use mycat_js.Net.Packets.{frame}
use mycat_js.Util.Compression.{
  with_packet, split_packets_loop, split_packets, Zlib, decompress_packet,
}

abbrev pub concat : List Bytes → Bytes
concat [] = []
concat (p ∷ ps) = p ++ concat ps

take-drop : (n : ℕ) (b : Bytes) → take n b ++ drop n b ≡ b
take-drop zero b = refl
take-drop (suc n) [] = refl
take-drop (suc n) (c ∷ cs) = ap (λ r. c ∷ r) (take-drop n cs)

loop-concat :
    (fuel : ℕ) (b : Bytes)
    → length b ≤ fuel
    → (ps : List Bytes) × (split_packets_loop fuel b ≡ some ps) × (concat ps ≡ b)
unfolding split_packets_loop with_packet
loop-concat zero [] h = ([], refl, refl)
loop-concat (suc fuel) [] h = ([], refl, refl)
loop-concat zero (c ∷ cs) h = absurd (omega arith)
loop-concat (suc fuel) (c ∷ cs) h =
    let len = read_u24_le (c ∷ cs) 0 + 4 in
    let (ps, e, f) =
      loop-concat fuel (drop len (c ∷ cs)) (omega (arith, length-drop len (c ∷ cs))) in
    (
      take len (c ∷ cs) ∷ ps,
      ap (with_packet (take len (c ∷ cs))) e,
      ap (λ r. take len (c ∷ cs) ++ r) f ∙ take-drop len (c ∷ cs),
    )

-- On any buffer splitPackets ends within its fuel, and the packets that it gives, one behind the
-- other, are the buffer.
pub split_packets-concat :
    (b : Bytes) → (ps : List Bytes) × (split_packets b ≡ some ps) × (concat ps ≡ b)
unfolding split_packets
split_packets-concat b = loop-concat (length b) b (omega arith)

-- The packets of payloads with their sequence numbers.
abbrev pub frames : List (ℕ × Bytes) → List Bytes
frames [] = []
frames ((seq, p) ∷ ps) = frame seq p ∷ frames ps

abbrev pub AreSmall : List (ℕ × Bytes) → Type 0
AreSmall [] = Unit {0}
AreSmall ((seq, p) ∷ ps) = (length p < 16777216) × AreSmall ps

take_whole : (xs ys : Bytes) (n : ℕ) → n ≡ length xs → take n (xs ++ ys) ≡ xs
take_whole [] ys zero h = refl
take_whole [] ys (suc n) h = absurd (omega arith)
take_whole (x ∷ xs) ys zero h = absurd (omega arith)
take_whole (x ∷ xs) ys (suc n) h = ap (λ r. x ∷ r) (take_whole xs ys n (omega arith))

drop_whole : (xs ys : Bytes) (n : ℕ) → n ≡ length xs → drop n (xs ++ ys) ≡ ys
drop_whole [] ys zero h = refl
drop_whole [] ys (suc n) h = absurd (omega arith)
drop_whole (x ∷ xs) ys zero h = absurd (omega arith)
drop_whole (x ∷ xs) ys (suc n) h = drop_whole xs ys n (omega arith)

loop-frames :
    (fuel : ℕ) (ps : List (ℕ × Bytes))
    → AreSmall ps
    → length (concat (frames ps)) ≤ fuel
    → split_packets_loop fuel (concat (frames ps)) ≡ some (frames ps)
unfolding split_packets_loop with_packet
loop-frames zero [] s h = refl
loop-frames (suc fuel) [] s h = refl
loop-frames zero ((seq, p) ∷ ps) s h = absurd (omega arith)
loop-frames (suc fuel) ((seq, p) ∷ ps) s h =
    let rest = concat (frames ps) in
    let size : read_u24_le (frame seq p ++ rest) 0 ≡ length p =
      read_u24_le-Holds (frame seq p ++ rest) 0 (length p) s.0 (refl, (refl, (refl, tt))) in
    let whole : read_u24_le (frame seq p ++ rest) 0 + 4 ≡ length (frame seq p) =
      omega (arith, size) in
    let ih = loop-frames fuel ps s.1 (omega (arith, length-append p rest)) in
    let b = frame seq p ++ rest in
    let len = read_u24_le b 0 + 4 in
    ap (λ t. with_packet t (split_packets_loop fuel (drop len b)))
      (take_whole (frame seq p) rest len whole)
    ∙ ap (λ d. with_packet (frame seq p) (split_packets_loop fuel d))
        (drop_whole (frame seq p) rest len whole)
    ∙ ap (with_packet (frame seq p)) ih

-- Packets of payloads below 2 ^ 24 bytes come apart again.
pub split_packets-frames :
    (ps : List (ℕ × Bytes)) → AreSmall ps → split_packets (concat (frames ps)) ≡ some (frames ps)
unfolding split_packets
split_packets-frames ps s = loop-frames (length (concat (frames ps))) ps s (omega arith)

take-length : (z : Bytes) → take (length z) z ≡ z
take-length [] = refl
take-length (c ∷ cs) = ap (λ r. c ∷ r) (take-length cs)

-- A compressed packet: its header, the length of what was compressed, and the compressed bytes.
abbrev pub compressed : ℕ → ℕ → Bytes → Bytes
compressed seq unc_len z = le_bytes 3 (length z) ++ (seq ∷ (le_bytes 3 unc_len ++ z))

-- A compressed packet of the sizes that its header can hold, whose bytes inflate to packets one
-- behind the other, of payloads below 2 ^ 24 bytes, is decompressed into those packets.
pub decompress_packet-frames :
    (rt : Platform) (zlib : Zlib) (seq unc_len : ℕ) (z : Bytes) (ps : List (ℕ × Bytes))
    → 0 < unc_len
    → unc_len < 16777216
    → length z < 16777216
    → AreSmall ps
    → zlib.inflate z ≡ concat (frames ps)
    → decompress_packet rt zlib (compressed seq unc_len z) ≡ some (frames ps)
unfolding decompress_packet read_u24 message skip
decompress_packet-frames rt zlib seq unc_len z ps pos small short s h =
    let b = compressed seq unc_len z in
    let size : read_u24_le b 0 ≡ length z =
      read_u24_le-Holds b 0 (length z) short (refl, (refl, (refl, tt))) in
    let unc : read_u24_le b 4 ≡ unc_len =
      read_u24_le-Holds b 4 unc_len small (refl, (refl, (refl, tt))) in
    let nonzero : (unc_len == 0) ≡ false = ground arith in
    let whole : take (length z) z ≡ z = take-length z in
    rw (unc, nonzero, size, whole, h) (split_packets-frames ps s)

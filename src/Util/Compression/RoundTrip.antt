-- ===== src/Util/Compression/RoundTrip.antt =====
-- compressMysqlPacket and decompressMysqlPacket of util/compress-helper.js undo each other.
use mycat_js.Prelude.{
  ap, if◌then◌else◌, ℕ, zero, suc, ◌+◌, ◌≡◌, ◌≤◌, ◌<◌, ◌∙◌, sym, refl, List, [], ◌∷◌, ◌++◌, some,
  length, ltb, ◌==◌, true, false, arith, ok, get_elem?, Bool-cases, inl, inr, ltb-false→le,
}
use mycat_js.Runtime.{Bytes, le_bytes, Platform, IsPlatform, overwrite, slice, write_u8}
use mycat_js.Runtime.Writing.{length-overwrite, set_bytes-ok}
use mycat_js.Runtime.Reading.{
  Holds, overwrite-Holds, get_elem?-overwrite_below, slice-Holds, read_u8-Holds,
}
use mycat_js.Buffer.Helper.{write_u24_le, read_u24_le-Holds, write_u24_le-set_bytes}
use mycat_js.Net.Message.{read_u24, message, skip}
use mycat_js.Net.Message.Strings.{copy_bytes-Holds}
use mycat_js.Util.Compression.{
  Zlib, IsZlib, min_compress_length, split_packets, decompress_packet, compress_packet,
}
use mycat_js.Util.Compression.Packets.{concat, frames, AreSmall, split_packets-frames}

overwrite-Holds_below :
    (b : Bytes) (p q : ℕ) (xs ys : Bytes)
    → p + length xs ≤ q
    → Holds b p xs
    → Holds (overwrite b q ys) p xs
overwrite-Holds_below b p q [] ys l h = tt
overwrite-Holds_below b p q (x ∷ xs) ys l h = (
  get_elem?-overwrite_below b q p ys (omega arith) ∙ h.0,
  overwrite-Holds_below b (suc p) q xs ys (omega arith) h.1,
)

get_elem?-front : (b c : Bytes) (i x : ℕ) → get_elem? b i ≡ some x → get_elem? (b ++ c) i ≡ some x
get_elem?-front [] c i x h = cc
get_elem?-front (y ∷ ys) c zero x h = h
get_elem?-front (y ∷ ys) c (suc i) x h = get_elem?-front ys c i x h

Holds-front : (b c : Bytes) (p : ℕ) (xs : Bytes) → Holds b p xs → Holds (b ++ c) p xs
Holds-front b c p [] h = tt
Holds-front b c p (x ∷ xs) h = (get_elem?-front b c p x h.0, Holds-front b c (suc p) xs h.1)

Holds-self : (c : ℕ) (b : Bytes) (p : ℕ) (xs : Bytes) → Holds b p xs → Holds (c ∷ b) (suc p) xs
Holds-self c b p [] h = tt
Holds-self c b p (x ∷ xs) h = (h.0, Holds-self c b (suc p) xs h.1)

Holds-behind : (b xs : Bytes) → Holds (b ++ xs) (length b) xs
Holds-behind [] [] = tt
Holds-behind [] (x ∷ xs) = (refl, Holds-self x xs 0 xs (Holds-behind [] xs))
Holds-behind (c ∷ b) xs = Holds-self c (b ++ xs) (length b) xs (Holds-behind b xs)

Holds-behind_at : (b xs : Bytes) (n : ℕ) → length b ≡ n → Holds (b ++ xs) n xs
Holds-behind_at b xs n e = rw (sym e) (Holds-behind b xs)

-- A header of 7 bytes with two lengths, and the body of the first length.
record IsCompressed (c : Bytes) (unc_len : ℕ) (body : Bytes) : Type 0 where
  first : Holds c 0 (le_bytes 3 (length body))
  second : Holds c 4 (le_bytes 3 unc_len)
  tail : Holds c 7 body

u24-ok :
    (n : ℕ) (b : Bytes) (p : ℕ)
    → p + 3 ≤ length b
    → write_u24_le n b p ≡ ok (overwrite b p (le_bytes 3 n), p + 3)
u24-ok n b p h = rw (write_u24_le-set_bytes n) (set_bytes-ok (le_bytes 3 n) b p h)

compress-short :
    (rt : Platform) (z : Zlib) (b : Bytes)
    → IsPlatform rt
    → ltb (length b) min_compress_length ≡ true
    → (c : Bytes) × (compress_packet rt z b ≡ ok c) × IsCompressed c 0 b
unfolding compress_packet
compress-short rt z b law h =
    let r0 = overwrite (rt.unsafe_bytes (7 + length b)) 0 (slice b 0 4) in
    let r1 = overwrite r0 0 (le_bytes 3 (length b)) in
    let r2 = overwrite r1 4 (0 ∷ 0 ∷ 0 ∷ []) in
    let l0 : length r0 ≡ 7 + length b = length-overwrite _ 0 _ ∙ law.unsafe_length _ in
    let l1 : length r1 ≡ 7 + length b = length-overwrite r0 0 _ ∙ l0 in
    let l2 : length r2 ≡ 7 + length b = length-overwrite r1 4 _ ∙ l1 in
    (
      overwrite r2 7 b,
      rw (h, u24-ok (length b) r0 0 (omega arith)) refl,
      record {
        first = overwrite-Holds_below r2 0 7 (le_bytes 3 (length b)) b (omega arith) (
            overwrite-Holds_below r1 0 4 (le_bytes 3 (length b)) (0 ∷ 0 ∷ 0 ∷ []) (omega arith)
              (overwrite-Holds r0 0 (le_bytes 3 (length b)) (omega arith)));
        second =
            overwrite-Holds_below r2 4 7 (0 ∷ 0 ∷ 0 ∷ []) b (omega arith)
              (overwrite-Holds r1 4 (0 ∷ 0 ∷ 0 ∷ []) (omega arith));
        tail = overwrite-Holds r2 7 b (omega arith);
      },
    )

get_elem?-within : (b : Bytes) (i : ℕ) → i < length b → (x : ℕ) × (get_elem? b i ≡ some x)
get_elem?-within [] i h = absurd (omega arith)
get_elem?-within (x ∷ xs) zero h = (x, refl)
get_elem?-within (x ∷ xs) (suc i) h = get_elem?-within xs i (omega arith)

write_u8-ok :
    (v : ℕ) (b : Bytes) (p : ℕ)
    → p + 1 ≤ length b
    → write_u8 v b p ≡ ok (overwrite b p (le_bytes 1 v), p + 1)
unfolding write_u8
write_u8-ok v b p h = set_bytes-ok (le_bytes 1 v) b p h

compress-long :
    (rt : Platform) (z : Zlib) (b : Bytes)
    → IsPlatform rt
    → ltb (length b) min_compress_length ≡ false
    → (c : Bytes) × (compress_packet rt z b ≡ ok c) × IsCompressed c (length b) (z.deflate b)
unfolding compress_packet
compress-long rt z b law h =
    let pb = z.deflate b in
    let long : 1536 ≤ length b = ltb-false→le _ _ h in
    let (x, has) = get_elem?-within b 3 (omega arith) in
    let r0 = rt.unsafe_bytes 7 in
    let r1 = overwrite r0 0 (le_bytes 3 (length pb)) in
    let r2 = overwrite r1 3 (le_bytes 1 x) in
    let r3 = overwrite r2 4 (le_bytes 3 (length b)) in
    let l0 : length r0 ≡ 7 = law.unsafe_length 7 in
    let l1 : length r1 ≡ 7 = length-overwrite r0 0 _ ∙ l0 in
    let l2 : length r2 ≡ 7 = length-overwrite r1 3 _ ∙ l1 in
    let l3 : length r3 ≡ 7 = length-overwrite r2 4 _ ∙ l2 in
    (
      r3 ++ pb,
      rw
          (
            h,
            read_u8-Holds b 3 x has,
            u24-ok (length pb) r0 0 (omega arith),
            write_u8-ok x r1 3 (omega arith),
            u24-ok (length b) r2 4 (omega arith),
          )
          refl,
      record {
        first = Holds-front r3 pb 0 (le_bytes 3 (length pb)) (
            overwrite-Holds_below r2 0 4 (le_bytes 3 (length pb)) (le_bytes 3 (length b))
              (omega arith)
              (overwrite-Holds_below r1 0 3 (le_bytes 3 (length pb)) (le_bytes 1 x) (omega arith)
                (overwrite-Holds r0 0 (le_bytes 3 (length pb)) (omega arith))));
        second =
            Holds-front r3 pb 4 (le_bytes 3 (length b))
              (overwrite-Holds r2 4 (le_bytes 3 (length b)) (omega arith));
        tail = Holds-behind_at r3 pb 7 l3;
      },
    )

decompress-plain :
    (rt : Platform) (z : Zlib) (c body : Bytes)
    → IsPlatform rt
    → length body < 16777216
    → IsCompressed c 0 body
    → decompress_packet rt z c ≡ some (body ∷ [])
unfolding decompress_packet read_u24 message skip
decompress-plain rt z c body law small is =
    let size = read_u24_le-Holds c 0 (length body) small is.first in
    let unc = read_u24_le-Holds c 4 0 (omega arith) is.second in
    rw (size, unc, copy_bytes-Holds rt c 7 body law is.tail) refl

decompress-deflated :
    (rt : Platform) (z : Zlib) (c b : Bytes)
    → IsZlib z
    → length b < 16777216
    → length (z.deflate b) < 16777216
    → 0 < length b
    → IsCompressed c (length b) (z.deflate b)
    → decompress_packet rt z c ≡ split_packets b
unfolding decompress_packet read_u24 message skip
decompress-deflated rt z c b law small short pos is =
    let size = read_u24_le-Holds c 0 (length (z.deflate b)) short is.first in
    let unc = read_u24_le-Holds c 4 (length b) small is.second in
    let nonzero : (length b == 0) ≡ false = ground arith in
    rw (size, unc, nonzero, slice-Holds c 7 (z.deflate b) is.tail, law.inflate-deflate b) refl

-- Packets of payloads below 2 ^ 24 bytes, one behind the other in a buffer below 2 ^ 24 bytes,
-- whose deflated bytes are below it too, are compressed, and what that gives is decompressed into
-- just those packets, or, from a buffer below 1536 bytes, into that one buffer. The platform's
-- new buffers have the size asked for, and zlib inflates what it deflated.
pub decompress_packet-compress_packet :
    (rt : Platform) (z : Zlib) (ps : List (ℕ × Bytes)) (b : Bytes)
    → IsPlatform rt
    → IsZlib z
    → AreSmall ps
    → b ≡ concat (frames ps)
    → length b < 16777216
    → length (z.deflate b) < 16777216
    → (c : Bytes) × (compress_packet rt z b ≡ ok c)
      × (decompress_packet rt z c
          ≡ some (if ltb (length b) min_compress_length then b ∷ [] else frames ps))
decompress_packet-compress_packet rt z ps b law zlaw sizes is_ps small short =
    elim (Bool-cases (ltb (length b) min_compress_length)) [
      | inl e ↦
          let (c, f, is) = compress-short rt z b law e in
          (c, f, rw e (decompress-plain rt z c b law small is))
      | inr e ↦
          let (c, f, is) = compress-long rt z b law e in
          let long : 1536 ≤ length b = ltb-false→le _ _ e in
          (
            c,
            f,
            rw e (
                decompress-deflated rt z c b zlaw small short (omega arith) is
                ∙ ap split_packets is_ps
                ∙ split_packets-frames ps sizes),
          )
    ]

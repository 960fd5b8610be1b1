-- ===== src/Util/Compression.antt =====
-- compressMysqlPacket on one buffer, decompressMysqlPacket and splitPackets of util/compress-helper.js. The library zlib is a parameter.
pub mod Packets
pub mod RoundTrip
use mycat_js.Prelude.{
  ℕ, zero, suc, ◌+◌, ◌≡◌, List, [], ◌∷◌, ◌++◌, Option, none, some, length, ◌==◌, ltb, if◌then◌else◌,
  Result, ok, err, ◌>>=◌, take, drop,
}
use mycat_js.Runtime.{Bytes, Platform, slice, overwrite, read_u8, write_u8}
use mycat_js.Buffer.Helper.{read_u24_le, write_u24_le}
use mycat_js.Net.Message.{message, read_u24, skip, copy_bytes}

-- zlib.deflate at the default level, and zlib.inflate.
pub record Zlib : Type 0 where
  pub deflate : Bytes → Bytes
  pub inflate : Bytes → Bytes

-- What was deflated is inflated again.
pub record IsZlib (z : Zlib) : Type 0 where
  pub inflate-deflate : (b : Bytes) → z.inflate (z.deflate b) ≡ b

-- `MIN_COMPRESS_LENGTH`
abbrev pub min_compress_length : ℕ
min_compress_length = 1536

-- A packet in front of the packets behind it.
unfoldable pub with_packet : Bytes → Option (List Bytes) → Option (List Bytes)
with_packet p none = none
with_packet p (some ps) = some (p ∷ ps)

-- The loop of splitPackets over what is left of the buffer: each packet takes 4 bytes at least. Out
-- of fuel is `none`.
unfoldable pub split_packets_loop : ℕ → Bytes → Option (List Bytes)
split_packets_loop fuel [] = some []
split_packets_loop zero (c ∷ cs) = none
split_packets_loop (suc fuel) (c ∷ cs) =
    let len = read_u24_le (c ∷ cs) 0 + 4 in
    with_packet (take len (c ∷ cs)) (split_packets_loop fuel (drop len (c ∷ cs)))

unfoldable pub split_packets : Bytes → Option (List Bytes)
split_packets b = split_packets_loop (length b) b

-- decompressMysqlPacket on a whole buffer.
unfoldable pub decompress_packet : Platform → Zlib → Bytes → Option (List Bytes)
decompress_packet rt z b =
    let (payload_len, m) = read_u24 (message b none) in
    let (unc_len, n) = read_u24 (skip m 1) in
    if unc_len == 0
    then some (copy_bytes rt b 7 payload_len ∷ [])
    else split_packets (z.inflate (slice b 7 payload_len))

-- compressMysqlPacket of one buffer: a short one goes as it is behind a header of 7 bytes.
unfoldable pub compress_packet : Platform → Zlib → Bytes → Result Bytes
compress_packet rt z b =
    let n = length b in
    let pb = z.deflate b in
    if ltb n min_compress_length
    then (write_u24_le n (overwrite (rt.unsafe_bytes (7 + n)) 0 (slice b 0 4)) 0 >>= λ (r, p).
        ok (overwrite (overwrite r 4 (0 ∷ 0 ∷ 0 ∷ [])) 7 b))
    else (read_u8 b 3 >>= λ sq. write_u24_le (length pb) (rt.unsafe_bytes 7) 0 >>= λ (h, p).
        write_u8 sq h 3 >>= λ (i, q). write_u24_le n i 4 >>= λ (j, r). ok (j ++ pb))

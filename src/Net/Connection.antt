-- ===== src/Net/Connection.antt =====
-- What a packet needs of a connection: net/connection.js and frontend/front-connection.js with the
-- buffer pool behind net/conn-manager.js. The socket is the list of the buffers written to it.
pub mod Sending
use mycat_js.Prelude.{
  net_error, ◌&&◌, ℕ, ◌+◌, ◌-◌, ◌≡◌, Bool, true, false, List, [], ◌∷◌, ◌++◌, Option, none, some,
  length, ltb, if◌then◌else◌, Error, plain_error, Result, ok, err, ◌>>=◌, pos,
}
use mycat_js.Runtime.{Bytes, Writer, slice, resize_bytes}
use mycat_js.Buffer.Pool.{Pool, Buffer, Outcome, done, throws, waits, resize}

pub record Connection : Type 0 where
  pub write_buffer : Bytes
  -- `_allocated` of the write buffer
  pub marked : Bool
  pub pool : Pool
  pub packet_header_size : ℕ
  pub capabilities : ℕ
  -- `CompressHelper.compressMysqlPacket` where the connection compresses.
  pub compress : Option (Bytes → Bytes)
  pub socket : List Bytes
  -- Whether the socket's next `write` of a buffer throws, and whether its next `flush` does.
  pub write_fails : Bytes → Bool
  pub flush_fails : Bool
  pub out_bytes : ℕ

-- The buffer of the connection with a size of the pool's.
resized : Connection → Outcome → Result Connection
resized c (done b p) = ok (record c { write_buffer = resize_bytes c.write_buffer b.size; pool = p })
resized c (throws e) = err e
resized c (waits n) = err plain_error

unfoldable pub ensure_write_buffer : Connection → ℕ → Result Connection
unfolding resized
ensure_write_buffer c size =
    if ltb (length c.write_buffer) size
    then resized c (
        resize c.pool (record { size = length c.write_buffer; marked = c.marked }) (pos size) false)
    else ok c

-- What goes over the wire for a buffer, by the connection's compression.
unfoldable pub on_wire : Option (Bytes → Bytes) → Bytes → Bytes
on_wire none buf = buf
on_wire (some f) buf = f buf

-- `buffer.slice(start, end)`, compressed where that is agreed, goes to the socket. What the socket
-- throws becomes a NetError; how a call that throws leaves the connection is not given.
unfoldable pub write : Connection → ℕ → ℕ → Bool → Result Connection
write c start end flush =
    let buf = slice c.write_buffer start (end - start) in
    let out = on_wire c.compress buf in
    if c.write_fails out
    then err net_error
    else if flush && c.flush_fails
    then err net_error
    else ok (record c { socket = c.socket ++ (out ∷ []); out_bytes = c.out_bytes + length out })

-- What the packets' `write` has in common: room for the packet, the bytes, and then the socket
-- from `start` on, or the offset behind the packet.
unfoldable pub write_packet : Connection → ℕ → ℕ → Bool → ℕ → Writer → Result (ℕ × Connection)
write_packet c offset payload_length flush start body = do
  c' ← ensure_write_buffer c (offset + (c.packet_header_size + payload_length))
  (b, p) ← body c'.write_buffer offset
  let filled : Connection = record c' { write_buffer = b }
  let sent = do w ← write filled start p true; ok (start, w)
  if flush then sent else ok (p, filled)

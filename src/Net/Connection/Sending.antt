-- ===== src/Net/Connection/Sending.antt =====
-- A packet that is written and flushed arrives at the socket as it is.
use mycat_js.Prelude.{
  ℕ, ap, ◌∙◌, ◌-◌, true, if◌then◌else◌, err, net_error, suc, zero, ok, Bool-cases, inl, inr, ◌>>=◌,
  ◌+◌, ◌≡◌, ◌≤◌, [], ◌∷◌, ◌++◌, length, length-append, length-take, length-replicate, arith, take,
  replicate,
}
use mycat_js.Runtime.{Bytes, Writer, overwrite, resize_bytes, slice}
use mycat_js.Runtime.Writing.{Emits, set_bytes-ok}
use mycat_js.Runtime.Reading.{overwrite-Holds, slice-Holds}
use mycat_js.Buffer.Pool.{resize, grow_loop}
use mycat_js.Net.Connection.{Connection, ensure_write_buffer, on_wire, write, write_packet}

length-resize_bytes : (b : Bytes) (n : ℕ) → length (resize_bytes b n) ≡ n
unfolding resize_bytes
length-resize_bytes b n = omega (
  arith,
  length-append (take n b) (replicate (n - length b) 0),
  length-take n b,
  length-replicate {A = ℕ} (n - length b) 0,
)

-- What a connection keeps while its buffer is resized.
record Keeps (c c' : Connection) : Type 0 where
  socket_kept : c'.socket ≡ c.socket
  compress_kept : c'.compress ≡ c.compress
  count_kept : c'.out_bytes ≡ c.out_bytes
  write_kept : c'.write_fails ≡ c.write_fails
  flush_kept : c'.flush_fails ≡ c.flush_fails

ensure_write_buffer-ok :
    (c : Connection) {c' : Connection} (size : ℕ)
    → ensure_write_buffer c size ≡ ok c'
    → (size ≤ length c'.write_buffer) × Keeps c c'
unfolding ensure_write_buffer resize grow_loop
ensure_write_buffer-ok c size h = (
  ground (arith, length-resize_bytes c.write_buffer size),
  record {
    socket_kept = ground arith;
    compress_kept = ground arith;
    count_kept = ground arith;
    write_kept = ground arith;
    flush_kept = ground arith;
  },
)

-- The bytes from `start` up to those that were written behind them at `offset`.
span_written :
    (b xs : Bytes) (start offset d n : ℕ)
    → start + d ≡ offset
    → n ≡ d + length xs
    → offset + length xs ≤ length b
    → slice (overwrite b offset xs) start n ≡ slice b start d ++ xs
unfolding overwrite
span_written b xs zero zero zero n s e fits =
    ap (λ k. take k (overwrite b 0 xs)) (omega (arith, e))
    ∙ slice-Holds _ 0 xs (overwrite-Holds b 0 xs fits)
span_written b xs zero zero (suc d) n s e fits = absurd (omega arith)
span_written b xs zero (suc k) zero n s e fits = absurd (omega arith)
span_written [] xs zero (suc k) (suc d) n s e fits = absurd (omega arith)
span_written (y ∷ ys) xs zero (suc k) (suc d) zero s e fits = absurd (omega arith)
span_written (y ∷ ys) xs zero (suc k) (suc d) (suc n) s e fits =
    ap (y ∷◌) (span_written ys xs zero k d n (omega arith) (omega arith) (omega arith))
span_written b xs (suc start) zero d n s e fits = absurd (omega arith)
span_written [] xs (suc start) (suc k) d n s e fits = absurd (omega arith)
span_written (y ∷ ys) xs (suc start) (suc k) d n s e fits =
    span_written ys xs start k d n (omega arith) e (omega arith)

write_outcome :
    (c : Connection) (start end : ℕ) (out : Bytes)
    → on_wire c.compress (slice c.write_buffer start (end - start)) ≡ out
    → ◌>>=◌ {Next = ℕ × Connection} (write c start end true) (λ w. ok (start, w)) ≡ (
        if c.write_fails out
        then err net_error
        else if c.flush_fails
        then err net_error
        else ok (
          start,
          record c { socket = c.socket ++ (out ∷ []); out_bytes = c.out_bytes + length out },
        ))
unfolding write
write_outcome c start end out e = elim (Bool-cases (c.write_fails out)) [
  | inl f ↦ simp (e, f)
  | inr f ↦ elim (Bool-cases c.flush_fails) [ inl g ↦ simp (e, f, g) | inr g ↦ simp (e, f, g) ]
]

-- Where the connection gets room for a packet of the announced length, a flushed write of the
-- packet's code, from a start that is not behind the offset, appends one buffer to the socket and
-- counts its bytes: those of the connection's buffer from the start up to the offset and the
-- packet's behind them, as they go over the wire. It returns the start. Where the socket's write
-- or its flush fails, it is a NetError.
pub write_packet-sends :
    (c c' : Connection) (start offset payload_length : ℕ) {xs : Bytes} {body : Writer}
    → Emits body xs
    → c.packet_header_size + payload_length ≡ length xs
    → start ≤ offset
    → ensure_write_buffer c (offset + (c.packet_header_size + payload_length)) ≡ ok c'
    → let out = on_wire c.compress (slice c'.write_buffer start (offset - start) ++ xs) in
      (w : Connection) × (write_packet c offset payload_length true start body ≡ (
        if c.write_fails out
        then err net_error
        else if c.flush_fails
        then err net_error
        else ok (start, w)))
      × (w.socket ≡ c.socket ++ (out ∷ []))
      × (w.out_bytes ≡ c.out_bytes + length out)
unfolding write_packet write
write_packet-sends c c' start offset payload_length {xs} {body} e len below h =
    let (room, kept) = ensure_write_buffer-ok c _ h in
    let fits : offset + length xs ≤ length c'.write_buffer = rw (← len) room in
    let filled : Connection = record c' { write_buffer = overwrite c'.write_buffer offset xs } in
    let span = slice c'.write_buffer start (offset - start) ++ xs in
    let out = on_wire c.compress span in
    let sent : slice filled.write_buffer start (offset + length xs - start) ≡ span =
      span_written c'.write_buffer xs start offset (offset - start) (offset + length xs - start)
        (omega arith) (omega arith) fits in
    let sends : on_wire c'.compress (slice filled.write_buffer start (offset + length xs - start))
        ≡ out =
      ap (λ z. on_wire z (slice filled.write_buffer start (offset + length xs - start)))
        kept.compress_kept
      ∙ ap (on_wire c.compress) sent in
    let w : Connection = record filled {
      socket = c'.socket ++ (out ∷ []);
      out_bytes = c'.out_bytes + length out;
    } in
    (
      w,
      rw h (
            rw e.emits (
              rw (set_bytes-ok xs c'.write_buffer offset fits)
                (write_outcome filled start (offset + length xs) out sends)))
          ∙ ap
              (λ f.
                if f out
                then err net_error
                else if c'.flush_fails
                then err net_error
                else ok (start, w))
              kept.write_kept
          ∙ ap
              (λ f.
                if c.write_fails out
                then err net_error
                else if f
                then err net_error
                else ok (start, w))
              kept.flush_kept,
      ap (◌++ (out ∷ [])) kept.socket_kept,
      ap (◌+ length out) kept.count_kept,
    )

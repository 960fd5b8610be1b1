-- ===== src/Tests/Pools.antt =====
-- Buffer pools and numbers on the wire, at concrete inputs.
use mycat_js.Prelude.{
  ℕ, ◌%◌, ◌≤◌, ◌<◌, ltb, if◌then◌else◌, ◌+◌, ◌≡◌, ◌≤◌, ◌<◌, refl, List, [], ◌∷◌, ◌++◌, true, false,
  some, ok, pos, arith, replicate, length-replicate,
}
use mycat_js.Runtime.{Bytes, Platform, IsPlatform, set_bytes, le_bytes, overwrite}
use mycat_js.Buffer.Pool.{
  retries_resize, Pool, Buffer, done, waits, allocate, Memory, Call, allocates, resizes, releases,
  run, resize, step,
}
use mycat_js.Buffer.Pool.Accounting.{IsAccounted, run-IsAccounted}
use mycat_js.Buffer.Pool.Outcomes.{allocate_pos}
use mycat_js.Net.Message.{
  Message, read_length, write_length_encoded, length_encoded_of, buffer_length,
  write_bytes_with_length, read_bytes_with_length,
}
use mycat_js.Net.Message.Lengths.{length_encoding, length_value, read_length-write_length_encoded}
use mycat_js.Net.Message.Strings.{counted, chunk_of, read_bytes_with_length-write_bytes_with_length}

abbrev pub runtime : Platform
runtime = record {
  unsafe_bytes = λ n. replicate n 0;
  write_u16 = λ v. set_bytes (le_bytes 2 v);
  write_i64 = λ v. set_bytes (le_bytes 8 v);
}

pub runtime-IsPlatform : IsPlatform runtime
runtime-IsPlatform = record {
  unsafe_length = λ n. length-replicate n 0;
  u16_lem = λ v. refl;
  i64_lem = λ v. refl;
}

abbrev small_pool : Pool
small_pool = record {
  chunk_size = 8;
  page_size = 16;
  page_count = 2;
  total_size = 32;
  allocated = 0;
}

abbrev empty_memory : Memory
empty_memory = record { pool = small_pool; buffers = [] }

abbrev sixteen : Buffer
sixteen = record { size = 16; marked = true }

-- A coroutine waits to grow a buffer, and does so once another one is released.
abbrev waiting_calls : List Call
waiting_calls =
    allocates (some (pos 16)) false
    ∷ allocates (some (pos 16)) false
    ∷ resizes 0 (pos 20) true
    ∷ releases 1
    ∷ retries_resize 0 20 16
    ∷ []

run-IsAccounted_example : IsAccounted (run empty_memory waiting_calls)
unfolding step allocate resize
run-IsAccounted_example =
    run-IsAccounted empty_memory waiting_calls (record { counted = refl; bounded = omega arith })
      (tt, (tt, (tt, (tt, ((sixteen, refl, refl, refl, omega arith), tt)))))

allocate_pos_example :
    (size : ℕ) × (size % 8 ≡ 0)
    × (10 ≤ size)
    × (size < 10 + 8)
    × (allocate small_pool (some (pos 10)) true ≡ (
        if ltb 32 (size + 0)
        then waits size
        else done
            (record { size = size; marked = true })
            (record small_pool { allocated = 0 + size })))
allocate_pos_example = allocate_pos small_pool 10 true (omega arith) (omega arith)

abbrev room : Bytes
room = replicate 12 0

read_length-write_length_encoded_example :
    let written = overwrite room 1 (length_encoding 70000) in
    (write_length_encoded runtime (pos 70000) room 1
      ≡ ok (written, 1 + length_encoded_of (pos 70000)))
    × (read_length (record { bytes = written; length = 12; position = 1 })
        ≡ ok (
          length_value 70000,
          record { bytes = written; length = 12; position = 1 + length_encoded_of (pos 70000) },
        ))
unfolding length_encoded_of
read_length-write_length_encoded_example =
    read_length-write_length_encoded runtime room 1 12 70000 runtime-IsPlatform (omega arith)
      (omega arith)

abbrev word : Bytes
word = 109 ∷ 121 ∷ 99 ∷ 97 ∷ 116 ∷ []

read_bytes_with_length-write_bytes_with_length_example :
    let written = overwrite room 2 (counted word) in
    (write_bytes_with_length runtime 251 (some word) room 2 ≡ ok (written, 2 + buffer_length word))
    × (read_bytes_with_length runtime (record { bytes = written; length = 12; position = 2 })
        ≡ ok (
          some (chunk_of word),
          record { bytes = written; length = 12; position = 2 + buffer_length word },
        ))
unfolding buffer_length length_encoded_of
read_bytes_with_length-write_bytes_with_length_example =
    read_bytes_with_length-write_bytes_with_length runtime room 2 12 251 word runtime-IsPlatform
      (omega arith) (omega arith)

abbrev ended_word : Message
ended_word = record { bytes = 7 ∷ (word ++ 0 ∷ 9 ∷ []); length = 8; position = 1 }

-- ===== src/Net/Buffer/Shrink.antt =====
-- `shrink` and `unwrite`, which trust the indices more than they may.
use ssxrver.Prelude.{
  ℕ, ◌+◌, ◌-◌, ◌%◌, ◌^◌, ◌≤◌, ◌<◌, ◌≡◌, none, some, arith, length, length-append, take, replicate,
  length-take, length-replicate,
}
use ssxrver.Net.Buffer.{
  Buffer, init_size, shrink, unwrite, readable_bytes, writeable_bytes, resize,
  ensure_writable_bytes,
}
use ssxrver.Net.Buffer.Views.{IsValid}

-- Without a compaction `shrink` may cut the storage below the writer index.
shrink_breaks :
    (b : Buffer) (reserve : ℕ)
    → IsValid b
    → readable_bytes b + reserve ≤ writeable_bytes b
    → readable_bytes b + reserve + init_size < b.writer_index
    → (b' : Buffer) × (shrink b reserve ≡ some b') × (length b'.bytes < b'.writer_index)
unfolding shrink ensure_writable_bytes
shrink_breaks b reserve v room far =
    let size = readable_bytes b + reserve + init_size in
    (
      record b { bytes = resize b.bytes size },
      ground arith,
      omega (
        arith,
        length-append (take size b.bytes) (replicate (size - length b.bytes) 0),
        length-take size b.bytes,
        length-replicate {A = ℕ} (size - length b.bytes) 0,
        v,
      ),
    )

-- A full buffer cannot take back anything, though `unwrite` is there to undo writes.
unwrite_full :
    (b : Buffer) (len : ℕ)
    → IsValid b
    → b.writer_index ≡ length b.bytes
    → 0 < len
    → unwrite b len ≡ none
unfolding unwrite
unwrite_full b len v full h = ground arith

-- And an `unwrite` past the reader index is let through.
unwrite_breaks :
    (b : Buffer) (len : ℕ)
    → IsValid b
    → length b.bytes < 2 ^ 64
    → readable_bytes b < len
    → len ≤ b.writer_index
    → len ≤ writeable_bytes b
    → (b' : Buffer) × (unwrite b len ≡ some b') × (b'.writer_index < b'.reader_index)
unfolding unwrite
unwrite_breaks b len v small past h room = (
  record b { writer_index = (b.writer_index + 2 ^ 64 - len) % 2 ^ 64 },
  ground arith,
  omega arith,
)

-- ===== src/Net/Buffer.antt =====
-- net/Buffer.h and net/Buffer.cpp: the byte buffer of a connection.
--
-- `Buffer` holds the three fields of the class; a pointer into the storage is an offset into
-- `bytes`. A method that the source guards by `assert` returns an `Option`, and `none` is the
-- abort. Index arithmetic on `size_t` is written as on ℕ where an assertion or an enclosing test
-- rules a wrap out, and with the wrap where none does (`unwrite`).
mod Tests
pub mod Views
pub mod Fifo
pub mod Refinement
pub mod Prepend
pub mod Ints
pub mod Search
pub mod ReadFd
pub mod Shrink
use ssxrver.Prelude.{
  ℕ, ◌+◌, ◌-◌, ◌*◌, ◌/◌, ◌%◌, ◌^◌, List, [], ◌∷◌, ◌++◌, Bool, true, false, ◌&&◌, Option, none, some,
  ltb, leb, ◌==◌, if◌then◌else◌, length, take, drop, replicate, ◌>>=◌, ◌>>◌, assert,
}

-- `kPrepend` and `kInitSize`.
abbrev pub prepend_size : ℕ
prepend_size = 8

abbrev pub init_size : ℕ
init_size = 1024

pub record Buffer : Type 0 where
  pub bytes : List ℕ
  pub reader_index : ℕ
  pub writer_index : ℕ

unfoldable pub new : ℕ → Buffer
new initial_size = record {
  bytes = replicate (prepend_size + initial_size) 0;
  reader_index = prepend_size;
  writer_index = prepend_size;
}

-- `b.swap(rhs)`: the new contents of `b` and of `rhs`.
unfoldable pub swap : Buffer → Buffer → Buffer × Buffer
swap b rhs = (
  record { bytes = rhs.bytes; reader_index = rhs.reader_index; writer_index = rhs.writer_index },
  record { bytes = b.bytes; reader_index = b.reader_index; writer_index = b.writer_index },
)

abbrev pub readable_bytes : Buffer → ℕ
readable_bytes b = b.writer_index - b.reader_index

abbrev pub writeable_bytes : Buffer → ℕ
writeable_bytes b = length b.bytes - b.writer_index

abbrev pub prependable_bytes : Buffer → ℕ
prependable_bytes b = b.reader_index

-- The bytes from offset `from` up to offset `to`, as a pair of pointers denotes them.
abbrev pub slice : List ℕ → ℕ → ℕ → List ℕ
slice bs from to = take (to - from) (drop from bs)

-- What `peek()` and `readableBytes()` denote together.
abbrev pub contents : Buffer → List ℕ
contents b = slice b.bytes b.reader_index b.writer_index

-- `std::copy` and `readv` into the storage: the bytes from offset `at` on are replaced by `src`.
abbrev pub copy_at : List ℕ → ℕ → List ℕ → List ℕ
copy_at bs at src = take at bs ++ (src ++ drop (at + length src) bs)

-- `std::vector::resize`.
abbrev pub resize : List ℕ → ℕ → List ℕ
resize bs n = take n bs ++ replicate (n - length bs) 0

unfoldable pub retrieve_all : Buffer → Buffer
retrieve_all b = record b { reader_index = prepend_size; writer_index = prepend_size }

unfoldable pub retrieve : Buffer → ℕ → Option Buffer
unfolding retrieve_all
retrieve b len = do
  assert (leb len (readable_bytes b))
  some (
      if ltb len (readable_bytes b)
      then record b { reader_index = b.reader_index + len }
      else retrieve_all b)

-- `end` is an offset into the storage.
unfoldable pub retrieve_until : Buffer → ℕ → Option Buffer
retrieve_until b end = do
  assert (leb b.reader_index end)
  assert (leb end b.writer_index)
  retrieve b (end - b.reader_index)

unfoldable pub retrieve_as_string : Buffer → ℕ → Option (List ℕ × Buffer)
retrieve_as_string b len = do
  assert (leb len (readable_bytes b))
  let result = take len (drop b.reader_index b.bytes)
  b' ← retrieve b len
  some (result, b')

unfoldable pub retrieve_all_as_string : Buffer → Option (List ℕ × Buffer)
retrieve_all_as_string b = retrieve_as_string b (readable_bytes b)

unfoldable pub make_space : Buffer → ℕ → Option Buffer
make_space b len =
    if ltb (writeable_bytes b + prependable_bytes b) (len + prepend_size)
    then some (record b { bytes = resize b.bytes (b.writer_index + len) })
    else (do
      assert (ltb prepend_size b.reader_index)
      let readable = readable_bytes b
      some (record {
        bytes = copy_at b.bytes prepend_size (slice b.bytes b.reader_index b.writer_index);
        reader_index = prepend_size;
        writer_index = prepend_size + readable;
      }))

unfoldable pub ensure_writable_bytes : Buffer → ℕ → Option Buffer
ensure_writable_bytes b len = if ltb (writeable_bytes b) len then make_space b len else some b

unfoldable pub has_written : Buffer → ℕ → Option Buffer
has_written b len = do
  assert (leb len (writeable_bytes b))
  some (record b { writer_index = b.writer_index + len })

-- `writerIndex_ -= len` wraps: the assertion bounds `len` by the free space, not by the index.
unfoldable pub unwrite : Buffer → ℕ → Option Buffer
unwrite b len = do
  assert (leb len (writeable_bytes b))
  some (record b { writer_index = (b.writer_index + 2 ^ 64 - len) % 2 ^ 64 })

unfoldable pub append : Buffer → List ℕ → Option Buffer
append b src = do
  b' ← ensure_writable_bytes b (length src)
  has_written (record b' { bytes = copy_at b'.bytes b'.writer_index src }) (length src)

unfoldable pub prepend : Buffer → List ℕ → Option Buffer
prepend b src = do
  assert (leb (length src) (prependable_bytes b))
  let start = b.reader_index - length src
  some (record b { bytes = copy_at b.bytes start src; reader_index = start })

-- `shrink_to_fit` changes the capacity only.
unfoldable pub shrink : Buffer → ℕ → Option Buffer
shrink b reserve = do
  b' ← ensure_writable_bytes b (readable_bytes b + reserve)
  some (record b' { bytes = resize b'.bytes (readable_bytes b' + reserve + init_size) })

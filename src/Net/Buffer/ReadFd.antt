-- ===== src/Net/Buffer/ReadFd.antt =====
-- net/Buffer.cpp: `readFd`, which reads into the free space and a second block on the stack.
use ssxrver.Prelude.{
  ℕ, ◌+◌, ◌≤◌, ◌≡◌, refl, sym, ap, ◌∙◌, inl, inr, Option, some, List, [], ◌++◌, append-nil,
  append_assoc, arith, ltb, leb, if◌then◌else◌, Bool-cases, length, take, drop, take-append-drop,
  length-take,
}
use ssxrver.Net.Buffer.{Buffer, append, contents, copy_at, writeable_bytes}
use ssxrver.Net.Buffer.Views.{IsValid}
use ssxrver.Net.Buffer.Fifo.{append_lem, written, written_lem, length-written}

-- What `readv` answers: an `errno`, or the bytes that it put into the two blocks in order.
pub data ReadResult : Type 0 where
  failed : ℕ → ReadResult
  received : List ℕ → ReadResult

abbrev pub extra_size : ℕ
extra_size = 65536

-- The space that the `iovcnt` blocks offer to `readv`.
unfoldable pub iov_capacity : Buffer → ℕ
iov_capacity b =
    if ltb (writeable_bytes b) extra_size then writeable_bytes b + extra_size else writeable_bytes b

-- The caller keeps `n` and `*savedErrno`, which are in the `ReadResult`.
unfoldable pub read_fd : Buffer → ReadResult → Option Buffer
read_fd b (failed errno) = some b
read_fd b (received bs) =
    let writable = writeable_bytes b in
    if leb (length bs) writable
    then some (record b {
      bytes = copy_at b.bytes b.writer_index bs;
      writer_index = b.writer_index + length bs;
    })
    else append
        (record b {
          bytes = copy_at b.bytes b.writer_index (take writable bs);
          writer_index = length (copy_at b.bytes b.writer_index (take writable bs));
        })
        (drop writable bs)

abbrev pub received_bytes : ReadResult → List ℕ
received_bytes (failed errno) = []
received_bytes (received bs) = bs

-- Whatever `readv` delivers to a valid buffer, in one block or two, is appended to the readable part;
-- a failed read leaves it alone; no read aborts.
pub read_fd_lem :
    (b : Buffer) (r : ReadResult)
    → IsValid b
    → (b' : Buffer) × (read_fd b r ≡ some b')
      × IsValid b'
      × (contents b' ≡ contents b ++ received_bytes r)
unfolding read_fd written
read_fd_lem b (failed errno) v = (b, refl, v, sym (append-nil (contents b)))
read_fd_lem b (received bs) v = elim (Bool-cases (leb (length bs) (writeable_bytes b))) [
  | inl fits ↦
      let (ok, whole) = written_lem b bs v (ground arith) in (written b bs, rw fits refl, ok, whole)
  | inr more ↦
      let w = writeable_bytes b in
      let room : length (take w bs) ≤ w = omega (arith, length-take w bs) in
      let cut : length (take w bs) ≡ w = ground (arith, length-take w bs) in
      let full : length (written b (take w bs)).bytes ≡ b.writer_index + length (take w bs) =
        omega (arith, length-written b (take w bs) room v.inside, v, cut) in
      let (ok, whole) = written_lem b (take w bs) v room in
      let (b', e, ok', whole') = append_lem (written b (take w bs)) (drop w bs) ok in
      (
        b',
        rw more (
            ap
              (λ n.
                append
                  (record b {
                    bytes = copy_at b.bytes b.writer_index (take w bs);
                    writer_index = n;
                  })
                  (drop w bs))
              full
            ∙ e),
        ok',
        whole'
            ∙ ap (λ t. t ++ drop w bs) whole
            ∙ append_assoc (contents b) (take w bs) (drop w bs)
            ∙ ap (◌++◌ (contents b)) (take-append-drop w bs),
      )
]

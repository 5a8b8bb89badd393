-- ===== src/Net/Buffer/Fifo.antt =====
-- The buffer as a byte queue: each method on a valid buffer, stated on `contents`.
use ssxrver.Prelude.{
  ℕ, ◌+◌, ◌-◌, ◌≤◌, ◌<◌, ◌≡◌, refl, sym, ap, ◌∙◌, inl, inr, List, ◌++◌, some, arith, length, take,
  drop, length-append, length-take, length-drop, length-replicate, take_all, drop_all, drop-drop,
  drop-take, take-append, append_assoc, Bool-cases, ltb, leb, true, if◌then◌else◌, replicate,
}
use ssxrver.Net.Buffer.{
  Buffer, prepend_size, retrieve, retrieve_until, retrieve_all, make_space, ensure_writable_bytes,
  has_written, append, contents, readable_bytes, writeable_bytes, copy_at, resize,
}
use ssxrver.Net.Buffer.Views.{
  IsValid, Splits, front, back, length-contents, valid-Splits, Splits-contents, Splits-IsValid,
}

-- Skipping `n` of the readable bytes.
slice-skip :
    (xs : List ℕ) (r w n : ℕ)
    → r + n ≤ w
    → take (w - (r + n)) (drop (r + n) xs) ≡ drop n (take (w - r) (drop r xs))
slice-skip xs r w n h =
    let e : w - r ≡ n + (w - (r + n)) = omega arith in
    rw (e, drop-take n (w - (r + n)) (drop r xs), drop-drop n r xs) refl

skip : (b : Buffer) → ℕ → Buffer
unfolding retrieve_all
skip b len =
    if ltb len (readable_bytes b)
    then record b { reader_index = b.reader_index + len }
    else retrieve_all b

skip_lem :
    (b : Buffer) (len : ℕ)
    → IsValid b
    → len ≤ readable_bytes b
    → IsValid (skip b len) × (contents (skip b len) ≡ drop len (contents b))
unfolding skip
skip_lem b len v h = elim (Bool-cases (ltb len (readable_bytes b))) [
  | inl more ↦
      rw more (ground arith, slice-skip b.bytes b.reader_index b.writer_index len (ground arith))
  | inr all ↦ rw all (
    record { ordered = omega arith; inside = v.roomy; roomy = v.roomy },
    sym (drop_all len (contents b) (ground (arith, length-contents b v))),
  )
]

-- Retrieving at most the readable bytes from a valid buffer never aborts, keeps it valid, and drops
-- them from the front.
pub retrieve_lem :
    (b : Buffer) (len : ℕ)
    → IsValid b
    → len ≤ readable_bytes b
    → (b' : Buffer) × (retrieve b len ≡ some b')
      × IsValid b'
      × (contents b' ≡ drop len (contents b))
unfolding retrieve skip
retrieve_lem b len v h = let (ok, same) = skip_lem b len v h in (skip b len, ground arith, ok, same)

-- `retrieveUntil` of a pointer into the readable bytes.
pub retrieve_until_lem :
    (b : Buffer) (len : ℕ)
    → IsValid b
    → len ≤ readable_bytes b
    → retrieve_until b (b.reader_index + len) ≡ retrieve b len
unfolding retrieve_until
retrieve_until_lem b len v h = rw (inside.0, inside.1) (ap (retrieve b) (omega (arith)))
  where
    inside :
        (leb b.reader_index (b.reader_index + len) ≡ true)
        × (leb (b.reader_index + len) b.writer_index ≡ true)
    inside = (ground (arith, v.ordered), ground (arith, v.ordered))

grown : Buffer → ℕ → Buffer
grown b len = record b { bytes = resize b.bytes (b.writer_index + len) }

grown_lem :
    (b : Buffer) (len : ℕ)
    → IsValid b
    → writeable_bytes b < len
    → IsValid (grown b len)
      × (contents (grown b len) ≡ contents b)
      × (len ≤ writeable_bytes (grown b len))
unfolding grown
grown_lem b len v h = (
  Splits-IsValid (front b) (contents b) (back b ++ zeros) grown_Splits
      (omega (arith, size_grown, v)),
  Splits-contents (front b) (contents b) (back b ++ zeros) grown_Splits,
  omega (arith, size_grown),
)
  where
    zeros : List ℕ
    zeros = replicate (b.writer_index + len - length b.bytes) 0

    all : resize b.bytes (b.writer_index + len) ≡ b.bytes ++ zeros
    all = ap (λ t. t ++ zeros) (take_all (b.writer_index + len) b.bytes (omega arith))

    grown_Splits : Splits (grown b len) (front b) (contents b) (back b ++ zeros)
    grown_Splits = record {
      parts =
          all
          ∙ ap (λ t. t ++ zeros) (valid-Splits b v).parts
          ∙ append_assoc (front b) (contents b ++ back b) zeros
          ∙ ap (◌++◌ (front b)) (append_assoc (contents b) (back b) zeros);
      reader = (valid-Splits b v).reader;
      writer = (valid-Splits b v).writer;
    }

    size_grown : length (grown b len).bytes ≡ b.writer_index + len
    size_grown = omega (
      arith,
      ap length all,
      length-append b.bytes zeros,
      length-replicate {A = ℕ} (b.writer_index + len - length b.bytes) 0,
    )

moved : Buffer → Buffer
moved b = record {
  bytes = copy_at b.bytes prepend_size (contents b);
  reader_index = prepend_size;
  writer_index = prepend_size + readable_bytes b;
}

moved_lem :
    (b : Buffer) (len : ℕ)
    → IsValid b
    → len + prepend_size ≤ writeable_bytes b + b.reader_index
    → IsValid (moved b) × (contents (moved b) ≡ contents b) × (len ≤ writeable_bytes (moved b))
unfolding moved
moved_lem b len v h = (
  Splits-IsValid (take prepend_size b.bytes) (contents b) rest moved_Splits
      (omega (arith, size_moved, v)),
  Splits-contents (take prepend_size b.bytes) (contents b) rest moved_Splits,
  omega (arith, size_moved, v),
)
  where
    rest : List ℕ
    rest = drop (prepend_size + length (contents b)) b.bytes

    moved_Splits : Splits (moved b) (take prepend_size b.bytes) (contents b) rest
    moved_Splits = record {
      parts = refl;
      reader = omega (arith, length-take prepend_size b.bytes, v);
      writer = omega (arith, length-take prepend_size b.bytes, length-contents b v, v);
    }

    size_moved : length (moved b).bytes ≡ length b.bytes
    size_moved = omega (
      arith,
      length-append (take prepend_size b.bytes) (contents b ++ rest),
      length-append (contents b) rest,
      length-take prepend_size b.bytes,
      length-drop (prepend_size + length (contents b)) b.bytes,
      length-contents b v,
      v,
    )

-- What `ensure_writable_bytes` promises `append`.
ensure_lem :
    (b : Buffer) (len : ℕ)
    → IsValid b
    → (b' : Buffer) × (ensure_writable_bytes b len ≡ some b')
      × IsValid b'
      × (contents b' ≡ contents b)
      × (len ≤ writeable_bytes b')
unfolding ensure_writable_bytes make_space grown moved
ensure_lem b len v = elim (Bool-cases (ltb (writeable_bytes b) len)) [
  | inr roomy ↦ (b, rw roomy, v, refl, ground arith)
  | inl short ↦ elim (Bool-cases (ltb (writeable_bytes b + b.reader_index) (len + prepend_size))) [
    | inl full ↦
        let (ok, same, room) = grown_lem b len v (ground arith) in
        (grown b len, rw (short, full), ok, same, room)
    | inr slack ↦
        let (ok, same, room) = moved_lem b len v (ground arith) in
        (moved b, rw (short, slack) (ground arith), ok, same, room)
  ]
]

-- A copy to the writer index, and the index moved past it.
unfoldable pub written : Buffer → List ℕ → Buffer
written b src = record b {
  bytes = copy_at b.bytes b.writer_index src;
  writer_index = b.writer_index + length src;
}

pub length-written :
    (b : Buffer) (src : List ℕ)
    → length src ≤ writeable_bytes b
    → b.writer_index ≤ length b.bytes
    → length (written b src).bytes ≡ length b.bytes
unfolding written
length-written b src h v =
    let rest = drop (b.writer_index + length src) b.bytes in
    omega (
      arith,
      length-append (take b.writer_index b.bytes) (src ++ rest),
      length-append src rest,
      length-take b.writer_index b.bytes,
      length-drop (b.writer_index + length src) b.bytes,
    )

pub written_lem :
    (b : Buffer) (src : List ℕ)
    → IsValid b
    → length src ≤ writeable_bytes b
    → IsValid (written b src) × (contents (written b src) ≡ contents b ++ src)
unfolding written
written_lem b src v h = (
  Splits-IsValid (front b) (contents b ++ src) rest written_Splits
      (omega (arith, length-written b src h v.inside, v)),
  Splits-contents (front b) (contents b ++ src) rest written_Splits,
)
  where
    rest : List ℕ
    rest = drop (b.writer_index + length src) b.bytes

    s : Splits b (front b) (contents b) (back b)
    s = valid-Splits b v

    before : take b.writer_index b.bytes ≡ front b ++ contents b
    before =
        ap (take b.writer_index) (s.parts ∙ sym (append_assoc (front b) (contents b) (back b)))
        ∙ take-append (front b ++ contents b) (back b)
            (omega (arith, s.writer, length-append (front b) (contents b)))

    written_Splits : Splits (written b src) (front b) (contents b ++ src) rest
    written_Splits = record {
      parts =
          ap (λ t. t ++ (src ++ rest)) before
          ∙ append_assoc (front b) (contents b) (src ++ rest)
          ∙ ap (◌++◌ (front b)) (sym (append_assoc (contents b) src rest));
      reader = s.reader;
      writer = omega (arith, s.writer, length-append (contents b) src);
    }

has_written-written :
    (b : Buffer) (src : List ℕ)
    → IsValid b
    → length src ≤ writeable_bytes b
    → has_written (record b { bytes = copy_at b.bytes b.writer_index src }) (length src)
      ≡ some (written b src)
unfolding has_written written
has_written-written b src v h = ground (arith, length-written b src h v.inside)

-- Appending to a valid buffer never aborts, keeps it valid, and puts the bytes behind those held.
pub append_lem :
    (b : Buffer) (src : List ℕ)
    → IsValid b
    → (b' : Buffer) × (append b src ≡ some b') × IsValid b' × (contents b' ≡ contents b ++ src)
unfolding append
append_lem b src v =
    let (b', e, ok, same, room) = ensure_lem b (length src) v in
    let (ok', whole) = written_lem b' src ok room in
    (
      written b' src,
      rw e (has_written-written b' src ok room),
      ok',
      rw whole (ap (λ t. t ++ src) same),
    )

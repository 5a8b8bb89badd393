-- ===== src/Net/Buffer/Views.antt =====
-- How a valid buffer splits into the bytes before, in and after its readable part.
use ssxrver.Prelude.{
  ℕ, ◌+◌, ◌≤◌, ◌≡◌, sym, ap, ◌∙◌, List, ◌++◌, arith, length, take, drop, length-append, length-take,
  length-drop, take-append-drop, take-append, drop-append, append_assoc,
}
use ssxrver.Net.Buffer.{Buffer, prepend_size, contents, readable_bytes, copy_at}

-- The indices are in order and inside the storage, which has room for the prepended bytes.
pub record IsValid (b : Buffer) : Type 0 where
  pub ordered : b.reader_index ≤ b.writer_index
  pub inside : b.writer_index ≤ length b.bytes
  pub roomy : prepend_size ≤ length b.bytes

pub record Splits (b : Buffer) (before mid after : List ℕ) : Type 0 where
  pub parts : b.bytes ≡ before ++ (mid ++ after)
  pub reader : b.reader_index ≡ length before
  pub writer : b.writer_index ≡ length before + length mid

abbrev pub front : Buffer → List ℕ
front b = take b.reader_index b.bytes

abbrev pub back : Buffer → List ℕ
back b = drop (readable_bytes b) (drop b.reader_index b.bytes)

pub length-front : (b : Buffer) → IsValid b → length (front b) ≡ b.reader_index
length-front b v = omega (arith, length-take b.reader_index b.bytes, v)

pub length-contents : (b : Buffer) → IsValid b → length (contents b) ≡ readable_bytes b
length-contents b v = omega (
  arith,
  length-take (readable_bytes b) (drop b.reader_index b.bytes),
  length-drop b.reader_index b.bytes,
  v,
)

pub valid-Splits : (b : Buffer) → IsValid b → Splits b (front b) (contents b) (back b)
valid-Splits b v = record {
  parts = sym (
      ap (◌++◌ (front b)) (take-append-drop (readable_bytes b) (drop b.reader_index b.bytes))
      ∙ take-append-drop b.reader_index b.bytes);
  reader = omega (arith, length-front b v);
  writer = omega (arith, length-front b v, length-contents b v, v);
}

pub Splits-contents :
    {b : Buffer} (before mid after : List ℕ) → Splits b before mid after → contents b ≡ mid
Splits-contents {b} before mid after s =
    rw (s.parts, drop-append before (mid ++ after) s.reader)
      (take-append mid after (omega (arith, s.reader, s.writer)))

pub Splits-IsValid :
    {b : Buffer} (before mid after : List ℕ)
    → Splits b before mid after
    → prepend_size ≤ length b.bytes
    → IsValid b
Splits-IsValid {b} before mid after s h = record {
  ordered = omega (arith, s.reader, s.writer);
  inside = omega (
    arith,
    s.reader,
    s.writer,
    ap length s.parts,
    length-append before (mid ++ after),
    length-append mid after,
  );
  roomy = h;
}

-- A copy over a stretch of the same length replaces just that stretch.
pub copy_at_over :
    (before old src after : List ℕ) (at : ℕ)
    → at ≡ length before
    → length src ≡ length old
    → copy_at (before ++ (old ++ after)) at src ≡ before ++ (src ++ after)
copy_at_over before old src after at e h = rw (take-append before (old ++ after) e) (
    ap (λ t. before ++ (src ++ t))
      (rw (sym (append_assoc before old after))
        (drop-append (before ++ old) after (omega (arith, e, h, length-append before old)))))

-- ===== src/Net/Buffer/Prepend.antt =====
-- `prepend`: bytes written in front of the readable part.
use ssxrver.Prelude.{
  ℕ, ◌+◌, ◌-◌, ◌≤◌, ◌≡◌, sym, ap, ◌∙◌, some, List, ◌++◌, append_assoc, arith, length, length-append,
  take, drop, take-append-drop, length-take, length-drop,
}
use ssxrver.Net.Buffer.{Buffer, prepend, contents, copy_at}
use ssxrver.Net.Buffer.Views.{
  IsValid, Splits, front, back, length-front, length-contents, valid-Splits, Splits-contents,
  Splits-IsValid, copy_at_over,
}

prepended : Buffer → List ℕ → Buffer
prepended b src =
    let start = b.reader_index - length src in
    record b { bytes = copy_at b.bytes start src; reader_index = start }

module _ (b : Buffer) (src : List ℕ) (v : IsValid b) (h : length src ≤ b.reader_index) where
  start : ℕ
  start = b.reader_index - length src

  old : List ℕ
  old = drop start (front b)

  split_front : front b ≡ take start (front b) ++ old
  unfolding old
  split_front = sym (take-append-drop start (front b))

  whole : b.bytes ≡ take start (front b) ++ (old ++ (contents b ++ back b))
  whole =
      (valid-Splits b v).parts
      ∙ ap (λ t. t ++ (contents b ++ back b)) split_front
      ∙ append_assoc (take start (front b)) old (contents b ++ back b)

  length-start : length (take start (front b)) ≡ start
  unfolding start
  length-start = omega (arith, length-take start (front b), length-front b v)

  prepended-Splits : Splits (prepended b src) (take start (front b)) (src ++ contents b) (back b)
  unfolding prepended start old
  prepended-Splits = record {
    parts =
        ap (λ t. copy_at t start src) whole
        ∙ copy_at_over (take start (front b)) old src (contents b ++ back b) start
            (sym length-start) (omega (arith, length-drop start (front b), length-front b v))
        ∙ ap (◌++◌ (take start (front b))) (sym (append_assoc src (contents b) (back b)));
    reader = sym length-start;
    writer = omega (arith, length-start, length-append src (contents b), length-contents b v, h, v);
  }

  length-prepended : length (prepended b src).bytes ≡ length b.bytes
  unfolding prepended
  length-prepended =
      let at = b.reader_index - length src in
      omega (
        arith,
        length-append (take at b.bytes) (src ++ drop (at + length src) b.bytes),
        length-append src (drop (at + length src) b.bytes),
        length-take at b.bytes,
        length-drop (at + length src) b.bytes,
        h,
        v,
      )

  -- Prepending what fits before the readable part of a valid buffer never aborts, keeps it valid, and
  -- the bytes come first.
  pub prepend_lem :
      (b' : Buffer) × (prepend b src ≡ some b') × IsValid b' × (contents b' ≡ src ++ contents b)
  unfolding prepend prepended
  prepend_lem = (
    prepended b src,
    ground arith,
    Splits-IsValid (take start (front b)) (src ++ contents b) (back b) prepended-Splits
        (omega (arith, length-prepended, v)),
    Splits-contents (take start (front b)) (src ++ contents b) (back b) prepended-Splits,
  )

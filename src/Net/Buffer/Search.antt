-- ===== src/Net/Buffer/Search.antt =====
-- The searches of net/Buffer.h. A pointer into the storage is an offset, and `nullptr` is `none`.
use ssxrver.Prelude.{
  ℕ, suc, ◌+◌, ◌≤◌, ◌<◌, ◌≡◌, ap, ◌≢◌, ◌⊎◌, inl, inr, Bool, false, ◌&&◌, Option, none, some, List,
  [], ◌∷◌, ◌++◌, arith, leb, ◌==◌, if◌then◌else◌, ==_iff, Bool-cases, length, length-append, take,
  length-take, ◌>>=◌, ◌>>◌, assert,
}
use ssxrver.Net.Buffer.{Buffer, contents, slice}
use ssxrver.Net.Buffer.Views.{IsValid, length-contents}

abbrev pub cr : ℕ
cr = 13

abbrev pub lf : ℕ
lf = 10

starts_lf : List ℕ → Bool
starts_lf [] = false
starts_lf (c ∷ cs) = c == lf

-- `std::search` for "\r\n": the distance to the first match, or to the end.
first_crlf : List ℕ → ℕ
first_crlf [] = 0
first_crlf (c ∷ cs) = if c == cr && starts_lf cs then 0 else suc (first_crlf cs)

-- `memchr` for '\n'.
first_lf : List ℕ → Option ℕ
first_lf [] = none
first_lf (c ∷ cs) = if c == lf then some 0 else (first_lf cs >>= λ n. some (suc n))

unfoldable pub find_crlf : Buffer → Option ℕ
unfolding first_crlf starts_lf
find_crlf b =
    let at = b.reader_index + first_crlf (contents b) in
    if at == b.writer_index then none else some at

-- The outer `none` is a failed assertion.
unfoldable pub find_crlf_from : Buffer → ℕ → Option (Option ℕ)
unfolding first_crlf starts_lf
find_crlf_from b start = do
  assert (leb b.reader_index start)
  assert (leb start b.writer_index)
  let at = start + first_crlf (slice b.bytes start b.writer_index)
  some (if at == b.writer_index then none else some at)

unfoldable pub find_eol : Buffer → Option ℕ
unfolding first_lf
find_eol b = first_lf (contents b) >>= λ n. some (b.reader_index + n)

unfoldable pub find_eol_from : Buffer → ℕ → Option (Option ℕ)
unfolding first_lf
find_eol_from b start = do
  assert (leb b.reader_index start)
  assert (leb start b.writer_index)
  some (first_lf (slice b.bytes start b.writer_index) >>= λ n. some (start + n))

-- No match starts before the one that is found.
first_crlf-le : (before rest : List ℕ) → first_crlf (before ++ (cr ∷ lf ∷ rest)) ≤ length before
unfolding first_crlf starts_lf
first_crlf-le [] rest = omega arith
first_crlf-le (c ∷ before) rest = ground (arith, first_crlf-le before rest)

first_crlf-le-length : (xs : List ℕ) → first_crlf xs ≤ length xs
unfolding first_crlf starts_lf
first_crlf-le-length [] = omega arith
first_crlf-le-length (c ∷ cs) = ground (arith, first_crlf-le-length cs)

-- What stands at a match.
first_crlf-match :
    (xs : List ℕ)
    → first_crlf xs < length xs
    → (rest : List ℕ) × (xs ≡ take (first_crlf xs) xs ++ (cr ∷ lf ∷ rest))
unfolding first_crlf starts_lf
first_crlf-match [] h = absurd (omega arith)
first_crlf-match (c ∷ []) h = absurd (ground arith)
first_crlf-match (c ∷ d ∷ cs) h = elim (Bool-cases (c == cr && d == lf)) [
  | inl hit ↦ (cs, rw hit (ground arith))
  | inr miss ↦
      let (rest, e) = first_crlf-match (d ∷ cs) (ground arith) in (rest, rw miss (ap (◌∷◌ c) e))
]

-- The readable part has no line end.
abbrev pub LacksCrlf : List ℕ → Type 0
LacksCrlf xs = (before rest : List ℕ) → xs ≢ before ++ (cr ∷ lf ∷ rest)

-- The offset `at` is that of the first line end of the readable part.
pub record IsFirstCrlf (b : Buffer) (at : ℕ) : Type 0 where
  pub before : List ℕ
  pub rest : List ℕ
  pub found : contents b ≡ before ++ (cr ∷ lf ∷ rest)
  pub place : at ≡ b.reader_index + length before
  pub first :
      (other rest' : List ℕ)
      → contents b ≡ other ++ (cr ∷ lf ∷ rest')
      → length before ≤ length other

found_first :
    (b : Buffer)
    → IsValid b
    → first_crlf (contents b) < length (contents b)
    → IsFirstCrlf b (b.reader_index + first_crlf (contents b))
found_first b v h =
    let (rest, e) = first_crlf-match (contents b) h in
    record {
      before = take (first_crlf (contents b)) (contents b);
      rest = rest;
      found = e;
      place = omega (arith, length-take (first_crlf (contents b)) (contents b));
      first = λ other rest' o. omega (
        arith,
        length-take (first_crlf (contents b)) (contents b),
        first_crlf-le other rest',
        ap first_crlf o,
      );
    }

-- On a valid buffer `findCRLF` answers null exactly where there is no line end, and else gives the
-- first one.
pub find_crlf_lem :
    (b : Buffer)
    → IsValid b
    → ((find_crlf b ≡ none) × LacksCrlf (contents b))
      ⊎ ((at : ℕ) × (find_crlf b ≡ some at) × IsFirstCrlf b at)
unfolding find_crlf
find_crlf_lem b v = elim (Bool-cases (b.reader_index + first_crlf (contents b) == b.writer_index)) [
  | inl missing ↦ inl (
    rw missing,
    λ before rest e. absurd (
        omega (
          arith,
          (==_iff (b.reader_index + first_crlf (contents b)) b.writer_index).0 missing,
          ap length e,
          length-append before (cr ∷ lf ∷ rest),
          first_crlf-le before rest,
          ap first_crlf e,
          length-contents b v,
          v,
        )),
  )
  | inr hit ↦ inr (
    b.reader_index + first_crlf (contents b),
    rw hit,
    found_first b v
        (ground (arith, first_crlf-le-length (contents b), length-contents b v, hit, v)),
  )
]

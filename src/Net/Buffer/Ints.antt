-- ===== src/Net/Buffer/Ints.antt =====
-- The integers of net/Buffer.h in network byte order. An `intN_t` is its bit pattern, a number
-- below 2 ^ N; `htobeN` with the copy of its memory is the list of its bytes, highest first.
use ssxrver.Prelude.{
  ℕ, zero, suc, ◌+◌, ◌*◌, ◌/◌, ◌%◌, ◌^◌, ◌≤◌, ◌<◌, ◌≡◌, refl, sym, ap, ◌∙◌, Option, some, List, [],
  ◌∷◌, ◌++◌, append-nil, arith, leb, length, length-append, take, drop, take-append, drop-append,
  take-take, ◌>>=◌, ◌>>◌, assert,
}
use native.Mathlib.Nat.{pow-suc}
use ssxrver.Net.Buffer.{Buffer, append, prepend, retrieve, readable_bytes, contents}
use ssxrver.Net.Buffer.Views.{IsValid, length-contents}
use ssxrver.Net.Buffer.Fifo.{append_lem, retrieve_lem}
use ssxrver.Net.Buffer.Prepend.{prepend_lem}

unfoldable pub to_be : ℕ → ℕ → List ℕ
to_be zero x = []
to_be (suc k) x = to_be k (x / 256) ++ ((x % 256) ∷ [])

from_be_onto : ℕ → List ℕ → ℕ
from_be_onto acc [] = acc
from_be_onto acc (b ∷ bs) = from_be_onto (acc * 256 + b) bs

unfoldable pub from_be : List ℕ → ℕ
unfolding from_be_onto
from_be = from_be_onto 0

unfoldable pub append_int64 : Buffer → ℕ → Option Buffer
append_int64 b x = append b (to_be 8 x)

unfoldable pub append_int32 : Buffer → ℕ → Option Buffer
append_int32 b x = append b (to_be 4 x)

unfoldable pub append_int16 : Buffer → ℕ → Option Buffer
append_int16 b x = append b (to_be 2 x)

unfoldable pub append_int8 : Buffer → ℕ → Option Buffer
append_int8 b x = append b (to_be 1 x)

unfoldable pub prepend_int64 : Buffer → ℕ → Option Buffer
prepend_int64 b x = prepend b (to_be 8 x)

unfoldable pub prepend_int32 : Buffer → ℕ → Option Buffer
prepend_int32 b x = prepend b (to_be 4 x)

unfoldable pub prepend_int16 : Buffer → ℕ → Option Buffer
prepend_int16 b x = prepend b (to_be 2 x)

unfoldable pub prepend_int8 : Buffer → ℕ → Option Buffer
prepend_int8 b x = prepend b (to_be 1 x)

-- `peekInt64` and its siblings: the first `k` readable bytes as a number.
peek_int : ℕ → Buffer → Option ℕ
peek_int k b = do
  assert (leb k (readable_bytes b))
  some (from_be (take k (drop b.reader_index b.bytes)))

unfoldable pub peek_int64 : Buffer → Option ℕ
unfolding peek_int
peek_int64 = peek_int 8

unfoldable pub peek_int32 : Buffer → Option ℕ
unfolding peek_int
peek_int32 = peek_int 4

unfoldable pub peek_int16 : Buffer → Option ℕ
unfolding peek_int
peek_int16 = peek_int 2

unfoldable pub peek_int8 : Buffer → Option ℕ
unfolding peek_int
peek_int8 = peek_int 1

-- `retrieveInt64` and its siblings.
unfoldable pub retrieve_int64 : Buffer → Option Buffer
retrieve_int64 b = retrieve b 8

unfoldable pub retrieve_int32 : Buffer → Option Buffer
retrieve_int32 b = retrieve b 4

unfoldable pub retrieve_int16 : Buffer → Option Buffer
retrieve_int16 b = retrieve b 2

unfoldable pub retrieve_int8 : Buffer → Option Buffer
retrieve_int8 b = retrieve b 1

unfoldable pub read_int64 : Buffer → Option (ℕ × Buffer)
unfolding peek_int64 retrieve_int64
read_int64 b = do result ← peek_int64 b; b' ← retrieve_int64 b; some (result, b')

unfoldable pub read_int32 : Buffer → Option (ℕ × Buffer)
unfolding peek_int32 retrieve_int32
read_int32 b = do result ← peek_int32 b; b' ← retrieve_int32 b; some (result, b')

unfoldable pub read_int16 : Buffer → Option (ℕ × Buffer)
unfolding peek_int16 retrieve_int16
read_int16 b = do result ← peek_int16 b; b' ← retrieve_int16 b; some (result, b')

unfoldable pub read_int8 : Buffer → Option (ℕ × Buffer)
unfolding peek_int8 retrieve_int8
read_int8 b = do result ← peek_int8 b; b' ← retrieve_int8 b; some (result, b')

length-to_be : (k x : ℕ) → length (to_be k x) ≡ k
unfolding to_be
length-to_be zero x = refl
length-to_be (suc k) x =
    omega (arith, length-append (to_be k (x / 256)) ((x % 256) ∷ []), length-to_be k (x / 256))

from_be_onto-append :
    (acc : ℕ) (xs ys : List ℕ) → from_be_onto acc (xs ++ ys) ≡ from_be_onto (from_be_onto acc xs) ys
unfolding from_be_onto
from_be_onto-append acc [] ys = refl
from_be_onto-append acc (x ∷ xs) ys = from_be_onto-append (acc * 256 + x) xs ys

-- `beNtoh` undoes `htobeN` on every value of `k` bytes.
from_be-to_be : (k x : ℕ) → x < 256 ^ k → from_be (to_be k x) ≡ x
unfolding to_be from_be
from_be-to_be zero x h = omega arith
from_be-to_be (suc k) x h =
    let small : x / 256 < 256 ^ k = omega (arith, pow-suc 256 k) in
    omega (
      arith,
      from_be_onto-append 0 (to_be k (x / 256)) ((x % 256) ∷ []),
      from_be-to_be k (x / 256) small,
    )

-- A valid buffer that starts with the bytes of `x` gives `x`, and the rest stays readable.
starts_with_int :
    (k x : ℕ) (rest : List ℕ) (b : Buffer)
    → IsValid b
    → x < 256 ^ k
    → contents b ≡ to_be k x ++ rest
    → (b' : Buffer) × (peek_int k b ≡ some x)
      × (retrieve b k ≡ some b')
      × IsValid b'
      × (contents b' ≡ rest)
unfolding peek_int
starts_with_int k x rest b v h e =
    let size : k ≤ readable_bytes b =
      omega (
        arith,
        ap length e,
        length-append (to_be k x) rest,
        length-to_be k x,
        length-contents b v,
      ) in
    let (b', r, ok, same) = retrieve_lem b k v size in
    let head : take k (drop b.reader_index b.bytes) ≡ to_be k x =
      sym (take-take k (readable_bytes b) (drop b.reader_index b.bytes) size)
      ∙ ap (take k) e
      ∙ take-append (to_be k x) rest (sym (length-to_be k x)) in
    (
      b',
      ground (arith, ap from_be head, from_be-to_be k x h),
      r,
      ok,
      same ∙ ap (drop k) e ∙ drop-append (to_be k x) rest (sym (length-to_be k x)),
    )

-- `read` after `prepend` gives the value back and restores the queue.
abbrev pub Restores :
    (Buffer → ℕ → Option Buffer) → (Buffer → Option (ℕ × Buffer)) → Buffer → ℕ → Type 0
Restores put read b x =
    (b' : Buffer) × (b'' : Buffer) × (put b x ≡ some b')
    × (read b' ≡ some (x, b''))
    × IsValid b''
    × (contents b'' ≡ contents b)

prepend_back :
    (k x : ℕ) (b : Buffer)
    → IsValid b
    → x < 256 ^ k
    → k ≤ b.reader_index
    → Restores
        (λ c y. prepend c (to_be k y))
        (λ c. peek_int k c >>= λ y. retrieve c k >>= λ c'. some (y, c'))
        b
        x
prepend_back k x b v h room =
    let (b', p, ok, same) = prepend_lem b (to_be k x) v (omega (arith, length-to_be k x)) in
    let (b'', peeked, taken, ok', left) = starts_with_int k x (contents b) b' ok h same in
    (b', b'', p, rw (peeked, taken), ok', left)

-- Each `prependIntN` on a valid buffer with the room, then the matching `readIntN`, gives back the
-- N-bit pattern and the readable bytes of before.
pub read_int-prepend_int :
    (b : Buffer) (x64 x32 x16 x8 : ℕ)
    → IsValid b
    → 8 ≤ b.reader_index
    → x64 < 2 ^ 64
    → x32 < 2 ^ 32
    → x16 < 2 ^ 16
    → x8 < 2 ^ 8
    → Restores prepend_int64 read_int64 b x64
      × Restores prepend_int32 read_int32 b x32
      × Restores prepend_int16 read_int16 b x16
      × Restores prepend_int8 read_int8 b x8
unfolding prepend_int64 read_int64 prepend_int32 read_int32 prepend_int16 read_int16 prepend_int8
    read_int8
read_int-prepend_int b x64 x32 x16 x8 v room h64 h32 h16 h8 = (
  prepend_back 8 x64 b v (omega arith) (omega arith),
  prepend_back 4 x32 b v (omega arith) (omega arith),
  prepend_back 2 x16 b v (omega arith) (omega arith),
  prepend_back 1 x8 b v (omega arith) (omega arith),
)

-- On a valid buffer with nothing to read, each `appendIntN` and then the matching `readIntN` give
-- back the N-bit pattern, and leave nothing to read.
pub read_int-append_int :
    (b : Buffer) (x64 x32 x16 x8 : ℕ)
    → IsValid b
    → contents b ≡ []
    → x64 < 2 ^ 64
    → x32 < 2 ^ 32
    → x16 < 2 ^ 16
    → x8 < 2 ^ 8
    → Restores append_int64 read_int64 b x64
      × Restores append_int32 read_int32 b x32
      × Restores append_int16 read_int16 b x16
      × Restores append_int8 read_int8 b x8
unfolding append_int64 read_int64 append_int32 read_int32 append_int16 read_int16 append_int8
    read_int8
read_int-append_int b x64 x32 x16 x8 v none_left h64 h32 h16 h8 = (
  append_back 8 x64 (omega arith),
  append_back 4 x32 (omega arith),
  append_back 2 x16 (omega arith),
  append_back 1 x8 (omega arith),
)
  where
    append_back :
        (k x : ℕ)
        → x < 256 ^ k
        → Restores
            (λ c y. append c (to_be k y))
            (λ c. peek_int k c >>= λ y. retrieve c k >>= λ c'. some (y, c'))
            b
            x
    append_back k x h =
        let (b', p, ok, same) = append_lem b (to_be k x) v in
        let (b'', peeked, taken, ok', left) =
          starts_with_int k x [] b' ok h
            (same ∙ ap (λ t. t ++ to_be k x) none_left ∙ sym (append-nil (to_be k x))) in
        (b', b'', p, rw (peeked, taken), ok', left ∙ sym none_left)

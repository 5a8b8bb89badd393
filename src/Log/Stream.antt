-- ===== src/Log/Stream.antt =====
-- base/LogStream.h and base/LogStream.cpp.
--
-- A `FixedBuffer` is its size and the bytes between `data_` and `cur_`. Integers of every width are
-- in `ℤ`. The text that `snprintf` makes of a double is an argument.
pub mod Numbers
use ssxrver.Prelude.{
  ℕ, zero, suc, ◌+◌, ◌-◌, ◌*◌, ◌/◌, ◌%◌, ◌^◌, ◌≤◌, ◌<◌, min, ◌≡◌, refl, sym, ap, ◌∙◌, ◌≢◌, ◌↔◌, ◌⊎◌,
  inl, inr, Bool, true, false, not, ◌&&◌, ◌||◌, Option, none, some, List, [], ◌∷◌, ◌++◌, map,
  append-nil, append_assoc, arith, ltb, leb, ◌==◌, if◌then◌else◌, ltb→lt, lt→ltb, leb→le, ==_iff,
  tests, Bool-cases, Option-cases, length, get_elem?, set, length-append, length-set,
  get_elem?-set_self, get_elem?-set_ne, get_or, take, drop, replicate, take-append-drop,
  length-take, length-drop, length-replicate, length-map, take-append, drop-append, take_all,
  drop_all, take-append_past, drop-drop, drop-take, take-take, select, All, All-append, All-map,
  ◌>>=◌, ◌>>◌, assert, codes, same, strncmp_equal, c_str, value_from, decimal_onto, decimal,
}

pub record FixedBuffer : Type 0 where
  pub size : ℕ
  pub bytes : List ℕ

abbrev pub small_buffer : ℕ
small_buffer = 4000

abbrev pub large_buffer : ℕ
large_buffer = 4000 * 1000

unfoldable pub new_buffer : ℕ → FixedBuffer
new_buffer size = record { size = size; bytes = [] }

abbrev pub avail : FixedBuffer → ℕ
avail b = b.size - length b.bytes

-- What fits is kept.
unfoldable pub append : FixedBuffer → List ℕ → FixedBuffer
append b buf =
    if ltb (length buf) (avail b)
    then record b { bytes = b.bytes ++ buf }
    else if ltb 0 (avail b)
    then record b { bytes = b.bytes ++ take (avail b) buf }
    else b

unfoldable pub reset : FixedBuffer → FixedBuffer
reset b = record b { bytes = [] }

-- `kMaxNumericSize`.
abbrev pub max_numeric_size : ℕ
max_numeric_size = 21

pub data ℤ : Type 0 where
  pos : ℕ → ℤ
  negsuc : ℕ → ℤ

-- The number `-n`.
abbrev pub neg : ℕ → ℤ
neg zero = pos zero
neg (suc n) = negsuc n

-- `/` and `%` of C, which round to zero.
abbrev pub quotient : ℤ → ℤ
quotient (pos n) = pos (n / 10)
quotient (negsuc n) = neg (suc n / 10)

abbrev pub remainder : ℤ → ℤ
remainder (pos n) = pos (n % 10)
remainder (negsuc n) = neg (suc n % 10)

abbrev pub is_zero : ℤ → Bool
is_zero (pos n) = n == 0
is_zero (negsuc n) = false

abbrev pub digits : List ℕ
digits = codes "9876543210123456789"

-- `zero[lsd]`, where `zero` points at the tenth of `digits`.
abbrev pub digit_at : ℤ → ℕ
digit_at (pos k) = get_or digits (9 + k) 0
digit_at (negsuc k) = get_or digits (8 - k) 0

abbrev pub reverse : List ℕ → List ℕ
reverse [] = []
reverse (x ∷ xs) = reverse xs ++ (x ∷ [])

-- The loop of `convert`: what it writes, the last digit first.
unfoldable pub convert_loop : ℕ → ℤ → List ℕ
convert_loop zero i = []
convert_loop (suc fuel) i =
    let rest = convert_loop fuel (quotient i) in
    digit_at (remainder i) ∷ (if is_zero (quotient i) then [] else rest)

abbrev pub sign : ℤ → List ℕ
sign (pos n) = []
sign (negsuc n) = 45 ∷ []

-- An integer of 64 bits has at most 20 digits.
unfoldable pub convert : ℤ → List ℕ
unfolding convert_loop
convert value = reverse (convert_loop 20 value ++ sign value)

abbrev pub digits_hex : List ℕ
digits_hex = codes "0123456789ABCDEF"

unfoldable pub convert_hex_loop : ℕ → ℕ → List ℕ
convert_hex_loop zero i = []
convert_hex_loop (suc fuel) i =
    let rest = convert_hex_loop fuel (i / 16) in
    get_or digits_hex (i % 16) 0 ∷ (if i / 16 == 0 then [] else rest)

-- A pointer has at most 16 digits.
unfoldable pub convert_hex : ℕ → List ℕ
unfolding convert_hex_loop
convert_hex value = reverse (convert_hex_loop 16 value)

-- What `convert` puts at `current()`, and `add`.
unfoldable pub format_integer : FixedBuffer → ℤ → FixedBuffer
format_integer b v =
    if leb max_numeric_size (avail b) then record b { bytes = b.bytes ++ convert v } else b

unfoldable pub put_bool : FixedBuffer → Bool → FixedBuffer
unfolding append
put_bool b s = append b (if s then codes "1" else codes "0")

unfoldable pub put_char : FixedBuffer → ℕ → FixedBuffer
unfolding append
put_char b v = append b (v ∷ [])

-- A `const char *`, which may be null.
unfoldable pub put_c_string : FixedBuffer → Option (List ℕ) → FixedBuffer
unfolding append
put_c_string b none = append b (codes "(null)")
put_c_string b (some str) = append b (c_str str)

unfoldable pub put_string : FixedBuffer → List ℕ → FixedBuffer
unfolding append
put_string b v = append b v

unfoldable pub put_pointer : FixedBuffer → ℕ → FixedBuffer
put_pointer b v =
    if leb max_numeric_size (avail b)
    then record b { bytes = b.bytes ++ (codes "0x" ++ convert_hex v) }
    else b

-- `snprintf` leaves at most `kMaxNumericSize - 1` bytes, but answers the length of the whole text,
-- which is what `add` is given; the bytes behind those written are as they were (`old`).
unfoldable pub put_double : FixedBuffer → List ℕ → List ℕ → FixedBuffer
put_double b text old =
    if leb max_numeric_size (avail b)
    then record b { bytes = b.bytes ++ take (length text) (take 20 text ++ old) }
    else b

-- A buffer filled no further than its size holds after `append` the bytes that were there and the new
-- ones, as far as its size goes.
pub append-take :
    (b : FixedBuffer) (buf : List ℕ)
    → length b.bytes ≤ b.size
    → append b buf ≡ record b { bytes = take b.size (b.bytes ++ buf) }
unfolding append
append-take b buf h = elim (Bool-cases (ltb (length buf) (avail b))) [
  | inl fits ↦
      let all =
        take_all b.size (b.bytes ++ buf)
          (omega (tests, length-append b.bytes buf, ltb→lt (length buf) (avail b) fits)) in
      simp fits (ap (λ t. record b { bytes = t }) (sym all))
  | inr over ↦ elim (Bool-cases (ltb 0 (avail b))) [
    | inl some_room ↦
        simp (over, some_room)
          (ap (λ t. record b { bytes = t }) (sym (take-append_past b.size b.bytes buf h)))
    | inr no_room ↦
        simp (over, no_room)
          (ap (λ t. record b { bytes = t })
            (sym (
              take-append_past b.size b.bytes buf h
              ∙ ap (λ k. b.bytes ++ take k buf) (none_left no_room)
              ∙ append-nil b.bytes)))
  ]
]
  where
    none_left : ltb 0 (avail b) ≡ false → avail b ≡ 0
    none_left e = ground (arith, e)

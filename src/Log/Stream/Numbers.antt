-- ===== src/Log/Stream/Numbers.antt =====
-- The digits that `convert` writes stand for the number.
use ssxrver.Prelude.{
  ℕ, zero, suc, ◌+◌, ◌-◌, ◌*◌, ◌/◌, ◌%◌, ◌^◌, ◌≤◌, ◌<◌, ◌≡◌, refl, ap, ◌∙◌, ◌⊎◌, inl, inr, true,
  List, [], ◌∷◌, ◌++◌, append-nil, arith, leb, ◌==◌, leb→le, Bool-cases, length, length-append,
  value_from,
}
use native.Mathlib.Nat.{pow-suc}
use ssxrver.Log.Stream.{
  ℤ, pos, negsuc, neg, quotient, remainder, is_zero, digit_at, reverse, convert_loop, sign, convert,
  max_numeric_size, FixedBuffer, avail, format_integer,
}

digit_pos : (k : ℕ) → k < 10 → digit_at (pos k) ≡ 48 + k
digit_pos zero h = refl
digit_pos (suc zero) h = refl
digit_pos (suc (suc zero)) h = refl
digit_pos (suc (suc (suc zero))) h = refl
digit_pos (suc (suc (suc (suc zero)))) h = refl
digit_pos (suc (suc (suc (suc (suc zero))))) h = refl
digit_pos (suc (suc (suc (suc (suc (suc zero)))))) h = refl
digit_pos (suc (suc (suc (suc (suc (suc (suc zero))))))) h = refl
digit_pos (suc (suc (suc (suc (suc (suc (suc (suc zero)))))))) h = refl
digit_pos (suc (suc (suc (suc (suc (suc (suc (suc (suc zero))))))))) h = refl
digit_pos (suc (suc (suc (suc (suc (suc (suc (suc (suc (suc n)))))))))) h = absurd (omega arith)

digit_neg : (k : ℕ) → k < 10 → digit_at (neg k) ≡ 48 + k
digit_neg zero h = refl
digit_neg (suc zero) h = refl
digit_neg (suc (suc zero)) h = refl
digit_neg (suc (suc (suc zero))) h = refl
digit_neg (suc (suc (suc (suc zero)))) h = refl
digit_neg (suc (suc (suc (suc (suc zero))))) h = refl
digit_neg (suc (suc (suc (suc (suc (suc zero)))))) h = refl
digit_neg (suc (suc (suc (suc (suc (suc (suc zero))))))) h = refl
digit_neg (suc (suc (suc (suc (suc (suc (suc (suc zero)))))))) h = refl
digit_neg (suc (suc (suc (suc (suc (suc (suc (suc (suc zero))))))))) h = refl
digit_neg (suc (suc (suc (suc (suc (suc (suc (suc (suc (suc n)))))))))) h = absurd (omega arith)

-- The value of digits of which the last stands first.
value_back : List ℕ → ℕ
value_back [] = 0
value_back (d ∷ ds) = (d - 48) + 10 * value_back ds

value_from-append :
    (acc : ℕ) (xs ys : List ℕ) → value_from acc (xs ++ ys) ≡ value_from (value_from acc xs) ys
value_from-append acc [] ys = refl
value_from-append acc (x ∷ xs) ys = value_from-append (acc * 10 + (x - 48)) xs ys

value_from-reverse : (ds : List ℕ) → value_from 0 (reverse ds) ≡ value_back ds
unfolding value_back
value_from-reverse [] = refl
value_from-reverse (d ∷ ds) =
    value_from-append 0 (reverse ds) (d ∷ []) ∙ omega (arith, value_from-reverse ds)

reverse-append : (xs : List ℕ) (y : ℕ) → reverse (xs ++ (y ∷ [])) ≡ y ∷ reverse xs
reverse-append [] y = refl
reverse-append (x ∷ xs) y = rw (reverse-append xs y) refl

length-reverse : (xs : List ℕ) → length (reverse xs) ≡ length xs
length-reverse [] = refl
length-reverse (x ∷ xs) = length-append (reverse xs) (x ∷ []) ∙ omega (arith, length-reverse xs)

neg-quotient : (n : ℕ) → quotient (neg n) ≡ neg (n / 10)
neg-quotient zero = refl
neg-quotient (suc n) = refl

neg-remainder : (n : ℕ) → remainder (neg n) ≡ neg (n % 10)
neg-remainder zero = refl
neg-remainder (suc n) = refl

neg-is_zero : (n : ℕ) → is_zero (neg n) ≡ (n == 0)
neg-is_zero zero = refl
neg-is_zero (suc n) = ground arith

loop_neg : (fuel n : ℕ) → convert_loop fuel (neg n) ≡ convert_loop fuel (pos n)
unfolding convert_loop
loop_neg zero n = refl
loop_neg (suc fuel) n =
    rw
      (
        neg-quotient n,
        neg-remainder n,
        neg-is_zero (n / 10),
        loop_neg fuel (n / 10),
        digit_neg (n % 10) (omega arith),
        digit_pos (n % 10) (omega arith),
      )
      refl

-- Enough fuel, for a number below `10 ^ fuel`.
loop_value : (fuel n : ℕ) → n < 10 ^ fuel → value_back (convert_loop fuel (pos n)) ≡ n
unfolding convert_loop value_back
loop_value zero n h = omega (arith, h)
loop_value (suc fuel) n h =
    let d = digit_pos (n % 10) (omega arith) in
    elim (Bool-cases (n / 10 == 0)) [
      | inl last ↦ rw (d, last) (let z : n / 10 ≡ 0 = ground (arith, last) in omega (arith, z))
      | inr more ↦ rw (d, more) (omega (arith, loop_value fuel (n / 10) (below (pow-suc 10 fuel))))
    ]
  where
    below : 10 ^ suc fuel ≡ 10 ^ fuel * 10 → n / 10 < 10 ^ fuel
    below e = omega (arith, h, e)

loop_length : (fuel k n : ℕ) → n < 10 ^ k → 0 < k → length (convert_loop fuel (pos n)) ≤ k
unfolding convert_loop
loop_length zero k n h p = omega (arith, p)
loop_length (suc fuel) zero n h p = absurd (omega (arith, p))
loop_length (suc fuel) (suc zero) n h p =
    let z : (n / 10 == 0) ≡ true = ground (arith, h) in simp z (omega arith)
loop_length (suc fuel) (suc (suc k)) n h p = elim (Bool-cases (n / 10 == 0)) [
  | inl last ↦ simp last (omega arith)
  | inr more ↦
      let rest = loop_length fuel (suc k) (n / 10) (below (pow-suc 10 (suc k))) (omega arith) in
      simp more (omega (arith, rest))
]
  where
    below : 10 ^ suc (suc k) ≡ 10 ^ suc k * 10 → n / 10 < 10 ^ suc k
    below e = omega (arith, h, e)

abbrev pub magnitude : ℤ → ℕ
magnitude (pos n) = n
magnitude (negsuc n) = suc n

-- `convert` writes the sign of a number below ten to the twentieth, and then digits of which the
-- value is its magnitude.
pub convert_lem :
    (v : ℤ)
    → magnitude v < 10 ^ 20
    → (ds : List ℕ) × (convert v ≡ sign v ++ ds) × (value_from 0 ds ≡ magnitude v)
unfolding convert
convert_lem (pos n) h = (
  reverse (convert_loop 20 (pos n)),
  ap reverse (append-nil (convert_loop 20 (pos n))),
  value_from-reverse (convert_loop 20 (pos n)) ∙ loop_value 20 n h,
)
convert_lem (negsuc n) h = (
  reverse (convert_loop 20 (pos (suc n))),
  reverse-append (convert_loop 20 (negsuc n)) 45 ∙ ap (λ ds. 45 ∷ reverse ds) (loop_neg 20 (suc n)),
  value_from-reverse (convert_loop 20 (pos (suc n))) ∙ loop_value 20 (suc n) h,
)

-- The numbers of the integer types: none is below the least of 64 signed bits, or above the
-- greatest of 64 unsigned.
abbrev pub IsWord : ℤ → Type 0
IsWord (pos n) = n < 2 ^ 64
IsWord (negsuc n) = n < 2 ^ 63

-- The text of an integer of at most 64 bits, with the NUL behind it, has at most `kMaxNumericSize`
-- bytes.
length-convert : (v : ℤ) → IsWord v → length (convert v) < max_numeric_size
unfolding convert
length-convert (pos n) h = omega (
  arith,
  length-reverse (convert_loop 20 (pos n) ++ []),
  length-append (convert_loop 20 (pos n)) [],
  loop_length 20 20 n (omega (arith, h)) (omega arith),
)
length-convert (negsuc n) h = omega (
  arith,
  length-reverse (convert_loop 20 (negsuc n) ++ (45 ∷ [])),
  length-append (convert_loop 20 (negsuc n)) (45 ∷ []),
  ap length (loop_neg 20 (suc n)),
  loop_length 20 19 (suc n) (omega (arith, h)) (omega arith),
)

-- Formatting an integer of at most 64 bits writes nothing past the end of the buffer, the NUL behind
-- it included: either there is no room and nothing changes, or a byte is left behind the text.
pub format_integer_lem :
    (b : FixedBuffer) (v : ℤ)
    → IsWord v
    → (format_integer b v ≡ b) ⊎ (length (format_integer b v).bytes < (format_integer b v).size)
unfolding format_integer
format_integer_lem b v h = elim (Bool-cases (leb max_numeric_size (avail b))) [
  | inl room ↦ inr (
      simp room (
        omega (
          arith,
          leb→le max_numeric_size (avail b) room,
          length-append b.bytes (convert v),
          length-convert v h,
        )))
  | inr full ↦ inl (simp full refl)
]

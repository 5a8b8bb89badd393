-- ===== src/Net/Timers/Descriptor.antt =====
-- net/TimerManager.cpp: `resetTimerFd`, which sets the timer's descriptor.
--
-- What the descriptor is set to is the nanoseconds that it still waits, and `none` where it is
-- disarmed. `timerfd_settime` is an argument, and `Settime` is what its manual page says of it.
use ssxrver.Prelude.{
  ℕ, zero, suc, ◌+◌, ◌-◌, ◌*◌, ◌/◌, ◌%◌, ◌^◌, ◌<◌, ◌≡◌, refl, ap, ◌∙◌, ◌⊎◌, inl, inr, true, false,
  Option, none, some, arith, leb, if◌then◌else◌, Bool-cases,
}
use ssxrver.Log.Stream.{ℤ, pos, negsuc, neg}

pub record TimeSpec : Type 0 where
  pub tv_sec : ℤ
  pub tv_nsec : ℤ

abbrev pub second : ℕ
second = 10 ^ 9

-- The difference of two times.
abbrev pub minus : ℕ → ℕ → ℤ
minus a b = if leb b a then pos (a - b) else neg (b - a)

-- `duration_cast` to seconds and `%` of C, which round to zero.
abbrev pub seconds : ℤ → ℤ
seconds (pos n) = pos (n / second)
seconds (negsuc n) = neg (suc n / second)

abbrev pub rest_of_second : ℤ → ℤ
rest_of_second (pos n) = pos (n % second)
rest_of_second (negsuc n) = neg (suc n % second)

unfoldable pub new_value : ℕ → ℕ → TimeSpec
new_value expiration now =
    let nsec = minus expiration now in
    record { tv_sec = seconds nsec; tv_nsec = rest_of_second nsec }

-- `timerfd_settime`, from what the descriptor was set to.
abbrev pub Kernel : Type 0
Kernel = TimeSpec → Option ℕ → Option ℕ

unfoldable pub reset_timer_fd : Kernel → ℕ → ℕ → Option ℕ → Option ℕ
reset_timer_fd settime expiration now old = settime (new_value expiration now) old

pub record Settime (settime : Kernel) : Type 0 where
  pub arms :
      (s n : ℕ) (old : Option ℕ)
      → n < second
      → 0 < s + n
      → settime (record { tv_sec = pos s; tv_nsec = pos n }) old ≡ some (s * second + n)
  pub disarms : (old : Option ℕ) → settime (record { tv_sec = pos 0; tv_nsec = pos 0 }) old ≡ none
  -- EINVAL.
  pub refuses_seconds :
      (s : ℕ) (n : ℤ) (old : Option ℕ)
      → settime (record { tv_sec = negsuc s; tv_nsec = n }) old ≡ old
  pub refuses_rest :
      (s : ℤ) (n : ℕ) (old : Option ℕ)
      → settime (record { tv_sec = s; tv_nsec = negsuc n }) old ≡ old

-- A number that is not zero has a whole second or a rest.
refused :
    (settime : Kernel) (s n : ℕ) (old : Option ℕ)
    → Settime settime
    → 0 < s + n
    → settime (record { tv_sec = neg s; tv_nsec = neg n }) old ≡ old
refused settime zero zero old k h = absurd (omega (arith, h))
refused settime zero (suc n) old k h = k.refuses_rest (pos 0) n old
refused settime (suc s) n old k h = k.refuses_seconds s (neg n) old

some_left : (d : ℕ) → 0 < d → 0 < d / second + d % second
some_left d h = omega (arith, h)

whole : (d : ℕ) → d / second * second + d % second ≡ d
whole d = omega arith

-- The descriptor waits for just the time that is left where there is some. A time that is just reached
-- disarms it, and one that is past leaves it as it was, so that neither wakes the loop.
pub reset_timer_fd_lem :
    (settime : Kernel) (expiration now : ℕ) (old : Option ℕ)
    → Settime settime
    → ((now < expiration) × (reset_timer_fd settime expiration now old ≡ some (expiration - now)))
      ⊎ (((expiration ≡ now) × (reset_timer_fd settime expiration now old ≡ none))
          ⊎ ((expiration < now) × (reset_timer_fd settime expiration now old ≡ old)))
unfolding reset_timer_fd new_value
reset_timer_fd_lem settime e now old k = elim (Bool-cases (leb now e)) [
  | inl due ↦ from_here (e - now) refl due
  | inr late ↦
      let d = now - e in
      let h : 0 < d = ground (arith, late) in inr (inr (ground (arith, late), past d refl h late))
]
  where
    set_to : ℤ → Option ℕ
    set_to z = settime (record { tv_sec = seconds z; tv_nsec = rest_of_second z }) old

    past : (d : ℕ) → now - e ≡ d → 0 < d → leb now e ≡ false → set_to (minus e now) ≡ old
    past zero i h late = absurd (omega (arith, h))
    past (suc d) i h late =
        rw (late, i) (refused settime (suc d / second) (suc d % second) old k (some_left (suc d) h))

    from_here :
        (d : ℕ)
        → e - now ≡ d
        → leb now e ≡ true
        → ((now < e) × (set_to (minus e now) ≡ some (e - now)))
          ⊎ (((e ≡ now) × (set_to (minus e now) ≡ none))
              ⊎ ((e < now) × (set_to (minus e now) ≡ old)))
    from_here zero i due = inr (inl (ground (arith, due, i), rw (due, i) (k.disarms old)))
    from_here (suc d) i due = inl (
      omega (arith, i),
      rw (due, i)
          (k.arms (suc d / second) (suc d % second) old (omega arith)
              (some_left (suc d) (omega arith))
            ∙ ap some (whole (suc d))),
    )

-- ===== src/Net/Timers/Tests.antt =====
-- The theorems on timers, at queues of two.
use ssxrver.Prelude.{
  ℕ, ◌+◌, ◌*◌, ◌<◌, ltb, ◌==◌, if◌then◌else◌, Option, some, ◌≡◌, refl, ◌⊎◌, true, false, not, ◌&&◌,
  none, List, [], ◌∷◌, arith, select, All, map,
}
use ssxrver.Net.Timers.{Timer, Manager, get_expired, handle_read, run_expired, member, cancelled_by}
use ssxrver.Net.Timers.Queue.{IsSorted, due, live, get_expired_lem}
use ssxrver.Log.Stream.{ℤ, pos, negsuc}
use ssxrver.Net.Timers.Descriptor.{Kernel, Settime, second, reset_timer_fd, reset_timer_fd_lem}
use ssxrver.Net.Timers.Batch.{Obeys, handle_read-Uncancelled}
use mathlib.Core.List.{Mem}

-- Due at 5 and again each 10, and due once at 20.
abbrev ticking : Timer
ticking = record { expiration = 5; interval = 10; is_repeat = true; is_delete = false; seq = 0 }

abbrev single : Timer
single = record { expiration = 20; interval = 0; is_repeat = false; is_delete = false; seq = 1 }

abbrev two : Manager
two = record { timers = ticking ∷ single ∷ []; armed = 5 ∷ [] }

abbrev soon : Timer
soon = record { expiration = 3; interval = 0; is_repeat = false; is_delete = false; seq = 2 }

two-IsSorted : IsSorted two.timers
two-IsSorted = ((refl, tt), (tt, tt))

get_expired_lem_example :
    get_expired two.timers 7
    ≡ (select (λ t. due 7 t && live t) two.timers, select (λ t. not (due 7 t)) two.timers)
get_expired_lem_example = get_expired_lem two.timers 7 two-IsSorted

-- The callback of the first timer cancels both.
abbrev cancel_both : ℕ → List ℕ
cancel_both n = 0 ∷ 1 ∷ []

handle_read-Uncancelled_example :
    let (expired, rest) = get_expired two.timers 7 in
    let cs = (run_expired cancel_both expired []).1 in
    Obeys cancel_both [] (handle_read cancel_both two 7).0
    × All
        (λ t. (member t.seq cs ≡ false) ⊎ ((live t ≡ false) × Mem t (map (cancelled_by cs) rest)))
        (handle_read cancel_both two 7).1.timers
handle_read-Uncancelled_example = handle_read-Uncancelled cancel_both two 7

-- A kernel that does what its manual page says.
set_to : ℤ → ℤ → Option ℕ → Option ℕ
set_to (negsuc s) n old = old
set_to (pos s) (negsuc n) old = old
set_to (pos s) (pos n) old =
    if ltb n second then (if s + n == 0 then none else some (s * second + n)) else old

linux : Kernel
unfolding set_to
linux value old = set_to value.tv_sec value.tv_nsec old

linux-Settime : Settime linux
unfolding linux set_to
linux-Settime = record {
  arms = λ s n old h k. ground (arith, h, k);
  disarms = λ old. refl;
  refuses_seconds = λ s n old. refl;
  refuses_rest = neg_rest;
}
  where
    neg_rest : (s : ℤ) (n : ℕ) (old : Option ℕ) → set_to s (negsuc n) old ≡ old
    neg_rest (pos s) n old = refl
    neg_rest (negsuc s) n old = refl

reset_timer_fd_lem_example :
    ((20 < 5) × (reset_timer_fd linux 5 20 (some 9) ≡ some 0))
    ⊎ (((ticking.expiration ≡ single.expiration) × (reset_timer_fd linux 5 20 (some 9) ≡ none))
        ⊎ ((5 < 20) × (reset_timer_fd linux 5 20 (some 9) ≡ some 9)))
reset_timer_fd_lem_example = reset_timer_fd_lem linux 5 20 (some 9) linux-Settime

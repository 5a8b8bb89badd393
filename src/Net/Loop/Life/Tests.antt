-- ===== src/Net/Loop/Life/Tests.antt =====
-- Loops of two threads.
use ssxrver.Prelude.{ℕ, ◌≡◌, refl, none, some, arith}
use ssxrver.Net.Loop.Life.{Loops, no_loops, new_loop, destroy, Reaches, at_start, after, made}
use ssxrver.Net.Loop.Life.Outcomes.{made_loop, with_loop, new_loop_free}
use ssxrver.Net.Loop.Life.Threads.{Reaches-one_loop}

-- Thread 1 has made a loop at 10, then thread 2 one at 20.
abbrev one : Loops
one = with_loop 1 10 (made_loop 1 5 6) no_loops

abbrev two : Loops
two = with_loop 2 20 (made_loop 2 7 8) one

two-Reaches : Reaches two
unfolding ssxrver.Net.Loop.Life.put
two-Reaches =
    after
      (after at_start
        (made 1 10 (some 5) (some 6) no_loops one refl (new_loop_free 1 10 5 6 no_loops refl)))
      (made 2 20 (some 7) (some 8) one two refl (new_loop_free 2 20 7 8 one refl))

Reaches-one_loop_example :
    (two.in_this_thread 2 ≡ some 20)
    × ((◌≡◌ {A = ℕ} 20 20)
        × ((new_loop 2 30 (some 9) (some 11) two ≡ none)
            × (destroy 1 20 (made_loop 2 7 8) two ≡ none)))
unfolding ssxrver.Net.Loop.Life.put
Reaches-one_loop_example =
    Reaches-one_loop two-Reaches 20 20 (made_loop 2 7 8) (made_loop 2 7 8) 1 30 (some 9) (some 11)
      refl refl refl (λ e. omega (arith, e))

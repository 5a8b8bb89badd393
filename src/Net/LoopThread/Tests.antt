-- ===== src/Net/LoopThread/Tests.antt =====
-- The start of a loop's thread.
use ssxrver.Prelude.{◌≡◌, refl, ◌⊎◌, inr, Bool, true, arith}
use ssxrver.Net.LoopThread.{
  LoopThread, new_thread, start_loop, test_loop, publish, starting, locking, asleep, returned,
  Reaches, at_start, after, starting_up, testing, returning, publishing, Reaches-returned,
}

abbrev started : LoopThread
started = record new_thread { starter = locking; stage = starting }

abbrev served : LoopThread
served = test_loop (publish true (test_loop started))

abbrev answered : LoopThread
answered = record served { starter = returned true }

started-Reaches : Reaches started
unfolding start_loop
started-Reaches = after at_start (starting_up new_thread started refl refl)

answered-Reaches : Reaches answered
unfolding start_loop test_loop publish
answered-Reaches =
    after
      (after
        (after (after started-Reaches (testing started refl))
          (publishing (test_loop started) true refl))
        (testing (publish true (test_loop started)) refl))
      (returning served refl)

Reaches-returned_example :
    ((answered.starter ≡ asleep) × (answered.stage ≡ starting))
    ⊎ ((answered.starter ≡ returned true) × (◌≡◌ {A = Bool} true true))
unfolding test_loop publish
Reaches-returned_example =
    Reaches-returned answered true answered-Reaches (λ c. ground (arith, c)) (inr refl)

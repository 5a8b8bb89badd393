-- ===== src/Base/Queue/Tests.antt =====
-- The queue of tasks at inputs.
use ssxrver.Prelude.{
  ℕ, ◌≡◌, refl, ◌≢◌, true, false, Option, some, none, List, [], ◌∷◌, ◌++◌, arith, ◌>>=◌,
}
use ssxrver.Base.Queue.{Queue, new_queue, push, empty, pop_head, try_pop, try_pop_into}
use ssxrver.Base.Queue.Chain.{Holds}
use ssxrver.Base.Queue.Threads.{
  outside, testing, asleep, System, update, new_system, test, calling, deciding, Reaches, at_start,
  after,
}
use ssxrver.Base.Queue.Threads.Safety.{Reaches-Fifo}
use ssxrver.Base.Queue.Threads.LostWakeup.{push_unheard}

-- Two values through the queue.
abbrev two_in : Option (Queue ℕ)
two_in = do a ← push (new_queue 0) 1 7; push a 2 8

abbrev two_out : Option (Option ℕ × Option ℕ × Option ℕ)
two_out = do
  q ← two_in
  (x, q1) ← try_pop q
  (y, q2) ← try_pop_into q1
  (z, q3) ← try_pop q2
  some (x, y, z)

two_out_test : two_out ≡ some (some 7, some 8, none)
unfolding push new_queue try_pop try_pop_into empty pop_head
two_out_test = refl

-- A consumer that found the queue empty.
abbrev dozing_at : System ℕ
dozing_at =
    test (record (new_system 0) { owner = some 0; place = update (λ _. outside) 0 (testing true) })
      0 true

dozes : Reaches 0 dozing_at
dozes = after (after at_start (calling (new_system 0) 0 true refl refl)) (deciding _ 0 true refl)

Reaches-Fifo_example :
    (dozing_at.faulted ≡ false)
    × ((inside : List ℕ) × Holds dozing_at.queue inside
        × (dozing_at.popped ++ inside ≡ dozing_at.pushed))
Reaches-Fifo_example = Reaches-Fifo dozing_at dozes

all_awake : (j : ℕ) → dozing_at.place j ≢ asleep
unfolding test empty new_queue
all_awake j h = ground (arith, h)

push_unheard_example :
    (s' : System ℕ) × Reaches 0 s'
    × (s'.place 0 ≡ asleep)
    × (s'.notices ≡ dozing_at.notices)
    × (s'.owner ≡ none)
    × ((inside : List ℕ) × Holds s'.queue (inside ++ (9 ∷ [])))
unfolding test empty new_queue
push_unheard_example = push_unheard dozing_at 0 5 9 dozes refl all_awake refl

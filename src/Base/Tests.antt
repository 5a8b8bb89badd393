-- ===== src/Base/Tests.antt =====
-- The pool of threads, and the start of a thread, at inputs.
use ssxrver.Prelude.{◌⊎◌, arith, ◌≡◌, refl, true, false, Option, none, some, List, [], ◌∷◌}
use ssxrver.Base.Thread.{
  Thread, done, running, Reaches, at_start, after, starting, numbering, counting, released,
  cached_tid, check_tid, new_thread, start as start_thread, store_tid, count_down, destroy,
  Reaches-destroy,
}
use ssxrver.Base.Pool.{Task, new_pool, start, run_in_thread, work}

abbrev tasks : List (Option Task)
tasks =
    some (record { name = 4; stops = false })
    ∷ none
    ∷ some (record { name = 5; stops = true })
    ∷ some (record { name = 6; stops = false })
    ∷ []

run_test : run_in_thread (start (new_pool true) 2) tasks ≡ record {
  inits = 1;
  ran = 4 ∷ 5 ∷ [];
  waits = false;
  left = some (record { name = 6; stops = false }) ∷ [];
}
unfolding run_in_thread start new_pool work
run_test = refl

abbrev started_thread : Thread
started_thread = record {
  started = true;
  joinable = true;
  tid = 7;
  latch = 0;
  starter = done;
  runner = running;
}

started_thread-Reaches : Reaches started_thread
unfolding new_thread start_thread store_tid count_down cached_tid check_tid
started_thread-Reaches =
    after
      (after
        (after (after at_start (starting new_thread refl))
          (numbering (start_thread new_thread) 7 (omega arith) refl))
        (counting (store_tid (start_thread new_thread) 7) refl))
      (released (count_down (store_tid (start_thread new_thread) 7)) refl refl)

Reaches-destroy_example :
    ((true ≡ true) × (destroy started_thread ≡ none))
    ⊎ ((true ≡ false) × (destroy started_thread ≡ some tt))
Reaches-destroy_example = Reaches-destroy started_thread started_thread-Reaches

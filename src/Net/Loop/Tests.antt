-- ===== src/Net/Loop/Tests.antt =====
-- The loop at inputs.
use ssxrver.Prelude.{ℕ, ◌≡◌, refl, Bool, true, false, some, [], ◌∷◌, ◌++◌}
use ssxrver.Net.Loop.{
  Action, Turn, new_loop, quit, loop, returned, polling, turn, turns, run_functors,
}
use ssxrver.Net.Loop.Turns.{at_rest, all_calls, turn_calls, loop_lem}

abbrev action : ℕ → Bool → Action
action n q = record { name = n; quits = q }

abbrev first : Turn
first = record { handlers = action 1 false ∷ action 2 false ∷ []; functors = action 3 false ∷ [] }

abbrev last : Turn
last = record { handlers = action 4 true ∷ action 5 false ∷ []; functors = action 6 false ∷ [] }

loop_test :
    loop (quit new_loop) (first ∷ [])
    ≡ some (polling (record (at_rest true false (turn_calls first)) { looping = true }))
unfolding loop turns turn run_functors quit
loop_test = refl

loop_lem_example :
    loop (at_rest false true []) (first ∷ last ∷ first ∷ [])
    ≡ some (returned (at_rest false true (all_calls (first ∷ []) ++ turn_calls last)))
loop_lem_example = loop_lem true [] (first ∷ []) (first ∷ []) last (refl, tt) refl

-- ===== src/Net/LoopQueue/Tests.antt =====
-- The wake-up of a loop, behind a call from another thread.
use ssxrver.Prelude.{◌≡◌, refl, ◌++◌, []}
use ssxrver.Net.LoopQueue.{
  LoopQueue, new_queue, push_elsewhere, at_start, after, pushed_elsewhere, IsAwake, Reaches-IsAwake,
  polling,
}
use ssxrver.Net.LoopQueue.Runs.{ByLoop, Reaches-runs}

-- Another thread has queued a function and not yet written its wake-up.
abbrev called_on : LoopQueue
called_on = push_elsewhere new_queue 5

called_on-polling : called_on.phase ≡ polling
unfolding push_elsewhere
called_on-polling = refl

Reaches-IsAwake_example :
    IsAwake called_on × (called_on.ran ++ called_on.functors ≡ called_on.asked)
Reaches-IsAwake_example =
    Reaches-IsAwake called_on (after at_start (pushed_elsewhere new_queue 5)) called_on-polling

Reaches-runs_example :
    (q' : LoopQueue) × ByLoop called_on q' × (q'.functors ≡ []) × (q'.ran ≡ called_on.asked)
Reaches-runs_example = Reaches-runs called_on (after at_start (pushed_elsewhere new_queue 5))

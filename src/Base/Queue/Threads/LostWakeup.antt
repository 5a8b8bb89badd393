-- ===== src/Base/Queue/Threads/LostWakeup.antt =====
-- base/ThreadSafeQueue.hpp: a `notify_one` that no consumer hears, since `push` does not hold the
-- mutex of the condition.
use mathlib.Core.Path.{subst}
use ssxrver.Prelude.{ℕ, ◌+◌, ◌-◌, ◌≡◌, refl, ◌≢◌, none, List, [], ◌∷◌, ◌++◌, arith}
use ssxrver.Base.Queue.{Queue}
use ssxrver.Base.Queue.Chain.{Holds, push-Holds}
use ssxrver.Base.Queue.Threads.{
  dozing, asleep, System, move, push_in, pushed_to, pushing, notifying_nobody, falling_asleep,
  Reaches, after,
}
use ssxrver.Base.Queue.Threads.Safety.{Reaches-Kept}

module _ {A : Type 0} where
  -- Where a consumer has found the queue empty and is about to sleep, and none sleeps yet, a
  -- producer's `push` and its `notify_one` can both be over before it does: it then sleeps, no
  -- notice is on its way that was not before, and the value that was pushed is in the queue.
  pub push_unheard :
      {p : ℕ} (s : System A) (i new : ℕ) (x : A)
      → Reaches p s
      → s.place i ≡ dozing
      → ((j : ℕ) → s.place j ≢ asleep)
      → s.queue.nodes new ≡ none
      → (s' : System A) × Reaches p s'
        × (s'.place i ≡ asleep)
        × (s'.notices ≡ s.notices)
        × (s'.owner ≡ none)
        × ((inside : List A) × Holds s'.queue (inside ++ (x ∷ [])))
  unfolding push_in pushed_to
  push_unheard {p} s i new x r e awake free =
      let k = Reaches-Kept s r in
      let (q, run, v) = push-Holds s.queue new x k.inside free k.models in
      let pushed_now : Reaches p (in_queue q) =
        subst (λ o. Reaches p (pushed_to s x o)) run (after r (pushing s new x free)) in
      let noticed : Reaches p (unheard q) =
        after pushed_now (notifying_nobody (in_queue q) (omega arith) awake) in
      (
        move (unheard q) i none asleep,
        after noticed (falling_asleep (unheard q) i e),
        ground arith,
        omega arith,
        refl,
        (k.inside, v),
      )
    where
      in_queue : Queue A → System A
      in_queue q = record s { queue = q; notices = s.notices + 1; pushed = s.pushed ++ (x ∷ []) }

      unheard : Queue A → System A
      unheard q = record s { queue = q; notices = s.notices + 1 - 1; pushed = s.pushed ++ (x ∷ []) }

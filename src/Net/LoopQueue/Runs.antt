-- ===== src/Net/LoopQueue/Runs.antt =====
-- net/EventLoop.cpp: what the loop's thread gets done.
use ssxrver.Prelude.{
  ℕ, ◌<◌, ◌≡◌, refl, sym, ap, ◌∙◌, inl, inr, ◌⊎◌, List, [], ◌∷◌, ◌++◌, append-nil, append_assoc,
  arith,
}
use mathlib.Core.Path.{subst}
use ssxrver.Net.LoopQueue.{
  Phase, polling, handling, running, LoopQueue, wakeup, wake_elsewhere, take_functors, call_first,
  Reaches, Reaches-Kept, Kept,
}
use ssxrver.Net.LoopQueue.{IsAwake, in_phase}
use ssxrver.Prelude.{◌⊎◌}

-- Steps of the loop's thread, in which no other event is handled and no function queues another,
-- and the wake-ups that calls of `queueInLoop` from other threads have still to write.
pub data ByLoop : LoopQueue → LoopQueue → Type 0 where
  no_more : (q : LoopQueue) → ByLoop q q
  woke : {q q' : LoopQueue} → 0 < q.wakers → ByLoop (wake_elsewhere q) q' → ByLoop q q'
  -- The wake-up descriptor has `epoll_wait` return.
  polled :
      {q q' : LoopQueue}
      → q.phase ≡ polling
      → 0 < q.wakeups
      → ByLoop (record q { phase = handling }) q'
      → ByLoop q q'
  took : {q q' : LoopQueue} → q.phase ≡ handling → ByLoop (take_functors q) q' → ByLoop q q'
  called :
      {q q' : LoopQueue} (f : ℕ) (fs : List ℕ)
      → q.phase ≡ running
      → q.batch ≡ f ∷ fs
      → ByLoop (call_first q f fs) q'
      → ByLoop q q'
  ended :
      {q q' : LoopQueue}
      → q.phase ≡ running
      → q.batch ≡ []
      → ByLoop (record q { phase = polling }) q'
      → ByLoop q q'

-- What the loop comes to from `q`: it has called all that was queued.
pub record Done (q q' : LoopQueue) : Type 0 where
  pub steps : ByLoop q q'
  pub none_waits : q'.functors ≡ []
  pub all_ran : q'.ran ≡ q.ran ++ (q.batch ++ q.functors)

call_all :
    (fs : List ℕ) (q : LoopQueue) (q' : LoopQueue)
    → q.phase ≡ running
    → q.batch ≡ fs
    → ByLoop (record q { batch = []; ran = q.ran ++ fs }) q'
    → ByLoop q q'
unfolding call_first
call_all [] q q' e b steps = subst (λ x. ByLoop x q') (here b) steps
  where
    here : q.batch ≡ [] → record q { batch = []; ran = q.ran ++ [] } ≡ q
    here h =
        ap (λ b. record q { batch = b; ran = q.ran ++ [] }) (sym h)
        ∙ ap (λ l. record q { ran = l }) (append-nil q.ran)
call_all (f ∷ fs) q q' e b steps = called f fs e b (
    call_all fs (call_first q f fs) q' e refl (
      subst (λ l. ByLoop (record q { batch = []; ran = l }) q')
        (sym (append_assoc q.ran (f ∷ []) fs)) steps))

from_handling : (q : LoopQueue) → q.phase ≡ handling → q.batch ≡ [] → (q' : LoopQueue) × Done q q'
unfolding take_functors
from_handling q e b = (
  record q { phase = running; functors = []; batch = []; ran = q.ran ++ q.functors },
  record {
    steps = took e (call_all q.functors (take_functors q) _ refl refl (no_more _));
    none_waits = refl;
    all_ran = ap (λ l. q.ran ++ (l ++ q.functors)) (sym b);
  },
)

Nat_cases : (n : ℕ) → (n ≡ 0) ⊎ (0 < n)
Nat_cases n = ground arith

polled_now :
    (q : LoopQueue)
    → q.phase ≡ polling
    → q.batch ≡ []
    → 0 < q.wakeups
    → (q' : LoopQueue) × Done q q'
polled_now q e b up =
    let (q', d) = from_handling (record q { phase = handling }) refl b in
    (q', record { steps = polled e up d.steps; none_waits = d.none_waits; all_ran = d.all_ran })

from_polling :
    (q : LoopQueue) → q.phase ≡ polling → q.batch ≡ [] → IsAwake q → (q' : LoopQueue) × Done q q'
unfolding wake_elsewhere wakeup
from_polling q e b (inl nothing) = (
  q,
  record {
    steps = no_more q;
    none_waits = nothing;
    all_ran =
        sym (ap (λ l. q.ran ++ (l ++ q.functors)) b ∙ ap (◌++◌ q.ran) nothing ∙ append-nil q.ran);
  },
)
from_polling q e b (inr pending) = elim (Nat_cases q.wakeups) [
  | inr up ↦ polled_now q e b up
  | inl down ↦
      let (q', d) = polled_now (wake_elsewhere q) e b (omega arith) in
      (
        q',
        record {
          steps = woke (omega (arith, pending, down)) d.steps;
          none_waits = d.none_waits;
          all_ran = d.all_ran;
        },
      )
]

from_running : (q : LoopQueue) → q.phase ≡ running → IsAwake q → (q' : LoopQueue) × Done q q'
from_running q e awake =
    let idle_q = record q { batch = []; ran = q.ran ++ q.batch } in
    let (q', d) = from_polling (record idle_q { phase = polling }) refl refl awake in
    (
      q',
      record {
        steps = call_all q.batch q q' e refl (ended e refl d.steps);
        none_waits = d.none_waits;
        all_ran = d.all_ran ∙ append_assoc q.ran q.batch q.functors;
      },
    )

-- From every state that the loop reaches, its thread, polling only where a wake-up is pending, and
-- the wake-ups that other threads have still to write for functions that they queued, get every
-- function called that was queued so far, in the order in which they were queued.
pub Reaches-runs :
    (q : LoopQueue)
    → Reaches q
    → (q' : LoopQueue) × ByLoop q q' × (q'.functors ≡ []) × (q'.ran ≡ q.asked)
unfolding Kept
Reaches-runs q r =
    let (q', d) = by_phase q.phase refl in (q', d.steps, d.none_waits, d.all_ran ∙ k.1)
  where
    k : Kept q
    k = Reaches-Kept q r

    empty_batch : (p : Phase) → q.phase ≡ p → (p ≡ running → ⊥) → q.batch ≡ []
    empty_batch p e not_running = elim k.2 [
      | inl run ↦ absurd (not_running (sym e ∙ run))
      | inr b ↦ b
    ]

    by_phase : (p : Phase) → q.phase ≡ p → (q' : LoopQueue) × Done q q'
    by_phase polling e =
        from_polling q e (empty_batch polling e (λ c. ground (arith, c))) (in_phase polling q e k.0)
    by_phase handling e = from_handling q e (empty_batch handling e (λ c. ground (arith, c)))
    by_phase running e = from_running q e (in_phase running q e k.0)

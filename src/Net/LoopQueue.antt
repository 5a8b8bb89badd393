-- ===== src/Net/LoopQueue.antt =====
-- net/EventLoop.cpp: the functions that wait for a loop, and the wake-up descriptor.
--
-- A function is a number. A step is a critical section, a wake-up, or a part of `loop` between them, so
-- that other threads come in anywhere between the steps of the loop's own. `ran` is what the loop
-- has called, in order, and `asked` what was queued.
pub mod Runs
mod Tests
use mathlib.Core.Path.{subst}
use ssxrver.Prelude.{
  ℕ, zero, suc, ◌+◌, ◌-◌, ◌*◌, ◌/◌, ◌%◌, ◌^◌, ◌≤◌, ◌<◌, min, ◌≡◌, refl, sym, ap, ◌∙◌, ◌≢◌, ◌↔◌, ◌⊎◌,
  inl, inr, Bool, true, false, not, ◌&&◌, ◌||◌, Option, none, some, List, [], ◌∷◌, ◌++◌, map,
  append-nil, append_assoc, arith, ltb, leb, ◌==◌, if◌then◌else◌, ltb→lt, lt→ltb, leb→le, ==_iff,
  tests, Bool-cases, Option-cases, length, get_elem?, set, length-append, length-set,
  get_elem?-set_self, get_elem?-set_ne, get_or, take, drop, replicate, take-append-drop,
  length-take, length-drop, length-replicate, length-map, take-append, drop-append, take_all,
  drop_all, take-append_past, drop-drop, drop-take, take-take, select, All, All-append, All-map,
  ◌>>=◌, ◌>>◌, assert, codes, same, strncmp_equal, c_str, value_from, decimal_onto, decimal,
}

-- Where the loop's thread is: in `epoll_->poll`, in the handlers of events, or in `runFunctors`.
pub data Phase : Type 0 where
  polling handling running : Phase

pub record LoopQueue : Type 0 where
  pub phase : Phase
  pub functors : List ℕ
  -- The vector that `runFunctors` took, less those called.
  pub batch : List ℕ
  -- The counter of the wake-up descriptor.
  pub wakeups : ℕ
  -- Calls of `queueInLoop` from other threads that are between their critical section and `wakeup`.
  pub wakers : ℕ
  pub ran : List ℕ
  pub asked : List ℕ

abbrev pub new_queue : LoopQueue
new_queue = record {
  phase = polling;
  functors = [];
  batch = [];
  wakeups = 0;
  wakers = 0;
  ran = [];
  asked = [];
}

-- `callingFunctors_`.
abbrev pub calling_functors : Phase → Bool
calling_functors running = true
calling_functors polling = false
calling_functors handling = false

unfoldable pub wakeup : LoopQueue → LoopQueue
wakeup q = record q { wakeups = q.wakeups + 1 }

-- The critical section of `queueInLoop`.
unfoldable pub push : LoopQueue → ℕ → LoopQueue
push q cb = record q { functors = q.functors ++ (cb ∷ []); asked = q.asked ++ (cb ∷ []) }

-- `queueInLoop` in the loop's thread, where no step of its own comes in between.
unfoldable pub queue_in_loop : LoopQueue → ℕ → LoopQueue
unfolding wakeup push
queue_in_loop q cb = if calling_functors q.phase then wakeup (push q cb) else push q cb

-- `queueInLoop` in another thread: what is behind its critical section, of which the test is true
-- whatever the loop does, and then its wake-up.
unfoldable pub push_elsewhere : LoopQueue → ℕ → LoopQueue
unfolding push
push_elsewhere q cb = record (push q cb) { wakers = q.wakers + 1 }

unfoldable pub wake_elsewhere : LoopQueue → LoopQueue
unfolding wakeup
wake_elsewhere q = record (wakeup q) { wakers = q.wakers - 1 }

-- `handleRead` of the wake-up descriptor: the read takes the whole counter.
unfoldable pub handle_read : LoopQueue → LoopQueue
handle_read q = record q { wakeups = 0 }

-- The head of `runFunctors`.
unfoldable pub take_functors : LoopQueue → LoopQueue
take_functors q = record q { phase = running; functors = []; batch = q.functors }

unfoldable pub call_first : LoopQueue → ℕ → List ℕ → LoopQueue
call_first q f fs = record q { batch = fs; ran = q.ran ++ (f ∷ []) }

-- One step of the loop's thread or of another.
pub data Step : LoopQueue → LoopQueue → Type 0 where
  pushed_elsewhere : (q : LoopQueue) (cb : ℕ) → Step q (push_elsewhere q cb)
  woken_elsewhere : (q : LoopQueue) → 0 < q.wakers → Step q (wake_elsewhere q)
  poll_returned : (q : LoopQueue) → q.phase ≡ polling → Step q (record q { phase = handling })
  woken : (q : LoopQueue) → q.phase ≡ handling → Step q (handle_read q)
  queued_by_handler : (q : LoopQueue) (cb : ℕ) → q.phase ≡ handling → Step q (queue_in_loop q cb)
  taken : (q : LoopQueue) → q.phase ≡ handling → Step q (take_functors q)
  called_one :
      (q : LoopQueue) (f : ℕ) (fs : List ℕ)
      → q.phase ≡ running
      → q.batch ≡ f ∷ fs
      → Step q (call_first q f fs)
  queued_by_functor : (q : LoopQueue) (cb : ℕ) → q.phase ≡ running → Step q (queue_in_loop q cb)
  all_called :
      (q : LoopQueue) → q.phase ≡ running → q.batch ≡ [] → Step q (record q { phase = polling })

pub data Reaches : LoopQueue → Type 0 where
  at_start : Reaches new_queue
  after : {q q' : LoopQueue} → Reaches q → Step q q' → Reaches q'

-- Nothing waits, or the next poll returns at once, or a thread is about to have it return.
abbrev pub IsAwake : LoopQueue → Type 0
IsAwake q = (q.functors ≡ []) ⊎ (0 < q.wakeups + q.wakers)

abbrev pub AwakeIn : Phase → LoopQueue → Type 0
AwakeIn polling q = IsAwake q
AwakeIn handling q = Unit {0}
AwakeIn running q = IsAwake q

pub Kept : LoopQueue → Type 0
Kept q =
    AwakeIn q.phase q
    × (q.ran ++ (q.batch ++ q.functors) ≡ q.asked)
    × ((q.phase ≡ running) ⊎ (q.batch ≡ []))

awake_any : (p : Phase) (q : LoopQueue) → 0 < q.wakeups + q.wakers → AwakeIn p q
awake_any polling q h = inr h
awake_any handling q h = tt
awake_any running q h = inr h

push_order :
    (q : LoopQueue) (cb : ℕ)
    → q.ran ++ (q.batch ++ q.functors) ≡ q.asked
    → q.ran ++ (q.batch ++ (q.functors ++ (cb ∷ []))) ≡ q.asked ++ (cb ∷ [])
push_order q cb e =
    ap (◌++◌ q.ran) (sym (append_assoc q.batch q.functors (cb ∷ [])))
    ∙ sym (append_assoc q.ran (q.batch ++ q.functors) (cb ∷ []))
    ∙ ap (λ t. t ++ (cb ∷ [])) e

queue_in_loop-Kept :
    (q : LoopQueue) (cb : ℕ)
    → Kept q
    → (q.phase ≡ handling) ⊎ (q.phase ≡ running)
    → Kept (queue_in_loop q cb)
unfolding queue_in_loop Kept wakeup push
queue_in_loop-Kept q cb k (inl e) =
    subst (λ c. Kept (if c then wakeup (push q cb) else push q cb)) (sym (ap calling_functors e))
      (subst (λ x. AwakeIn x (push q cb)) (sym e) tt, push_order q cb k.1, k.2)
queue_in_loop-Kept q cb k (inr e) =
    subst (λ c. Kept (if c then wakeup (push q cb) else push q cb)) (sym (ap calling_functors e))
      (awake_any q.phase (wakeup (push q cb)) (omega arith), push_order q cb k.1, k.2)

not_running : (q : LoopQueue) → Kept q → q.phase ≡ handling → q.batch ≡ []
unfolding Kept
not_running q k e = elim k.2 [ inl r ↦ absurd (ground (arith, e, r)) | inr none_left ↦ none_left ]

pub in_phase : (p : Phase) (q : LoopQueue) → q.phase ≡ p → AwakeIn q.phase q → AwakeIn p q
in_phase p q e k = subst (λ x. AwakeIn x q) e k

Step-Kept : (q q' : LoopQueue) → Step q q' → Kept q → Kept q'
unfolding Kept handle_read take_functors call_first push_elsewhere wake_elsewhere push wakeup
Step-Kept q _ (pushed_elsewhere _ cb) k =
    (awake_any q.phase (push_elsewhere q cb) (omega arith), push_order q cb k.1, k.2)
Step-Kept q _ (woken_elsewhere _ h) k =
    (awake_any q.phase (wake_elsewhere q) (omega arith), k.1, k.2)
Step-Kept q _ (poll_returned _ e) k =
    (tt, k.1, inr (elim k.2 [ inl r ↦ absurd (ground (arith, e, r)) | inr n ↦ n ]))
Step-Kept q _ (woken _ e) k = (subst (λ x. AwakeIn x (handle_read q)) (sym e) tt, k.1, k.2)
Step-Kept q _ (queued_by_handler _ cb e) k = queue_in_loop-Kept q cb k (inl e)
Step-Kept q _ (taken _ e) k = (
  inl refl,
  ap (◌++◌ q.ran) (append-nil q.functors ∙ ap (λ b. b ++ q.functors) (sym (not_running q k e)))
      ∙ k.1,
  inl refl,
)
Step-Kept q _ (called_one _ f fs e b) k = (
  subst (λ x. AwakeIn x (call_first q f fs)) (sym e) (in_phase running q e k.0),
  append_assoc q.ran (f ∷ []) (fs ++ q.functors)
      ∙ ap (λ t. q.ran ++ (t ++ q.functors)) (sym b)
      ∙ k.1,
  inl e,
)
Step-Kept q _ (queued_by_functor _ cb e) k = queue_in_loop-Kept q cb k (inr e)
Step-Kept q _ (all_called _ e b) k = (in_phase running q e k.0, k.1, inr b)

pub Reaches-Kept : (q : LoopQueue) → Reaches q → Kept q
unfolding Kept
Reaches-Kept _ at_start = (inl refl, refl, inr refl)
Reaches-Kept _ (after {q} {q'} r s) = Step-Kept q q' s (Reaches-Kept q r)

-- However other threads come in between, a loop that is about to poll has nothing waiting, or a
-- wake-up pending, or a thread that queued a function has its wake-up still to write, so that no
-- function is slept on for good; and the loop has called the functions that were queued, in the
-- order in which they were, but for those that wait.
pub Reaches-IsAwake :
    (q : LoopQueue) → Reaches q → q.phase ≡ polling → IsAwake q × (q.ran ++ q.functors ≡ q.asked)
unfolding Kept
Reaches-IsAwake q r e =
    let k = Reaches-Kept q r in
    (in_phase polling q e k.0, ap (λ b. q.ran ++ (b ++ q.functors)) (sym (idle k)) ∙ k.1)
  where
    idle : Kept q → q.batch ≡ []
    idle k = elim k.2 [ inl running_now ↦ absurd (ground (arith, e, running_now)) | inr n ↦ n ]

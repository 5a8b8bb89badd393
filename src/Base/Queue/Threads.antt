-- ===== src/Base/Queue/Threads.antt =====
-- base/ThreadSafeQueue.hpp: the producers and the consumers of one queue.
--
-- A step is the critical section of `push`, a call of `notify_one`, or a part of a consumer's call
-- between two accesses of what threads share, so that the others come in between. `headMutex_` is
-- `owner`; `tailMutex_` is held within a step only. `pushed` and `popped` are what went in and came
-- out, in order.
pub mod Safety
pub mod LostWakeup
use ssxrver.Prelude.{
  ℕ, ◌+◌, ◌-◌, ◌<◌, ◌≡◌, refl, ◌≢◌, Bool, true, false, Option, some, none, List, [], ◌∷◌, ◌++◌,
  arith, ◌==◌, if◌then◌else◌,
}
use ssxrver.Base.Queue.{Node, Queue, new_queue, push, empty, pop_head}

-- Where a consumer is: in no call; with the mutex, about to test the queue, for a call that waits
-- or one that does not; with it, about to take the head out; with it, about to sleep; asleep; and
-- woken, without the mutex.
pub data Place : Type 0 where
  outside : Place
  testing : Bool → Place
  taking : Place
  dozing : Place
  asleep : Place
  woken : Place

module _ (A : Type 0) where
  pub record System : Type 0 where
    pub queue : Queue A
    pub owner : Option ℕ
    pub place : ℕ → Place
    -- `push` calls that have left their critical section and not yet called `notify_one`.
    pub notices : ℕ
    pub pushed : List A
    pub popped : List A
    -- A read through a null pointer or of a node that was given back.
    pub faulted : Bool

abbrev pub update : (ℕ → Place) → ℕ → Place → ℕ → Place
update f i a j = if j == i then a else f j

module _ {A : Type 0} where
  abbrev pub new_system : ℕ → System A
  new_system p = record {
    queue = new_queue p;
    owner = none;
    place = λ _. outside;
    notices = 0;
    pushed = [];
    popped = [];
    faulted = false;
  }

  abbrev pub move : System A → ℕ → Option ℕ → Place → System A
  move s i o a = record s { owner = o; place = update s.place i a }

  pushed_to : System A → A → Option (Queue A) → System A
  pushed_to s x none = record s { faulted = true }
  pushed_to s x (some q) = record s {
    queue = q;
    notices = s.notices + 1;
    pushed = s.pushed ++ (x ∷ []);
  }

  -- The critical section of `push`.
  unfoldable pub push_in : System A → ℕ → A → System A
  unfolding pushed_to
  push_in s p x = pushed_to s x (push s.queue p x)

  -- The test under the mutex: `tryPopHead` returns at once where nothing is there, and the
  -- predicate of `waitForData` has the call sleep.
  unfoldable pub test : System A → ℕ → Bool → System A
  test s i wait =
      if empty s.queue
      then (if wait then move s i s.owner dozing else move s i none outside)
      else move s i s.owner taking

  came_out : List A → Option A → List A
  came_out xs none = xs
  came_out xs (some x) = xs ++ (x ∷ [])

  taken_from : System A → ℕ → Option (Option A × Queue A) → System A
  taken_from s i none = record s { faulted = true }
  taken_from s i (some (v, q)) = record (move s i none outside) {
    queue = q;
    popped = came_out s.popped v;
  }

  -- `popHead`, and the mutex is given back.
  unfoldable pub take_out : System A → ℕ → System A
  unfolding came_out taken_from
  take_out s i = taken_from s i (pop_head s.queue)

  pub data Step : System A → System A → Type 0 where
    pushing : (s : System A) (p : ℕ) (x : A) → s.queue.nodes p ≡ none → Step s (push_in s p x)
    -- `notify_one` wakes some consumer that sleeps, if one does.
    notifying :
        (s : System A) (i : ℕ)
        → 0 < s.notices
        → s.place i ≡ asleep
        → Step s (record s { notices = s.notices - 1; place = update s.place i woken })
    notifying_nobody :
        (s : System A)
        → 0 < s.notices
        → ((i : ℕ) → s.place i ≢ asleep)
        → Step s (record s { notices = s.notices - 1 })
    calling :
        (s : System A) (i : ℕ) (wait : Bool)
        → s.owner ≡ none
        → s.place i ≡ outside
        → Step s (move s i (some i) (testing wait))
    deciding :
        (s : System A) (i : ℕ) (wait : Bool) → s.place i ≡ testing wait → Step s (test s i wait)
    popping : (s : System A) (i : ℕ) → s.place i ≡ taking → Step s (take_out s i)
    -- `cv_.wait` gives the mutex back and sleeps at once.
    falling_asleep : (s : System A) (i : ℕ) → s.place i ≡ dozing → Step s (move s i none asleep)
    -- It wakes for no reason as well.
    waking : (s : System A) (i : ℕ) → s.place i ≡ asleep → Step s (move s i s.owner woken)
    relocking :
        (s : System A) (i : ℕ)
        → s.owner ≡ none
        → s.place i ≡ woken
        → Step s (move s i (some i) (testing true))

  pub data Reaches (p : ℕ) : System A → Type 0 where
    at_start : Reaches p (new_system p)
    after : {s s' : System A} → Reaches p s → Step s s' → Reaches p s'

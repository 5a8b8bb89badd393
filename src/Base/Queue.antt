-- ===== src/Base/Queue.antt =====
-- base/ThreadSafeQueue.hpp: the list of nodes behind the queue of tasks.
--
-- A node has an address, and the heap says what stands there. `none` is a fault: a read through a
-- null pointer, or of a node that was given back. The address of a new node is an argument, which
-- `new` chooses among those that are free.
mod Chain
pub mod Threads
mod Tests
use ssxrver.Prelude.{
  ℕ, ◌≡◌, refl, Bool, true, false, not, Option, some, none, arith, ◌==◌, if◌then◌else◌, ◌>>=◌, ◌>>◌,
}

pub record Node (A : Type 0) : Type 0 where
  pub val : Option A
  pub next : Option ℕ

abbrev pub Heap : Type 0 → Type 0
Heap A = ℕ → Option (Node A)

module _ {A : Type 0} where
  abbrev pub write : Heap A → ℕ → Option (Node A) → Heap A
  write h p c a = if a == p then c else h a

  -- `new node`
  abbrev pub blank : Node A
  blank = record { val = none; next = none }

pub record Queue (A : Type 0) : Type 0 where
  pub nodes : Heap A
  pub head : ℕ
  pub tail : ℕ

module _ {A : Type 0} where
  unfoldable pub new_queue : ℕ → Queue A
  new_queue p = record { nodes = write (λ _. none) p (some blank); head = p; tail = p }

  -- `push`, its critical section with the node that it made before.
  unfoldable pub push : Queue A → ℕ → A → Option (Queue A)
  push q p x = do
    last ← q.nodes q.tail
    let made = write q.nodes p (some blank)
    let filled = write made q.tail (some (record { val = some x; next = some p }))
    some (record { nodes = filled; head = q.head; tail = p })

  -- `head_.get() == getTail()`
  unfoldable pub empty : Queue A → Bool
  empty q = q.head == q.tail

  -- `popHead` with the value of the node that it takes out, whose owner gives it back. A pointer
  -- to no value is dereferenced by the callers that copy the value.
  unfoldable pub pop_head : Queue A → Option (Option A × Queue A)
  pop_head q = do
    old ← q.nodes q.head
    next ← old.next
    some (old.val, record { nodes = write q.nodes q.head none; head = next; tail = q.tail })

  -- `tryPop`: no value where the queue is empty.
  unfoldable pub try_pop : Queue A → Option (Option A × Queue A)
  try_pop q = if empty q then some (none, q) else pop_head q

  -- `tryPop` into a variable.
  unfoldable pub try_pop_into : Queue A → Option (Option A × Queue A)
  try_pop_into q =
      if empty q
      then some (none, q)
      else do first ← q.nodes q.head; x ← first.val; (_, q') ← pop_head q; some (some x, q')

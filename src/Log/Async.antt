-- ===== src/Log/Async.antt =====
-- base/AsyncLogThread.cpp: the buffers that the logging threads and the writing thread share.
--
-- Each critical section is one step, and so is what the writing thread does between two of them.
-- `file_append` of the thread's `LogFile` is what it writes, in order. `none` is an abort by a
-- failed assertion.
pub mod Delivery
pub mod Rounds
pub mod Schedules
use ssxrver.Prelude.{
  ℕ, zero, suc, ◌+◌, ◌-◌, ◌*◌, ◌/◌, ◌%◌, ◌^◌, ◌≤◌, ◌<◌, min, ◌≡◌, refl, sym, ap, ◌∙◌, ◌≢◌, ◌↔◌, ◌⊎◌,
  inl, inr, Bool, true, false, not, ◌&&◌, ◌||◌, Option, none, some, List, [], ◌∷◌, ◌++◌, map,
  append-nil, append_assoc, arith, ltb, leb, ◌==◌, if◌then◌else◌, ltb→lt, lt→ltb, leb→le, ==_iff,
  tests, Bool-cases, Option-cases, length, get_elem?, set, length-append, length-set,
  get_elem?-set_self, get_elem?-set_ne, get_or, take, drop, replicate, take-append-drop,
  length-take, length-drop, length-replicate, length-map, take-append, drop-append, take_all,
  drop_all, take-append_past, drop-drop, drop-take, take-take, select, All, All-append, All-map,
  ◌>>=◌, ◌>>◌, assert, codes, same, strncmp_equal, c_str, value_from, decimal_onto, decimal,
}
use ssxrver.Log.Stream.{FixedBuffer, append, reset, new_buffer, large_buffer, avail}

-- What the lock guards: `currentBuffer_`, which is never null outside the critical sections,
-- `nextBuffer_` and `buffers_`.
pub record Shared : Type 0 where
  pub current : FixedBuffer
  pub next : Option FixedBuffer
  pub buffers : List FixedBuffer

-- The variables of `threadFunc`, and what it wrote to the file.
pub record Writer : Type 0 where
  pub new1 : Option FixedBuffer
  pub new2 : Option FixedBuffer
  pub to_write : List FixedBuffer
  pub written : List ℕ

abbrev pub fresh_buffer : FixedBuffer
fresh_buffer = record { size = large_buffer; bytes = [] }

abbrev pub new_shared : Shared
new_shared = record { current = fresh_buffer; next = some fresh_buffer; buffers = [] }

abbrev pub new_writer : Writer
new_writer = record {
  new1 = some fresh_buffer;
  new2 = some fresh_buffer;
  to_write = [];
  written = [];
}

-- `nextBuffer_`, or else a new buffer.
abbrev pub or_fresh : Option FixedBuffer → FixedBuffer
or_fresh none = fresh_buffer
or_fresh (some b) = b

-- `append`, in a logging thread.
unfoldable pub log : Shared → List ℕ → Shared
log s line =
    if ltb (length line) (avail s.current)
    then record s { current = append s.current line }
    else record {
      current = append (or_fresh s.next) line;
      next = none;
      buffers = s.buffers ++ (s.current ∷ []);
    }

-- `assert(newBuffer && newBuffer->length() == 0)`.
unfoldable pub empty_one : Option FixedBuffer → Option FixedBuffer
empty_one none = none
empty_one (some b) = do assert (length b.bytes == 0); some b

-- Where `nextBuffer_` is null it takes `newBuffer2`.
take_next : Shared → FixedBuffer → Writer → Shared × Writer
take_next s b2 w = elim s.next [
  | none ↦ (record s { next = some b2 }, record w { new2 = none })
  | some b ↦ (s, w)
]

-- The assertions at the head of the loop, and its critical section. Whether `wait_for` waited, and
-- what ended the wait, is not told apart.
unfoldable pub gather : Shared → Writer → Option (Shared × Writer)
unfolding take_next empty_one
gather s w = do
  b1 ← empty_one w.new1
  b2 ← empty_one w.new2
  assert (length w.to_write == 0)
  some (
      take_next (record s { current = b1; buffers = [] }) b2
        (record w { new1 = none; to_write = s.buffers ++ (s.current ∷ []) }))

unfoldable pub texts : List FixedBuffer → List ℕ
texts [] = []
texts (b ∷ bs) = b.bytes ++ texts bs

-- The last of the list and those before it.
unfoldable pub pop_back : List FixedBuffer → Option (FixedBuffer × List FixedBuffer)
pop_back [] = none
pop_back (b ∷ bs) = elim (pop_back bs) [
  | none ↦ some (b, [])
  | some (last, rest) ↦ some (last, b ∷ rest)
]

-- A buffer is taken from the back where there is none; the assertion is that one is left.
unfoldable pub refill :
    Option FixedBuffer → List FixedBuffer → Option (Option FixedBuffer × List FixedBuffer)
unfolding pop_back
refill (some b) bs = some (some b, bs)
refill none bs = do (last, rest) ← pop_back bs; some (some (reset last), rest)

-- What is kept of a backlog of more than 25 buffers.
unfoldable pub cut_backlog : List FixedBuffer → List FixedBuffer
cut_backlog bs = if ltb 25 (length bs) then take 2 bs else bs

-- The rest of the loop's body.
unfoldable pub write_out : Writer → Option Writer
unfolding refill
write_out w = do
  assert (ltb 0 (length w.to_write))
  let bs = cut_backlog w.to_write
  (n1, rest1) ← refill w.new1 (take 2 bs)
  (n2, rest2) ← refill w.new2 rest1
  some (record { new1 = n1; new2 = n2; to_write = []; written = w.written ++ texts bs })

-- ===== src/Log/Async/Schedules.antt =====
-- base/AsyncLogThread.cpp: any number of logging threads and the writing thread.
--
-- A step is a call of `append` in a logging thread, an assignment of `running_`, or the test of the
-- loop, the critical section or the rest of a round of the writing thread. `asked` is what was logged, in the order of the critical sections.
pub mod Drains
pub mod Life
use ssxrver.Prelude.{
  ℕ, ◌≤◌, ◌<◌, ◌≡◌, refl, sym, ap, ◌∙◌, inl, inr, Bool, true, false, ◌||◌, Option, none, some, List,
  [], ◌∷◌, ◌++◌, append-nil, arith, ltb, Bool-cases, Option-cases, length, length-append, not,
}
use ssxrver.Log.Stream.{FixedBuffer, large_buffer}
use ssxrver.Log.Async.{
  Shared, Writer, new_shared, new_writer, fresh_buffer, log, gather, write_out, texts,
}
use ssxrver.Log.Async.Delivery.{
  ready, IsShared, IsIdle, idle, IsBusy, logged, log-IsShared, gather_lem,
}
use ssxrver.Log.Async.Rounds.{write_out_after, after_write, after_write-logged}
use mathlib.Core.Path.{subst}
use ssxrver.Log.Async.{take_next, empty_one}

pub record System : Type 0 where
  pub shared : Shared
  pub writer : Writer
  -- The writing thread is between its critical section and the end of the round.
  pub busy : Bool
  pub running : Bool
  -- It has found `running_` set and not yet come to its critical section.
  pub passed : Bool
  -- It has found `running_` cleared, and left the loop.
  pub ended : Bool
  pub asked : List ℕ
  -- An assertion failed.
  pub aborted : Bool
  -- A backlog of more than 25 buffers was cut.
  pub dropped : Bool

abbrev pub new_system : System
new_system = record {
  shared = new_shared;
  writer = new_writer;
  busy = false;
  running = false;
  passed = false;
  ended = false;
  asked = [];
  aborted = false;
  dropped = false;
}

unfoldable pub log_in : System → List ℕ → System
log_in s line = record s { shared = log s.shared line; asked = s.asked ++ line }

abbrev gathered : System → Option (Shared × Writer) → System
gathered s none = record s { aborted = true }
gathered s (some (shared', w')) = record s {
  shared = shared';
  writer = w';
  busy = true;
  passed = false;
}

unfoldable pub gather_in : System → System
gather_in s = gathered s (gather s.shared s.writer)

abbrev wrote : System → Option Writer → System
wrote s none = record s { aborted = true }
wrote s (some w') = record s {
  writer = w';
  busy = false;
  dropped = s.dropped || ltb 25 (length s.writer.to_write);
}

unfoldable pub write_in : System → System
write_in s = wrote s (write_out s.writer)

-- The test of the loop.
unfoldable pub test_in : System → System
test_in s = record s { passed = s.running; ended = not s.running }

pub data Step : System → System → Type 0 where
  logging : (s : System) (line : List ℕ) → length line < large_buffer → Step s (log_in s line)
  -- The assignments of `start` and `stop`.
  started : (s : System) → Step s (record s { running = true })
  stopped : (s : System) → Step s (record s { running = false })
  testing : (s : System) → s.busy ≡ false → s.passed ≡ false → s.ended ≡ false → Step s (test_in s)
  gathering : (s : System) → s.busy ≡ false → s.passed ≡ true → Step s (gather_in s)
  writing : (s : System) → s.busy ≡ true → Step s (write_in s)

pub data Reaches : System → Type 0 where
  at_start : Reaches new_system
  after : {s s' : System} → Reaches s → Step s s' → Reaches s'

abbrev WriterIn : Bool → Writer → Type 0
WriterIn true w = IsBusy w
WriterIn false w = IsIdle w

record Kept (s : System) : Type 0 where
  order : IsShared s.shared
  at_work : WriterIn s.busy s.writer
  sound : s.aborted ≡ false
  complete : s.dropped ≡ false → logged s.shared s.writer ≡ s.asked

or_false : (a b : Bool) → a || b ≡ false → (a ≡ false) × (b ≡ false)
or_false true b h = absurd (ground (arith, h))
or_false false b h = (refl, h)

Step-Kept : (s s' : System) → Step s s' → Kept s → Kept s'
unfolding log_in gather_in write_in test_in after_write
Step-Kept s _ (logging _ line short) k =
    let (order', text) = log-IsShared s.shared s.writer line k.order short in
    record {
      order = order';
      at_work = k.at_work;
      sound = k.sound;
      complete = λ d. text ∙ ap (λ t. t ++ line) (k.complete d);
    }
Step-Kept s _ (started _) k = record {
  order = k.order;
  at_work = k.at_work;
  sound = k.sound;
  complete = k.complete;
}
Step-Kept s _ (stopped _) k = record {
  order = k.order;
  at_work = k.at_work;
  sound = k.sound;
  complete = k.complete;
}
Step-Kept s _ (testing _ e f g) k = record {
  order = k.order;
  at_work = k.at_work;
  sound = k.sound;
  complete = k.complete;
}
Step-Kept s _ (gathering _ e f) k =
    let (s1, w1, run, v, b, text) =
      gather_lem s.shared s.writer k.order (subst (λ x. WriterIn x s.writer) e k.at_work) in
    subst (λ o. Kept (gathered s o)) (sym run)
      (record { order = v; at_work = b; sound = k.sound; complete = λ d. text ∙ k.complete d })
Step-Kept s _ (writing _ e) k =
    let b : IsBusy s.writer = subst (λ x. WriterIn x s.writer) e k.at_work in
    subst (λ o. Kept (wrote s o)) (sym (write_out_after s.writer b))
      (record { order = k.order; at_work = idle; sound = k.sound; complete = λ d. ground_few d })
  where
    ground_few :
        s.dropped || ltb 25 (length s.writer.to_write) ≡ false
        → logged s.shared (after_write s.writer.to_write s.writer.written) ≡ s.asked
    ground_few d =
        let (before, few) = or_false s.dropped _ d in
        after_write-logged s.shared s.writer.to_write s.writer.written (ground (arith, few))
        ∙ k.complete before

Reaches-Kept : (s : System) → Reaches s → Kept s
unfolding texts
Reaches-Kept _ at_start = record {
  order = record { filling = (omega arith, refl); spare = ready; full = tt };
  at_work = idle;
  sound = refl;
  complete = λ d. refl;
}
Reaches-Kept _ (after {s} {s'} r t) = Step-Kept s s' t (Reaches-Kept s r)

-- In every schedule of threads that log lines shorter than a buffer and of the writing thread, as
-- long as no backlog was cut, no assertion fails, and the file, the buffers on their way to it and those
-- being filled together have all that was logged, in order.
pub Reaches-logged :
    (s : System)
    → Reaches s
    → s.dropped ≡ false
    → (s.aborted ≡ false) × (logged s.shared s.writer ≡ s.asked)
Reaches-logged s r d = let k = Reaches-Kept s r in (k.sound, k.complete d)

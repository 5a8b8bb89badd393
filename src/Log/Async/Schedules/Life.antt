-- ===== src/Log/Async/Schedules/Life.antt =====
-- base/AsyncLogThread.cpp: the log from `start` to the end of its thread.
--
-- `start` waits until the new thread has counted down, so that `stop` comes before or behind that.
-- Other threads may log at any time. `gathered_up` is what had been logged at the last critical
-- section of the writing thread.
use ssxrver.Prelude.{
  ℕ, ◌<◌, ◌≡◌, refl, sym, ap, ◌∙◌, ◌≢◌, Bool, true, false, List, [], ◌++◌, append-nil, arith,
  if◌then◌else◌, length, not, Option, none, some,
}
use mathlib.Core.Path.{subst}
use ssxrver.Log.Stream.{FixedBuffer, large_buffer}
use ssxrver.Log.Async.{Writer, new_shared, texts}
use ssxrver.Log.Async.Delivery.{IsIdle, idle, IsBusy, gather_lem}
use ssxrver.Log.Async.Rounds.{write_out_after, after_write, after_write-logged}
use ssxrver.Log.File.{WriteFile, open_file}
use ssxrver.Log.Async.Schedules.{
  System, new_system, gathered, gather_in, wrote, write_in, log_in, Reaches as Moves, WriterIn,
  Reaches-Kept, Reaches-logged, logging, gathering, writing, testing as tests_it, started, stopped,
  test_in, or_false, at_start as no_move, after as then_move,
}
use ssxrver.Log.Async.Schedules.Drains.{gather_parts}

-- Where `threadFunc` is: not there yet, before its assertion, before it opens the file, at the test
-- of `running_`, before the critical section, behind it, or at its end; or an assertion has failed.
pub data Place : Type 0 where
  unborn entering opening testing at_section at_file ended failed : Place

pub record Logger : Type 0 where
  pub system : System
  pub place : Place
  pub gathered_up : List ℕ

unfoldable pub new_logger : Logger
new_logger = record { system = new_system; place = unborn; gathered_up = [] }

unfoldable pub start : Logger → Logger
start l = record l { system = record l.system { running = true }; place = entering }

-- The notice wakes the writing thread, which may also wake by itself.
unfoldable pub stop : Logger → Logger
stop l = record l { system = record l.system { running = false } }

-- `assert(running_)`, behind which the thread that started it goes on.
unfoldable pub enter : Logger → Logger
enter l = record l { place = if l.system.running then opening else failed }

-- The construction of the `LogFile`, which opens a file: `checked` is whether the build has the
-- assertion of `WriteFile`, which is of an error, and `err` is what `ferror` answers. So the thread gets
-- no further in a build that has it, where the file opens well.
unfoldable pub open_log : Bool → ℕ → Logger → Logger
open_log checked err l = record l {
  place = elim (open_file checked err) [ none ↦ failed | some f ↦ testing ];
}

-- The test of the loop; behind the loop the file is flushed.
unfoldable pub test_running : Logger → Logger
test_running l = record l {
  system = test_in l.system;
  place = if l.system.running then at_section else ended;
}

pub data Step : Logger → Logger → Type 0 where
  starting : (l : Logger) → l.place ≡ unborn → Step l (start l)
  stopping : (l : Logger) → l.place ≢ entering → Step l (stop l)
  asserting : (l : Logger) → l.place ≡ entering → Step l (enter l)
  opened :
      (l : Logger) (checked : Bool) (err : ℕ) → l.place ≡ opening → Step l (open_log checked err l)
  tested : (l : Logger) → l.place ≡ testing → Step l (test_running l)
  logged_one :
      (l : Logger) (line : List ℕ)
      → length line < large_buffer
      → Step l (record l { system = log_in l.system line })
  gathered_all :
      (l : Logger)
      → l.place ≡ at_section
      → Step l
          (record l { system = gather_in l.system; place = at_file; gathered_up = l.system.asked })
  wrote_all :
      (l : Logger)
      → l.place ≡ at_file
      → Step l (record l { system = write_in l.system; place = testing })

pub data Reaches : Logger → Type 0 where
  at_start : Reaches new_logger
  after : {l l' : Logger} → Reaches l → Step l l' → Reaches l'

abbrev is_at_file : Place → Bool
is_at_file at_file = true
is_at_file unborn = false
is_at_file entering = false
is_at_file opening = false
is_at_file testing = false
is_at_file at_section = false
is_at_file ended = false
is_at_file failed = false

abbrev is_at_section : Place → Bool
is_at_section at_section = true
is_at_section unborn = false
is_at_section entering = false
is_at_section opening = false
is_at_section testing = false
is_at_section at_file = false
is_at_section ended = false
is_at_section failed = false

abbrev is_at_end : Place → Bool
is_at_end ended = true
is_at_end unborn = false
is_at_end entering = false
is_at_end opening = false
is_at_end testing = false
is_at_end at_section = false
is_at_end at_file = false
is_at_end failed = false

record Held (l : Logger) : Type 0 where
  moves : Moves l.system
  busy : l.system.busy ≡ is_at_file l.place
  passed : l.system.passed ≡ is_at_section l.place
  over : l.system.ended ≡ is_at_end l.place
  taken :
      l.system.dropped ≡ false
      → l.system.writer.written ++ texts l.system.writer.to_write ≡ l.gathered_up

gathers :
    (s : System)
    → Moves s
    → s.busy ≡ false
    → ((gather_in s).busy ≡ true)
      × ((gather_in s).dropped ≡ false
          → (gather_in s).writer.written ++ texts (gather_in s).writer.to_write ≡ s.asked)
unfolding gather_in texts
gathers s m e =
    let k = Reaches-Kept s m in
    let idle_now : IsIdle s.writer = subst (λ x. WriterIn x s.writer) e k.at_work in
    let (sh, w, run, v, b, text) = gather_lem s.shared s.writer k.order idle_now in
    let (all, no_full, no_bytes, _) = gather_parts s.shared sh s.writer w idle_now run in
    subst
      (λ o.
        ((gathered s o).busy ≡ true)
        × ((gathered s o).dropped ≡ false
            → (gathered s o).writer.written ++ texts (gathered s o).writer.to_write ≡ s.asked))
      (sym run)
      (
        refl,
        λ d.
            ap (◌++◌ w.written) (
              sym (append-nil (texts w.to_write))
              ∙ sym (ap (λ c. texts w.to_write ++ (texts c ++ [])) no_full)
              ∙ sym (
                  ap (λ c. texts w.to_write ++ (texts sh.buffers ++ FixedBuffer.bytes c)) no_bytes))
            ∙ text
            ∙ k.complete d,
      )

writes :
    (s : System) (up : List ℕ)
    → Moves s
    → s.busy ≡ true
    → (s.dropped ≡ false → s.writer.written ++ texts s.writer.to_write ≡ up)
    → ((write_in s).busy ≡ false)
      × ((write_in s).dropped ≡ false
          → (write_in s).writer.written ++ texts (write_in s).writer.to_write ≡ up)
unfolding write_in after_write texts
writes s up m e taken =
    let k = Reaches-Kept s m in
    let b : IsBusy s.writer = subst (λ x. WriterIn x s.writer) e k.at_work in
    let bs = s.writer.to_write in
    let out = s.writer.written in
    subst
      (λ o.
        ((wrote s o).busy ≡ false)
        × ((wrote s o).dropped ≡ false
            → (wrote s o).writer.written ++ texts (wrote s o).writer.to_write ≡ up))
      (sym (write_out_after s.writer b))
      (
        refl,
        λ d.
            let (before, few) = or_false s.dropped _ d in
            after_write-logged new_shared bs out (ground (arith, few))
            ∙ ap (◌++◌ out) (append-nil (texts bs))
            ∙ taken before,
      )

-- A step of the thread to another place where it is not at its file.
at_place :
    (l : Logger) (p : Place)
    → is_at_file l.place ≡ is_at_file p
    → is_at_section l.place ≡ is_at_section p
    → is_at_end l.place ≡ is_at_end p
    → Held l
    → Held (record l { place = p })
at_place l p a b c h = record {
  moves = h.moves;
  busy = h.busy ∙ a;
  passed = h.passed ∙ b;
  over = h.over ∙ c;
  taken = h.taken;
}

gathers_flags :
    (s : System)
    → Moves s
    → s.busy ≡ false
    → ((gather_in s).passed ≡ false) × ((gather_in s).ended ≡ s.ended)
unfolding gather_in
gathers_flags s m e =
    let k = Reaches-Kept s m in
    let idle_now : IsIdle s.writer = subst (λ x. WriterIn x s.writer) e k.at_work in
    let (sh, w, run, _, _, _) = gather_lem s.shared s.writer k.order idle_now in
    subst (λ o. ((gathered s o).passed ≡ false) × ((gathered s o).ended ≡ s.ended)) (sym run)
      (refl, refl)

writes_flags :
    (s : System)
    → Moves s
    → s.busy ≡ true
    → ((write_in s).passed ≡ s.passed) × ((write_in s).ended ≡ s.ended)
unfolding write_in
writes_flags s m e =
    let k = Reaches-Kept s m in
    let b : IsBusy s.writer = subst (λ x. WriterIn x s.writer) e k.at_work in
    subst (λ o. ((wrote s o).passed ≡ s.passed) × ((wrote s o).ended ≡ s.ended))
      (sym (write_out_after s.writer b)) (refl, refl)

Step-Held : (l l' : Logger) → Step l l' → Held l → Held l'
unfolding start stop enter open_log test_running test_in log_in
Step-Held l _ (starting _ e) h = record {
  moves = then_move h.moves (started l.system);
  busy = h.busy ∙ ap is_at_file e;
  passed = h.passed ∙ ap is_at_section e;
  over = h.over ∙ ap is_at_end e;
  taken = h.taken;
}
Step-Held l _ (stopping _ e) h = record {
  moves = then_move h.moves (stopped l.system);
  busy = h.busy;
  passed = h.passed;
  over = h.over;
  taken = h.taken;
}
Step-Held l _ (asserting _ e) h = by_test l.system.running
  where
    by_test : (b : Bool) → Held (record l { place = if b then opening else failed })
    by_test true = at_place l opening (ap is_at_file e) (ap is_at_section e) (ap is_at_end e) h
    by_test false = at_place l failed (ap is_at_file e) (ap is_at_section e) (ap is_at_end e) h
Step-Held l _ (opened _ checked err e) h = by_open (open_file checked err)
  where
    by_open :
        (o : Option WriteFile)
        → Held (record l { place = elim o [ none ↦ failed | some f ↦ testing ] })
    by_open none = at_place l failed (ap is_at_file e) (ap is_at_section e) (ap is_at_end e) h
    by_open (some f) = at_place l testing (ap is_at_file e) (ap is_at_section e) (ap is_at_end e) h
Step-Held l _ (tested _ e) h = by_test l.system.running refl
  where
    moved : Moves (test_in l.system)
    moved = then_move h.moves (
        tests_it l.system (h.busy ∙ ap is_at_file e) (h.passed ∙ ap is_at_section e)
          (h.over ∙ ap is_at_end e))

    by_test :
        (b : Bool)
        → l.system.running ≡ b
        → Held (record l { system = test_in l.system; place = if b then at_section else ended })
    by_test true on = record {
      moves = moved;
      busy = h.busy ∙ ap is_at_file e;
      passed = on;
      over = ap not on;
      taken = h.taken;
    }
    by_test false off = record {
      moves = moved;
      busy = h.busy ∙ ap is_at_file e;
      passed = off;
      over = ap not off;
      taken = h.taken;
    }
Step-Held l _ (logged_one _ line short) h = record {
  moves = then_move h.moves (logging l.system line short);
  busy = h.busy;
  passed = h.passed;
  over = h.over;
  taken = h.taken;
}
Step-Held l _ (gathered_all _ e) h =
    let free = h.busy ∙ ap is_at_file e in
    let (busy', taken') = gathers l.system h.moves free in
    let (passed', over') = gathers_flags l.system h.moves free in
    record {
      moves = then_move h.moves (gathering l.system free (h.passed ∙ ap is_at_section e));
      busy = busy';
      passed = passed';
      over = over' ∙ h.over ∙ ap is_at_end e;
      taken = taken';
    }
Step-Held l _ (wrote_all _ e) h =
    let full = h.busy ∙ ap is_at_file e in
    let (busy', taken') = writes l.system l.gathered_up h.moves full h.taken in
    let (passed', over') = writes_flags l.system h.moves full in
    record {
      moves = then_move h.moves (writing l.system full);
      busy = busy';
      passed = passed' ∙ h.passed ∙ ap is_at_section e;
      over = over' ∙ h.over ∙ ap is_at_end e;
      taken = taken';
    }

Reaches-Held : (l : Logger) → Reaches l → Held l
unfolding new_logger texts
Reaches-Held _ at_start = record {
  moves = no_move;
  busy = refl;
  passed = refl;
  over = refl;
  taken = λ d. refl;
}
Reaches-Held _ (after {l} {l'} r s) = Step-Held l l' s (Reaches-Held l r)

-- In every schedule, with no backlog cut: once the writing thread has left its loop, its file has
-- just what had been logged at its last critical section. All that was logged behind that, before
-- `stop` as well, is left in the buffers, and no assertion of the loop has failed.
pub Reaches-ended :
    (l : Logger)
    → Reaches l
    → l.place ≡ ended
    → l.system.dropped ≡ false
    → (l.system.writer.written ≡ l.gathered_up)
      × (l.system.asked
          ≡ l.gathered_up ++ (texts l.system.shared.buffers ++ l.system.shared.current.bytes))
      × (l.system.aborted ≡ false)
unfolding texts
Reaches-ended l r e d =
    let h = Reaches-Held l r in
    let free : l.system.busy ≡ false = h.busy ∙ ap is_at_file e in
    let k = Reaches-Kept l.system h.moves in
    let (none_to_write, filed) =
      by_idle l.system.writer (subst (λ x. WriterIn x l.system.writer) free k.at_work)
        (h.taken d) in
    let s = l.system in
    let (sound, all) = Reaches-logged s h.moves d in
    (
      filed,
      sym all
          ∙ ap (λ t. s.writer.written ++ (t ++ (texts s.shared.buffers ++ s.shared.current.bytes)))
              none_to_write
          ∙ ap (λ t. t ++ (texts s.shared.buffers ++ s.shared.current.bytes)) filed,
      sound,
    )
  where
    by_idle :
        (w : Writer)
        → IsIdle w
        → w.written ++ texts w.to_write ≡ l.gathered_up
        → (texts w.to_write ≡ []) × (w.written ≡ l.gathered_up)
    by_idle _ (idle {out}) t = (refl, sym (append-nil out) ∙ t)

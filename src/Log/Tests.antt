-- ===== src/Log/Tests.antt =====
-- The theorems on the log, at small values.
use ssxrver.Prelude.{
  ℕ, ◌<◌, ◌≡◌, refl, ◌⊎◌, none, some, List, [], ◌∷◌, ◌++◌, arith, length, codes, value_from, false,
}
use ssxrver.Log.Stream.{FixedBuffer, append, pos, negsuc, convert, format_integer}
use ssxrver.Log.Stream.Numbers.{convert_lem, format_integer_lem}
use ssxrver.Log.Async.{log, gather}
use ssxrver.Log.Async.Delivery.{logged}
use ssxrver.Log.Async.Schedules.{
  System, new_system, log_in, gather_in, Reaches, at_start, after, logging, gathering, started,
  testing, test_in, Reaches-logged,
}
use ssxrver.Log.Async.Schedules.Drains.{ByWriter, Reaches-drains}
use ssxrver.Log.Async.Schedules.Life
use ssxrver.Log.Async.Schedules.Life.{Logger, ended, Reaches-ended}
use ssxrver.Log.File.{
  LogFile, Entry, append_all, append_unlocked, roll_file, open_file, write_loop, read_to_buffer,
  read,
}
use ssxrver.Log.File.Rolls.{IsRolled, text, append_all_lem}
use ssxrver.Prelude.{true, false}
use ssxrver.Log.Async.Delivery.{logged}

convert_lem_example :
    (ds : List ℕ) × (convert (negsuc 41) ≡ codes "-" ++ ds) × (value_from 0 ds ≡ 42)
convert_lem_example = convert_lem (negsuc 41) (omega arith)

convert_text : convert (negsuc 41) ≡ codes "-42"
unfolding convert
convert_text = refl

abbrev roomy : FixedBuffer
roomy = record { size = 30; bytes = codes "n = " }

format_integer_lem_example :
    (format_integer roomy (pos 1024) ≡ roomy)
    ⊎ (length (format_integer roomy (pos 1024)).bytes < (format_integer roomy (pos 1024)).size)
format_integer_lem_example = format_integer_lem roomy (pos 1024) (omega arith)

-- The log started, one line logged, and the test of the loop behind it.
abbrev up : System
up = record new_system { running = true }

abbrev one_logged : System
one_logged = log_in up (codes "up")

abbrev one_tested : System
one_tested = test_in one_logged

one_logged-Reaches : Reaches one_logged
one_logged-Reaches =
    after (after at_start (started new_system)) (logging up (codes "up") (omega arith))

one_tested-Reaches : Reaches one_tested
unfolding log_in
one_tested-Reaches = after one_logged-Reaches (testing one_logged refl refl refl)

Reaches-logged_example :
    ((gather_in one_tested).aborted ≡ false)
    × (logged (gather_in one_tested).shared (gather_in one_tested).writer
        ≡ (gather_in one_tested).asked)
unfolding log_in test_in gather_in gather log append
Reaches-logged_example =
    Reaches-logged (gather_in one_tested)
      (after one_tested-Reaches (gathering one_tested refl refl)) clean
  where
    clean : (gather_in one_tested).dropped ≡ false
    clean = refl

Reaches-drains_example :
    (s' : System) × ByWriter one_logged s'
    × (s'.writer.written ≡ one_logged.asked)
    × (s'.dropped ≡ false)
unfolding log_in log append
Reaches-drains_example =
    Reaches-drains one_logged one_logged-Reaches refl refl refl (omega arith) (omega arith)

abbrev log_file : LogFile
log_file = record { roll_size = 4; closed = []; file = record { content = []; write_len = 0 } }

abbrev entries : List Entry
entries =
    record { log = codes "abc"; answers = 2 ∷ 1 ∷ 1 ∷ 1 ∷ [] }
    ∷ record { log = codes "de"; answers = 9 ∷ 9 ∷ 9 ∷ [] }
    ∷ record { log = codes "f"; answers = 1 ∷ 1 ∷ [] }
    ∷ []

log_file-IsRolled : IsRolled log_file
log_file-IsRolled = record { short = omega arith; whole = refl; full = tt }

append_all_lem_example :
    (l' : LogFile) × (append_all false 0 log_file entries ≡ some l')
    × IsRolled l'
    × (text l' ≡ codes "abcdef")
append_all_lem_example = append_all_lem log_file entries (omega arith) log_file-IsRolled (
  record {
    enough = omega arith;
    positive = (omega arith, (omega arith, (omega arith, (omega arith, tt))));
  },
  (
    record { enough = omega arith; positive = (omega arith, (omega arith, (omega arith, tt))) },
    (record { enough = omega arith; positive = (omega arith, (omega arith, tt)) }, tt),
  ),
)

append_all_test :
    append_all false 0 log_file entries
    ≡ some (record {
      roll_size = 4;
      closed = record { content = codes "abcde"; write_len = 5 } ∷ [];
      file = record { content = codes "f"; write_len = 1 };
    })
unfolding append_all append_unlocked roll_file open_file ssxrver.Log.File.append write_loop
append_all_test = refl

-- With the assertions that the build keeps, a file that opens well ends the process.
open_file_test : open_file true 0 ≡ none
unfolding open_file
open_file_test = refl

read_test : read_to_buffer none (codes "abc") (read 2) ≡ (0, codes "ab")
unfolding read_to_buffer
read_test = refl

-- `stop` comes before the first round, and what was logged stays in memory. The build has no
-- assertion of `WriteFile`.
abbrev entered : Logger
entered = Life.enter (Life.start Life.new_logger)

abbrev at_test : Logger
at_test = Life.open_log false 0 entered

abbrev line_in : Logger
line_in = record at_test { system = log_in at_test.system (codes "x") }

abbrev stopped_early : Logger
stopped_early = Life.test_running (Life.stop line_in)

stopped_early-Reaches : Life.Reaches stopped_early
unfolding Life.new_logger Life.start Life.stop Life.enter Life.open_log ssxrver.Log.File.open_file
stopped_early-Reaches =
    Life.after
      (Life.after
        (Life.after
          (Life.after
            (Life.after (Life.after Life.at_start (Life.starting Life.new_logger refl))
              (Life.asserting (Life.start Life.new_logger) refl))
            (Life.opened entered false 0 refl))
          (Life.logged_one at_test (codes "x") (omega arith)))
        (Life.stopping line_in (λ e. ground (arith, e))))
      (Life.tested (Life.stop line_in) refl)

Reaches-ended_example :
    (stopped_early.system.writer.written ≡ [])
    × (stopped_early.system.asked ≡ codes "x")
    × (stopped_early.system.aborted ≡ false)
unfolding log_in ssxrver.Log.Async.texts log append Life.new_logger Life.start Life.stop Life.enter
    Life.open_log Life.test_running test_in ssxrver.Log.File.open_file
Reaches-ended_example = Reaches-ended stopped_early stopped_early-Reaches refl refl

-- ===== src/Log/Front.antt =====
-- base/Logging.h and base/Logging.cpp: a statement of the log, from its macro to the output.
--
-- What is streamed in is a list of texts. The thread's number as text and the texts of `strerror_r`
-- are arguments. `Sink` is what `g_output` was given, oldest first, and how often `g_flush` ran.
pub mod Line
mod Tests
use ssxrver.Prelude.{
  ℕ, zero, suc, ◌+◌, ◌-◌, ◌*◌, ◌/◌, ◌%◌, ◌^◌, ◌≤◌, ◌<◌, min, ◌≡◌, refl, sym, ap, ◌∙◌, ◌≢◌, ◌↔◌, ◌⊎◌,
  inl, inr, Bool, true, false, not, ◌&&◌, ◌||◌, Option, none, some, List, [], ◌∷◌, ◌++◌, map,
  append-nil, append_assoc, arith, ltb, leb, ◌==◌, if◌then◌else◌, ltb→lt, lt→ltb, leb→le, ==_iff,
  tests, Bool-cases, Option-cases, length, get_elem?, set, length-append, length-set,
  get_elem?-set_self, get_elem?-set_ne, get_or, take, drop, replicate, take-append-drop,
  length-take, length-drop, length-replicate, length-map, take-append, drop-append, take_all,
  drop_all, take-append_past, drop-drop, drop-take, take-take, select, All, All-append, All-map,
  ◌>>=◌, ◌>>◌, assert, codes, same, strncmp_equal, c_str, value_from, decimal_onto, decimal,
}
use ssxrver.Log.Stream.{
  FixedBuffer, new_buffer, small_buffer, append, put_string, put_c_string, put_char, format_integer,
  ℤ, pos,
}

pub data Level : Type 0 where
  debug info warn error fatal : Level

abbrev pub rank : Level → ℕ
rank debug = 0
rank info = 1
rank warn = 2
rank error = 3
rank fatal = 4

-- `LogLevelName`.
abbrev pub level_name : Level → List ℕ
level_name debug = codes "DEBUG "
level_name info = codes "INFO  "
level_name warn = codes "WARN  "
level_name error = codes "ERROR "
level_name fatal = codes "FATAL "

-- `SourceFile`: what stands behind the last slash, `current` behind the last one so far.
unfoldable pub base_from : List ℕ → List ℕ → List ℕ
base_from current [] = current
base_from current (c ∷ cs) =
    let behind = base_from cs cs in let on = base_from current cs in if c == 47 then behind else on

unfoldable pub source_file : List ℕ → List ℕ
unfolding base_from
source_file path = base_from path path

-- Where a statement stands, and in which thread it runs.
pub record Site : Type 0 where
  pub tid_string : List ℕ
  pub file : List ℕ
  pub line : ℕ
  pub strerror : ℕ → List ℕ

-- The macros: `LOG_DEBUG` with its function's name, and the last two with `errno`.
pub data Statement : Type 0 where
  log_debug : List ℕ → Statement
  log_info log_warn log_error log_fatal : Statement
  log_syserr log_sysfatal : ℕ → Statement

-- The level and the error with which the constructors of `Logger` call that of `Impl`.
abbrev pub level_of : Statement → Level
level_of (log_debug func) = debug
level_of log_info = info
level_of log_warn = warn
level_of log_error = error
level_of log_fatal = fatal
level_of (log_syserr e) = error
level_of (log_sysfatal e) = fatal

abbrev pub saved_errno : Statement → ℕ
saved_errno (log_syserr e) = e
saved_errno (log_sysfatal e) = e
saved_errno _ = 0

-- The test of the first two macros.
unfoldable pub enabled : ℕ → Statement → Bool
enabled log_level (log_debug func) = leb log_level 0
enabled log_level log_info = leb log_level 1
enabled log_level _ = true

unfoldable pub put_errno : Site → ℕ → FixedBuffer → FixedBuffer
put_errno site e b =
    if not (e == 0)
    then put_c_string
        (format_integer
          (put_c_string (put_c_string b (some (site.strerror e))) (some (codes " (errno=")))
          (pos e))
        (some (codes ") "))
    else b

-- The constructor of `Impl`.
unfoldable pub impl : Site → Level → ℕ → FixedBuffer → FixedBuffer
unfolding put_errno
impl site level e b = put_errno site e (
    put_c_string (put_c_string (put_string b site.tid_string) (some (codes " ")))
      (some (level_name level)))

-- The constructor with the name of a function.
unfoldable pub put_func : Statement → FixedBuffer → FixedBuffer
put_func (log_debug func) b = put_char (put_c_string b (some func)) 32
put_func _ b = b

unfoldable pub put_all : List (List ℕ) → FixedBuffer → FixedBuffer
put_all [] b = b
put_all (t ∷ ts) b = put_all ts (put_string b t)

-- `Impl::finish`.
unfoldable pub finish : Site → FixedBuffer → FixedBuffer
unfolding source_file
finish site b =
    put_char
      (format_integer
        (put_char
          (put_c_string (put_c_string b (some (codes " - "))) (some (source_file site.file))) 58)
        (pos site.line))
      10

pub record Sink : Type 0 where
  pub written : List (List ℕ)
  pub flushes : ℕ

pub data Ended : Type 0 where
  went_on : Sink → Ended
  aborted : Sink → Ended

abbrev pub is_fatal : Level → Bool
is_fatal level = rank level == 4

-- The destructor of `Logger`.
unfoldable pub destroy : Site → Level → FixedBuffer → Sink → Ended
destroy site level b sink =
    let out = record sink { written = sink.written ++ ((finish site b).bytes ∷ []) } in
    if is_fatal level then aborted (record out { flushes = out.flushes + 1 }) else went_on out

-- A statement at a threshold.
unfoldable pub issue : Site → ℕ → Statement → List (List ℕ) → Sink → Ended
unfolding impl put_func put_all destroy
issue site log_level s texts sink =
    let b = impl site (level_of s) (saved_errno s) (new_buffer small_buffer) in
    if enabled log_level s
    then destroy site (level_of s) (put_all texts (put_func s b)) sink
    else went_on sink

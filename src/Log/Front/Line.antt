-- ===== src/Log/Front/Line.antt =====
-- base/Logging.cpp: the line that a statement puts out.
use ssxrver.Prelude.{
  ℕ, ◌+◌, ◌≤◌, ◌≡◌, refl, sym, ap, ◌∙◌, Bool, true, false, not, some, List, [], ◌∷◌, ◌++◌,
  append-nil, append_assoc, arith, leb, ◌==◌, if◌then◌else◌, length, length-append, take_all, codes,
  c_str, ◌<◌, ◌⊎◌, inl, inr, Bool-cases,
}
use mathlib.Core.Path.{subst}
use ssxrver.Log.Stream.{
  FixedBuffer, new_buffer, small_buffer, avail, max_numeric_size, append, append-take, put_string,
  put_c_string, put_char, format_integer, convert, ℤ, pos,
}
use ssxrver.Log.Front.{
  Level, debug, rank, info, warn, error, fatal, level_name, Site, Statement, log_debug, log_info,
  log_warn, log_error, log_fatal, log_syserr, log_sysfatal, level_of, saved_errno, enabled,
  put_errno, impl, put_func, put_all, finish, source_file, Sink, Ended, went_on, aborted, is_fatal,
  destroy, issue,
}

-- A step that puts `t` behind what a buffer holds, where that leaves room for a number.
Writes : (FixedBuffer → FixedBuffer) → List ℕ → Type 0
Writes f t =
    (b : FixedBuffer)
    → length b.bytes + length t + 21 ≤ b.size
    → f b ≡ record b { bytes = b.bytes ++ t }

then-Writes :
    (f g : FixedBuffer → FixedBuffer) (t u : List ℕ)
    → Writes f t
    → Writes g u
    → Writes (λ b. g (f b)) (t ++ u)
unfolding Writes
then-Writes f g t u p q b h =
    ap g (p b (omega (arith, length-append t u)))
    ∙ q (record b { bytes = b.bytes ++ t })
        (omega (arith, length-append b.bytes t, length-append t u))
    ∙ ap (λ l. record b { bytes = l }) (append_assoc b.bytes t u)

nothing-Writes : Writes (λ b. b) []
unfolding Writes
nothing-Writes b h = ap (λ l. record b { bytes = l }) (sym (append-nil b.bytes))

append-Writes : (t : List ℕ) → Writes (λ b. append b t) t
unfolding Writes
append-Writes t b h =
    append-take b t (omega arith)
    ∙ ap (λ l. record b { bytes = l })
        (take_all b.size (b.bytes ++ t) (omega (arith, length-append b.bytes t)))

put_string-Writes : (t : List ℕ) → Writes (λ b. put_string b t) t
unfolding put_string
put_string-Writes t = append-Writes t

put_c_string-Writes : (t : List ℕ) → Writes (λ b. put_c_string b (some t)) (c_str t)
unfolding put_c_string
put_c_string-Writes t = append-Writes (c_str t)

put_char-Writes : (c : ℕ) → Writes (λ b. put_char b c) (c ∷ [])
unfolding put_char
put_char-Writes c = append-Writes (c ∷ [])

format_integer-Writes : (v : ℤ) → Writes (λ b. format_integer b v) (convert v)
unfolding Writes format_integer
format_integer-Writes v b h = simp (room (omega arith)) refl
  where
    room : length b.bytes + 21 ≤ b.size → leb max_numeric_size (avail b) ≡ true
    room k = ground arith

-- The error of the last two macros.
abbrev pub errno_text : Site → ℕ → List ℕ
errno_text site e =
    if not (e == 0)
    then c_str (site.strerror e) ++ (codes " (errno=" ++ (convert (pos e) ++ codes ") "))
    else []

put_errno-Writes : (site : Site) (e : ℕ) → Writes (put_errno site e) (errno_text site e)
unfolding put_errno
put_errno-Writes site e = by_test (not (e == 0))
  where
    by_test :
        (c : Bool)
        → Writes
            (λ b.
              if c
              then put_c_string
                  (format_integer
                    (put_c_string
                      (put_c_string b (some (site.strerror e)))
                      (some (codes " (errno=")))
                    (pos e))
                  (some (codes ") "))
              else b)
            (if c
              then c_str (site.strerror e) ++ (codes " (errno=" ++ (convert (pos e) ++ codes ") "))
              else [])
    by_test false = nothing-Writes
    by_test true =
        then-Writes (λ b. put_c_string b (some (site.strerror e))) _ (c_str (site.strerror e)) _
          (put_c_string-Writes (site.strerror e))
          (then-Writes (λ b. put_c_string b (some (codes " (errno="))) _ (codes " (errno=") _
            (put_c_string-Writes (codes " (errno="))
            (then-Writes (λ b. format_integer b (pos e)) (λ b. put_c_string b (some (codes ") ")))
              (convert (pos e)) _ (format_integer-Writes (pos e))
              (put_c_string-Writes (codes ") "))))

abbrev pub func_text : Statement → List ℕ
func_text (log_debug func) = c_str func ++ (32 ∷ [])
func_text _ = []

put_func-Writes : (s : Statement) → Writes (put_func s) (func_text s)
unfolding put_func
put_func-Writes (log_debug func) =
    then-Writes (λ b. put_c_string b (some func)) (λ b. put_char b 32) (c_str func) (32 ∷ [])
      (put_c_string-Writes func) (put_char-Writes 32)
put_func-Writes _ = nothing-Writes

abbrev pub together : List (List ℕ) → List ℕ
together [] = []
together (t ∷ ts) = t ++ together ts

put_all-Writes : (ts : List (List ℕ)) → Writes (put_all ts) (together ts)
unfolding put_all
put_all-Writes [] = nothing-Writes
put_all-Writes (t ∷ ts) =
    then-Writes (λ b. put_string b t) (put_all ts) t (together ts) (put_string-Writes t)
      (put_all-Writes ts)

level_name_c : (level : Level) → c_str (level_name level) ≡ level_name level
level_name_c debug = refl
level_name_c info = refl
level_name_c warn = refl
level_name_c error = refl
level_name_c fatal = refl

abbrev pub end_text : Site → List ℕ
end_text site =
    codes " - "
    ++ (c_str (source_file site.file) ++ ((58 ∷ []) ++ (convert (pos site.line) ++ (10 ∷ []))))

finish-Writes : (site : Site) → Writes (finish site) (end_text site)
unfolding finish
finish-Writes site =
    then-Writes (λ b. put_c_string b (some (codes " - "))) _ (codes " - ") _
      (put_c_string-Writes (codes " - "))
      (then-Writes (λ b. put_c_string b (some (source_file site.file))) _
        (c_str (source_file site.file)) _ (put_c_string-Writes (source_file site.file))
        (then-Writes (λ b. put_char b 58) _ (58 ∷ []) _ (put_char-Writes 58)
          (then-Writes (λ b. format_integer b (pos site.line)) (λ b. put_char b 10)
            (convert (pos site.line)) (10 ∷ []) (format_integer-Writes (pos site.line))
            (put_char-Writes 10))))

impl-Writes :
    (site : Site) (level : Level) (e : ℕ)
    → Writes
        (impl site level e)
        (site.tid_string ++ (codes " " ++ (level_name level ++ errno_text site e)))
unfolding impl
impl-Writes site level e =
    then-Writes (λ b. put_string b site.tid_string) _ site.tid_string _
      (put_string-Writes site.tid_string)
      (then-Writes (λ b. put_c_string b (some (codes " "))) _ (codes " ") _
        (put_c_string-Writes (codes " "))
        (then-Writes (λ b. put_c_string b (some (level_name level))) (put_errno site e)
          (level_name level) (errno_text site e)
          (subst (Writes (λ b. put_c_string b (some (level_name level)))) (level_name_c level)
            (put_c_string-Writes (level_name level)))
          (put_errno-Writes site e)))

-- The line of a statement: the thread, the level, the error, the function, the texts, the file's
-- name and the line in it.
abbrev pub line_text : Site → Statement → List (List ℕ) → List ℕ
line_text site s texts =
    (site.tid_string ++ (codes " " ++ (level_name (level_of s) ++ errno_text site (saved_errno s))))
    ++ (func_text s ++ (together texts ++ end_text site))

all-Writes :
    (site : Site) (s : Statement) (texts : List (List ℕ))
    → Writes
        (λ b. finish site (put_all texts (put_func s (impl site (level_of s) (saved_errno s) b))))
        (line_text site s texts)
all-Writes site s texts =
    then-Writes (impl site (level_of s) (saved_errno s)) _ _ _
      (impl-Writes site (level_of s) (saved_errno s))
      (then-Writes (put_func s) _ (func_text s) _ (put_func-Writes s) (
        then-Writes (put_all texts) (finish site) (together texts) (end_text site)
          (put_all-Writes texts) (finish-Writes site)))

abbrev pub outcome : Level → Sink → Ended
outcome level out =
    if is_fatal level then aborted (record out { flushes = out.flushes + 1 }) else went_on out

-- What a statement does where it is on: its line goes out, and a fatal one ends the process.
abbrev pub put_out : Site → Statement → List (List ℕ) → Sink → Ended
put_out site s texts sink =
    outcome (level_of s) (record sink { written = sink.written ++ (line_text site s texts ∷ []) })

-- The line leaves room for a number in the buffer.
abbrev pub Fits : Site → Statement → List (List ℕ) → Type 0
Fits site s texts = length (line_text site s texts) + 21 ≤ 4000

issue-on :
    (site : Site) (log_level : ℕ) (s : Statement) (texts : List (List ℕ)) (sink : Sink)
    → Fits site s texts
    → enabled log_level s ≡ true
    → issue site log_level s texts sink ≡ put_out site s texts sink
unfolding issue destroy new_buffer Writes
issue-on site log_level s texts sink h on = rw on (
    ap
      (λ b.
        outcome (level_of s) (record sink { written = sink.written ++ (FixedBuffer.bytes b ∷ []) }))
      (all-Writes site s texts (new_buffer small_buffer) (omega (arith, h))))

issue-off :
    (site : Site) (log_level : ℕ) (s : Statement) (texts : List (List ℕ)) (sink : Sink)
    → enabled log_level s ≡ false
    → issue site log_level s texts sink ≡ went_on sink
unfolding issue
issue-off site log_level s texts sink off = rw off refl

-- The level is below the threshold, and below that of warnings.
abbrev pub IsHeld : ℕ → Statement → Type 0
IsHeld log_level s = (rank (level_of s) < log_level) × (rank (level_of s) < 2)

-- The level reaches the threshold, or is that of warnings at least.
abbrev pub Passes : ℕ → Statement → Type 0
Passes log_level s = (log_level ≤ rank (level_of s)) ⊎ (2 ≤ rank (level_of s))

enabled_lem :
    (log_level : ℕ) (s : Statement)
    → (Passes log_level s × (enabled log_level s ≡ true))
      ⊎ (IsHeld log_level s × (enabled log_level s ≡ false))
unfolding enabled
enabled_lem log_level (log_debug func) = elim (Bool-cases (leb log_level 0)) [
  | inl on ↦ inl (inl (ground (arith, on)), on)
  | inr off ↦ inr ((ground (arith, off), omega arith), off)
]
enabled_lem log_level log_info = elim (Bool-cases (leb log_level 1)) [
  | inl on ↦ inl (inl (ground (arith, on)), on)
  | inr off ↦ inr ((ground (arith, off), omega arith), off)
]
enabled_lem log_level log_warn = inl (inr (omega arith), refl)
enabled_lem log_level log_error = inl (inr (omega arith), refl)
enabled_lem log_level log_fatal = inl (inr (omega arith), refl)
enabled_lem log_level (log_syserr e) = inl (inr (omega arith), refl)
enabled_lem log_level (log_sysfatal e) = inl (inr (omega arith), refl)

-- A statement whose level is below the threshold and below that of warnings does nothing, however
-- long it is. Any other, where its line leaves room for a number in the buffer of 4000 bytes, gives
-- the output its whole line, once; and a fatal one then flushes and ends the process.
pub issue_lem :
    (site : Site) (log_level : ℕ) (s : Statement) (texts : List (List ℕ)) (sink : Sink)
    → Fits site s texts ⊎ IsHeld log_level s
    → (Passes log_level s × (issue site log_level s texts sink ≡ put_out site s texts sink))
      ⊎ (IsHeld log_level s × (issue site log_level s texts sink ≡ went_on sink))
issue_lem site log_level s texts sink h = elim (enabled_lem log_level s) [
  | inr (held, off) ↦ inr (held, issue-off site log_level s texts sink off)
  | inl (passes, on) ↦ elim h [
    | inl fits ↦ inl (passes, issue-on site log_level s texts sink fits on)
    | inr held ↦
        absurd (elim passes [ inl p ↦ omega (arith, p, held.0) | inr p ↦ omega (arith, p, held.1) ])
  ]
]

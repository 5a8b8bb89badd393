-- ===== src/Log/File/Rolls.antt =====
-- base/File.cpp and base/LogFile.cpp: no byte is lost, and where a file ends.
use ssxrver.Prelude.{
  ℕ, ◌+◌, ◌≤◌, ◌<◌, ◌≡◌, refl, sym, ap, ◌∙◌, inl, inr, Bool, true, false, some, List, [], ◌∷◌, ◌++◌,
  append-nil, append_assoc, arith, ltb, leb, ◌==◌, if◌then◌else◌, ltb→lt, leb→le, Bool-cases,
  length, length-append, drop, take-append-drop, length-drop, take_all, All, All-append,
}
use ssxrver.Log.File.{
  WriteFile, open_file, write_loop, append, LogFile, roll_file, append_unlocked, Entry, append_all,
}

-- Each call takes some bytes, and there is an answer for each call that can be.
pub record Answers (e : Entry) : Type 0 where
  pub enough : length e.log < length e.answers
  pub positive : All (λ x. 0 < x) e.answers

write_loop_whole :
    (log answers : List ℕ)
    → length log < length answers
    → All (λ x. 0 < x) answers
    → write_loop log answers ≡ (log, true)
unfolding write_loop
write_loop_whole log [] h p = absurd (omega arith)
write_loop_whole log (x ∷ xs) h p = elim (Bool-cases (ltb 0 (length (drop x log)))) [
  | inl more ↦
      simp
        (
          nonzero,
          more,
          write_loop_whole (drop x log) xs (omega (arith, length-drop x log, p.0, ltb→lt _ _ more))
              p.1,
        )
        (ap (λ l. (l, true)) (take-append-drop x log))
  | inr over ↦ simp (nonzero, over) (ap (λ l. (l, true)) (take_all x log (short over)))
]
  where
    nonzero : (x == 0) ≡ false
    nonzero = ground (arith, p.0)

    short : ltb 0 (length (drop x log)) ≡ false → length log ≤ x
    short e = ground (arith, e, length-drop x log)

abbrev pub IsWhole : WriteFile → Type 0
IsWhole f = f.write_len ≡ length f.content

pub record IsRolled (l : LogFile) : Type 0 where
  pub short : l.file.write_len < l.roll_size
  pub whole : IsWhole l.file
  pub full : All (λ f. (l.roll_size ≤ f.write_len) × IsWhole f) l.closed

abbrev pub text_of : List WriteFile → List ℕ
text_of [] = []
text_of (f ∷ fs) = f.content ++ text_of fs

-- The bytes of all files.
abbrev pub text : LogFile → List ℕ
text l = text_of l.closed ++ l.file.content

text_of-snoc :
    (fs : List WriteFile) (f : WriteFile) → text_of (fs ++ (f ∷ [])) ≡ text_of fs ++ f.content
text_of-snoc [] f = append-nil f.content
text_of-snoc (g ∷ fs) f =
    ap (◌++◌ g.content) (text_of-snoc fs f) ∙ sym (append_assoc g.content (text_of fs) f.content)

append_content :
    (f : WriteFile) (e : Entry)
    → Answers e
    → (append f e.log e.answers).content ≡ f.content ++ e.log
unfolding append
append_content f e a =
    ap (λ p. f.content ++ p.0) (write_loop_whole e.log e.answers a.enough a.positive)

append-IsWhole :
    (f : WriteFile) (e : Entry) → Answers e → IsWhole f → IsWhole (append f e.log e.answers)
unfolding append
append-IsWhole f e a w =
    counted
    ∙ ap (λ n. n + length e.log) w
    ∙ sym (ap length (append_content f e a) ∙ length-append f.content e.log)
  where
    counted : (append f e.log e.answers).write_len ≡ f.write_len + length e.log
    counted = refl

append_unlocked-IsRolled :
    (l : LogFile) (e : Entry)
    → 0 < l.roll_size
    → IsRolled l
    → Answers e
    → (l' : LogFile) × (append_unlocked false 0 l e.log e.answers ≡ some l')
      × IsRolled l'
      × (l'.roll_size ≡ l.roll_size)
      × (text l' ≡ text l ++ e.log)
unfolding append_unlocked roll_file open_file
append_unlocked-IsRolled l e r v a = by_size (leb l.roll_size f.write_len) refl
  where
    f : WriteFile
    f = append l.file e.log e.answers

    holds : f.content ≡ l.file.content ++ e.log
    holds = append_content l.file e a

    f-IsWhole : IsWhole f
    f-IsWhole = append-IsWhole l.file e a v.whole

    by_size :
        (b : Bool)
        → leb l.roll_size f.write_len ≡ b
        → (l' : LogFile) × ((if b
              then roll_file false 0 (record l { file = f })
              else some (record l { file = f }))
            ≡ some l')
          × IsRolled l'
          × (l'.roll_size ≡ l.roll_size)
          × (text l' ≡ text l ++ e.log)
    by_size true h = (
      _,
      refl,
      record {
        short = r;
        whole = refl;
        full = All-append _ l.closed (f ∷ []) v.full ((leb→le _ _ h, f-IsWhole), tt);
      },
      refl,
      append-nil (text_of (l.closed ++ (f ∷ [])))
          ∙ text_of-snoc l.closed f
          ∙ ap (◌++◌ (text_of l.closed)) holds
          ∙ sym (append_assoc (text_of l.closed) l.file.content e.log),
    )
    by_size false h = (
      record l { file = f },
      refl,
      record { short = ground (arith, h); whole = f-IsWhole; full = v.full },
      refl,
      ap (◌++◌ (text_of l.closed)) holds
          ∙ sym (append_assoc (text_of l.closed) l.file.content e.log),
    )

abbrev pub all_logs : List Entry → List ℕ
all_logs [] = []
all_logs (e ∷ es) = e.log ++ all_logs es

-- Where assertions are not built in and every write takes something, appending to the log keeps
-- the bytes of all files together, in order, with none lost. Every file that was rolled off has at
-- least the size for it, the one in use has less, and each has as many bytes as it counts.
pub append_all_lem :
    (l : LogFile) (es : List Entry)
    → 0 < l.roll_size
    → IsRolled l
    → All Answers es
    → (l' : LogFile) × (append_all false 0 l es ≡ some l')
      × IsRolled l'
      × (text l' ≡ text l ++ all_logs es)
unfolding append_all
append_all_lem l [] r v a = (l, refl, v, sym (append-nil (text l)))
append_all_lem l (e ∷ es) r v a =
    let (l1, run, v1, size, here) = append_unlocked-IsRolled l e r v a.0 in
    let (l2, run2, v2, rest) = append_all_lem l1 es (omega arith) v1 a.1 in
    (
      l2,
      simp run run2,
      v2,
      rest ∙ ap (λ t. t ++ all_logs es) here ∙ append_assoc (text l) e.log (all_logs es),
    )

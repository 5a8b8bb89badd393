-- ===== src/Log/Async/Delivery.antt =====
-- The writing thread never aborts, and what is logged reaches the file in order.
use mathlib.Core.Path.{subst}
use ssxrver.Prelude.{
  ℕ, ◌-◌, ◌≤◌, ◌<◌, ◌≡◌, refl, sym, ap, ◌∙◌, inl, inr, true, Option, none, some, List, [], ◌∷◌,
  ◌++◌, append-nil, append_assoc, arith, ltb, ltb→lt, lt→ltb, tests, Bool-cases, length,
  length-append, All, All-append, same,
}
use ssxrver.Log.Stream.{FixedBuffer, append, large_buffer, avail}
use ssxrver.Log.Async.{Shared, Writer, fresh_buffer, or_fresh, log, take_next, gather, texts}

-- A buffer in use is filled no further than its size.
abbrev pub IsFilled : FixedBuffer → Type 0
IsFilled b = (length b.bytes ≤ large_buffer) × (b.size ≡ large_buffer)

-- Where `nextBuffer_` was used up, a full buffer waits in `buffers_`.
pub data NextReady : Option FixedBuffer → List FixedBuffer → Type 0 where
  ready : {bs : List FixedBuffer} → NextReady (some fresh_buffer) bs
  used : {bs : List FixedBuffer} → 0 < length bs → NextReady none bs

pub record IsShared (s : Shared) : Type 0 where
  pub filling : IsFilled s.current
  pub spare : NextReady s.next s.buffers
  pub full : All IsFilled s.buffers

-- The writer at the head of its loop.
pub data IsIdle : Writer → Type 0 where
  idle :
      {out : List ℕ}
      → IsIdle (record {
        new1 = some fresh_buffer;
        new2 = some fresh_buffer;
        to_write = [];
        written = out;
      })

-- The writer behind the critical section: it has a buffer to write for each that it gave away.
pub data IsBusy : Writer → Type 0 where
  gave_one :
      {b : FixedBuffer} {bs : List FixedBuffer} {out : List ℕ}
      → All IsFilled (b ∷ bs)
      → IsBusy (record { new1 = none; new2 = some fresh_buffer; to_write = b ∷ bs; written = out })
  gave_two :
      {b c : FixedBuffer} {bs : List FixedBuffer} {out : List ℕ}
      → All IsFilled (b ∷ c ∷ bs)
      → IsBusy (record { new1 = none; new2 = none; to_write = b ∷ c ∷ bs; written = out })

-- All that was logged, from the file to the buffer being filled.
abbrev pub logged : Shared → Writer → List ℕ
logged s w = w.written ++ (texts w.to_write ++ (texts s.buffers ++ s.current.bytes))

texts-append : (bs cs : List FixedBuffer) → texts (bs ++ cs) ≡ texts bs ++ texts cs
unfolding texts
texts-append [] cs = refl
texts-append (b ∷ bs) cs =
    ap (◌++◌ b.bytes) (texts-append bs cs) ∙ sym (append_assoc b.bytes (texts bs) (texts cs))

texts_one : (b : FixedBuffer) → texts (b ∷ []) ≡ b.bytes
unfolding texts
texts_one b = append-nil b.bytes

append_fits :
    (b : FixedBuffer) (line : List ℕ)
    → ltb (length line) (avail b) ≡ true
    → append b line ≡ record b { bytes = b.bytes ++ line }
unfolding append
append_fits b line e = simp e refl

append_fresh :
    (line : List ℕ)
    → length line < large_buffer
    → append fresh_buffer line ≡ record { size = large_buffer; bytes = line }
append_fresh line h =
    append_fits fresh_buffer line (lt→ltb (length line) (large_buffer - 0) (omega (arith, h)))

regroup : (a b c d l : List ℕ) → a ++ (b ++ (c ++ (d ++ l))) ≡ (a ++ (b ++ (c ++ d))) ++ l
regroup a b c d l = sym (
    append_assoc a (b ++ (c ++ d)) l
    ∙ ap (◌++◌ a) (append_assoc b (c ++ d) l ∙ ap (◌++◌ b) (append_assoc c d l)))

or_fresh_lem :
    {n : Option FixedBuffer} {bs : List FixedBuffer} → NextReady n bs → or_fresh n ≡ fresh_buffer
or_fresh_lem ready = refl
or_fresh_lem (used h) = refl

texts_behind :
    (bs : List FixedBuffer) (b : FixedBuffer) → texts (bs ++ (b ∷ [])) ≡ texts bs ++ b.bytes
texts_behind bs b = texts-append bs (b ∷ []) ∙ ap (◌++◌ (texts bs)) (texts_one b)

-- From buffers in order, logging a line shorter than a buffer keeps the buffers in order and puts the line behind all that
-- was logged.
pub log-IsShared :
    (s : Shared) (w : Writer) (line : List ℕ)
    → IsShared s
    → length line < large_buffer
    → IsShared (log s line) × (logged (log s line) w ≡ logged s w ++ line)
unfolding log
log-IsShared s w line v short = elim (Bool-cases (ltb (length line) (avail s.current))) [
  | inl fits ↦
      subst Logs
        (sym (simp fits (ap (λ c. record s { current = c }) (append_fits s.current line fits))))
        (
          record {
            filling = (
              omega (
                tests,
                ltb→lt (length line) (avail s.current) fits,
                length-append s.current.bytes line,
                v.filling.0,
                v.filling.1,
              ),
              v.filling.1,
            );
            spare = v.spare;
            full = v.full;
          },
          regroup w.written (texts w.to_write) (texts s.buffers) s.current.bytes line,
        )
  | inr over ↦
      subst Logs
        (sym (
          simp over (
            ap (λ c. record { current = c; next = none; buffers = s.buffers ++ (s.current ∷ []) })
              (ap (λ b. append b line) (or_fresh_lem v.spare) ∙ append_fresh line short))))
        (
          record {
            filling = (omega (arith, short), refl);
            spare = used (omega (arith, length-append s.buffers (s.current ∷ [])));
            full = All-append IsFilled s.buffers (s.current ∷ []) v.full (v.filling, tt);
          },
          ap (λ t. w.written ++ (texts w.to_write ++ t))
                (ap (λ t. t ++ line) (texts_behind s.buffers s.current)
                  ∙ append_assoc (texts s.buffers) s.current.bytes line)
              ∙ regroup w.written (texts w.to_write) (texts s.buffers) s.current.bytes line,
        )
]
  where
    Logs : Shared → Type 0
    Logs t = IsShared t × (logged t w ≡ logged s w ++ line)

emptied : Option FixedBuffer → Shared
emptied n = record { current = fresh_buffer; next = n; buffers = [] }

holding : List FixedBuffer → List ℕ → Writer
holding bs out = record { new1 = none; new2 = some fresh_buffer; to_write = bs; written = out }

gave_first :
    (bs : List FixedBuffer) (cur : FixedBuffer) (out : List ℕ)
    → All IsFilled (bs ++ (cur ∷ []))
    → IsBusy (holding (bs ++ (cur ∷ [])) out)
unfolding holding
gave_first [] cur out f = gave_one f
gave_first (b ∷ bs) cur out f = gave_one f

gave_both :
    (bs : List FixedBuffer) (cur : FixedBuffer) (out : List ℕ)
    → 0 < length bs
    → All IsFilled (bs ++ (cur ∷ []))
    → IsBusy (record (holding (bs ++ (cur ∷ [])) out) { new2 = none })
unfolding holding
gave_both [] cur out h f = absurd (omega (arith, h))
gave_both (b ∷ []) cur out h f = gave_two f
gave_both (b ∷ c ∷ bs) cur out h f = gave_two f

take_next_lem :
    (n : Option FixedBuffer) (bs : List FixedBuffer) (cur : FixedBuffer) (out : List ℕ)
    → NextReady n bs
    → All IsFilled (bs ++ (cur ∷ []))
    → (s' : Shared) × (w' : Writer) × (take_next
          (emptied n)
          fresh_buffer
          (holding (bs ++ (cur ∷ [])) out)
        ≡ (s', w'))
      × IsShared s'
      × IsBusy w'
      × (logged s' w' ≡ out ++ (texts (bs ++ (cur ∷ [])) ++ []))
unfolding take_next emptied holding texts
take_next_lem (some _) bs cur out ready f = (
  emptied (some fresh_buffer),
  holding (bs ++ (cur ∷ [])) out,
  refl,
  record { filling = (omega arith, refl); spare = ready; full = tt },
  gave_first bs cur out f,
  refl,
)
take_next_lem none bs cur out (used h) f = (
  emptied (some fresh_buffer),
  record (holding (bs ++ (cur ∷ [])) out) { new2 = none },
  refl,
  record { filling = (omega arith, refl); spare = ready; full = tt },
  gave_both bs cur out h f,
  refl,
)

-- From buffers in order, the critical section of an idle writer passes its assertions, loses nothing, and leaves the writer
-- with enough buffers to write.
pub gather_lem :
    (s : Shared) (w : Writer)
    → IsShared s
    → IsIdle w
    → (s' : Shared) × (w' : Writer) × (gather s w ≡ some (s', w'))
      × IsShared s'
      × IsBusy w'
      × (logged s' w' ≡ logged s w)
unfolding gather emptied holding texts
gather_lem s w v (idle {out}) =
    let (s', w', e, shared, busy, same) =
      take_next_lem s.next s.buffers s.current out v.spare
        (All-append IsFilled s.buffers (s.current ∷ []) v.full (v.filling, tt)) in
    (
      s',
      w',
      ap some e,
      shared,
      busy,
      same
          ∙ ap (◌++◌ out) (
              append-nil (texts (s.buffers ++ (s.current ∷ [])))
              ∙ texts_behind s.buffers s.current),
    )

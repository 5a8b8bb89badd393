-- ===== src/Log/Async/Rounds.antt =====
-- What the writing thread does with the buffers it has gathered.
use ssxrver.Prelude.{
  ℕ, ◌≤◌, ◌≡◌, refl, ap, ◌∙◌, inl, inr, true, false, none, some, List, [], ◌∷◌, ◌++◌, append_assoc,
  arith, ltb, Bool-cases, length, take, take-take, All,
}
use ssxrver.Log.Stream.{FixedBuffer, reset}
use ssxrver.Log.Async.{
  Shared, Writer, fresh_buffer, texts, pop_back, refill, cut_backlog, write_out,
}
use ssxrver.Log.Async.Delivery.{IsFilled, IsIdle, idle, IsBusy, gave_one, gave_two, logged}

take-cut_backlog : (bs : List FixedBuffer) → take 2 (cut_backlog bs) ≡ take 2 bs
unfolding cut_backlog
take-cut_backlog bs = elim (Bool-cases (ltb 25 (length bs))) [
  | inl long ↦ simp long (take-take 2 2 bs (omega arith))
  | inr short ↦ simp short refl
]

cut_backlog_short : (bs : List FixedBuffer) → length bs ≤ 25 → cut_backlog bs ≡ bs
unfolding cut_backlog
cut_backlog_short bs h = let e : ltb 25 (length bs) ≡ false = ground (arith, h) in simp e refl

reset_fresh : (b : FixedBuffer) → IsFilled b → reset b ≡ fresh_buffer
unfolding reset
reset_fresh b f = ap (λ n. record { size = n; bytes = [] }) f.1

unfoldable pub after_write : List FixedBuffer → List ℕ → Writer
after_write bs out = record {
  new1 = some fresh_buffer;
  new2 = some fresh_buffer;
  to_write = [];
  written = out ++ texts (cut_backlog bs);
}

refill_one :
    (b : FixedBuffer) (bs : List FixedBuffer)
    → All IsFilled (b ∷ bs)
    → (rest : List FixedBuffer) × (refill none (take 2 (b ∷ bs)) ≡ some (some fresh_buffer, rest))
unfolding refill pop_back
refill_one b [] f = ([], ap (λ x. some (some x, [])) (reset_fresh b f.0))
refill_one b (c ∷ bs) f = (b ∷ [], ap (λ x. some (some x, b ∷ [])) (reset_fresh c f.1.0))

pub after_write-logged :
    (s : Shared) (bs : List FixedBuffer) (out : List ℕ)
    → length bs ≤ 25
    → logged s (after_write bs out) ≡ out ++ (texts bs ++ (texts s.buffers ++ s.current.bytes))
unfolding after_write texts
after_write-logged s bs out h =
    append_assoc out (texts (cut_backlog bs)) (texts s.buffers ++ s.current.bytes)
    ∙ ap (λ c. out ++ (texts c ++ (texts s.buffers ++ s.current.bytes))) (cut_backlog_short bs h)

-- The rest of the round passes its assertions.
pub write_out_after :
    (w : Writer) → IsBusy w → write_out w ≡ some (after_write w.to_write w.written)
unfolding write_out after_write
write_out_after w (gave_one {b} {bs} {out} f) =
    let (rest, e) = refill_one b bs f in
    let some_left : ltb 0 (length (b ∷ bs)) ≡ true = ground arith in
    simp (some_left, take-cut_backlog (b ∷ bs), e) refl
write_out_after w (gave_two {b} {c} {bs} {out} f) =
    let some_left : ltb 0 (length (b ∷ c ∷ bs)) ≡ true = ground arith in
    simp (some_left, take-cut_backlog (b ∷ c ∷ bs), reset_fresh c f.1.0, reset_fresh b f.0) refl

-- The rest of the round, with enough and at most 25 buffers to write, passes its assertions, makes the
-- writer idle again, and loses nothing.
pub write_out_lem :
    (s : Shared) (w : Writer)
    → IsBusy w
    → length w.to_write ≤ 25
    → (w' : Writer) × (write_out w ≡ some w') × IsIdle w' × (logged s w' ≡ logged s w)
unfolding after_write
write_out_lem s w v few = (
  after_write w.to_write w.written,
  write_out_after w v,
  idle,
  after_write-logged s w.to_write w.written few,
)

-- ===== src/Log/Async/Schedules/Drains.antt =====
-- base/AsyncLogThread.cpp: what the writing thread gets done.
use ssxrver.Prelude.{
  ◌≤◌, ◌<◌, ◌≡◌, refl, sym, ap, ◌∙◌, inl, inr, true, false, some, [], ◌∷◌, ◌++◌, append-nil, arith,
  Bool-cases, Option-cases, length, length-append, not,
}
use ssxrver.Log.Stream.{FixedBuffer}
use ssxrver.Log.Async.{Shared, Writer, fresh_buffer, gather, texts}
use ssxrver.Log.Async.Delivery.{IsIdle, idle, IsBusy, gather_lem}
use ssxrver.Log.Async.Rounds.{write_out_after, after_write, after_write-logged}
use mathlib.Core.Path.{subst}
use ssxrver.Log.Async.{take_next, empty_one}
use ssxrver.Log.Async.Schedules.{
  System, gathered, gather_in, wrote, write_in, Step, Reaches, WriterIn, Kept, Step-Kept,
  Reaches-Kept, writing, testing, test_in,
}

-- Steps of the writing thread alone.
pub data ByWriter : System → System → Type 0 where
  none_left : (s : System) → ByWriter s s
  next_writes : {s s'' : System} → s.busy ≡ true → ByWriter (write_in s) s'' → ByWriter s s''
  next_tests :
      {s s'' : System}
      → s.busy ≡ false
      → s.passed ≡ false
      → s.ended ≡ false
      → ByWriter (test_in s) s''
      → ByWriter s s''
  next_gathers :
      {s s'' : System}
      → s.busy ≡ false
      → s.passed ≡ true
      → ByWriter (gather_in s) s''
      → ByWriter s s''

pub gather_parts :
    (s s1 : Shared) (w w1 : Writer)
    → IsIdle w
    → gather s w ≡ some (s1, w1)
    → (w1.to_write ≡ s.buffers ++ (s.current ∷ []))
      × (s1.buffers ≡ [])
      × (s1.current ≡ fresh_buffer)
      × (w1.written ≡ w.written)
unfolding gather take_next empty_one
gather_parts s s1 w w1 idle h = elim (Option-cases s.next) [
  | inl e ↦ ground (arith, e, h)
  | inr (b, e) ↦ ground (arith, e, h)
]

-- A round from its head: the critical section, then the rest.
round_drains :
    (s : System)
    → Kept s
    → s.busy ≡ false
    → s.passed ≡ true
    → s.dropped ≡ false
    → length s.shared.buffers < 25
    → (s' : System) × ByWriter s s' × (s'.writer.written ≡ s.asked) × (s'.dropped ≡ false)
unfolding gather_in write_in after_write texts
round_drains s k e t d few =
    let (sh, w, run, v, b, text) = gather_lem s.shared s.writer k.order at_head in
    let (all, no_full, no_bytes, _) = gather_parts s.shared sh s.writer w at_head run in
    let s1 = gathered s (some (sh, w)) in
    let s2 = wrote s1 (some (after_write w.to_write w.written)) in
    let number : length w.to_write ≤ 25 =
      omega (arith, ap length all, length-append s.shared.buffers (s.shared.current ∷ [])) in
    (
      s2,
      next_gathers e t (
          subst (λ x. ByWriter x s2) (sym (ap (gathered s) run))
            (next_writes refl (
              subst (λ x. ByWriter x s2) (sym (ap (wrote s1) (write_out_after w b)))
                (none_left s2)))),
      sym (append-nil s2.writer.written)
          ∙ sym (ap (λ c. s2.writer.written ++ (texts c ++ [])) no_full)
          ∙ sym (ap (λ c. s2.writer.written ++ (texts sh.buffers ++ FixedBuffer.bytes c)) no_bytes)
          ∙ after_write-logged sh w.to_write w.written number
          ∙ text
          ∙ k.complete d,
      ground (arith, d, number),
    )
  where
    at_head : IsIdle s.writer
    at_head = subst (λ x. WriterIn x s.writer) e k.at_work

-- The same from the test of the loop or behind it.
head_drains :
    (s : System)
    → Kept s
    → s.busy ≡ false
    → s.running ≡ true
    → s.ended ≡ false
    → s.dropped ≡ false
    → length s.shared.buffers < 25
    → (s' : System) × ByWriter s s' × (s'.writer.written ≡ s.asked) × (s'.dropped ≡ false)
unfolding test_in
head_drains s k e up on d few = elim (Bool-cases s.passed) [
  | inl passed ↦ round_drains s k e passed d few
  | inr not_yet ↦
      let s0 = record s { passed = true; ended = false } in
      let tested : test_in s ≡ s0 = ap (λ b. record s { passed = b; ended = not b }) up in
      let k0 : Kept s0 = subst Kept tested (Step-Kept s (test_in s) (testing s e not_yet on) k) in
      let (s', steps, all_in, kept) = round_drains s0 k0 e refl d few in
      (s', next_tests e not_yet on (subst (λ x. ByWriter x s') (sym tested) steps), all_in, kept)
]

-- From every state that a schedule reaches in which `running_` is set and the writing thread has not
-- left its loop, no backlog was cut, the thread holds at most 25 buffers to write, and at most 24 full
-- ones wait: its steps alone get all that was logged so far into the file.
pub Reaches-drains :
    (s : System)
    → Reaches s
    → s.running ≡ true
    → s.ended ≡ false
    → s.dropped ≡ false
    → length s.writer.to_write ≤ 25
    → length s.shared.buffers < 25
    → (s' : System) × ByWriter s s' × (s'.writer.written ≡ s.asked) × (s'.dropped ≡ false)
unfolding write_in after_write
Reaches-drains s r up on d now few = elim (Bool-cases s.busy) [
  | inl busy ↦
      let b : IsBusy s.writer = subst (λ x. WriterIn x s.writer) busy k.at_work in
      let s1 = wrote s (some (after_write s.writer.to_write s.writer.written)) in
      let eq : write_in s ≡ s1 = ap (wrote s) (write_out_after s.writer b) in
      let clean : s1.dropped ≡ false = ground (arith, d, now) in
      let (s2, steps, all_in, kept) =
        head_drains s1 (Step-Kept s s1 (subst (Step s) eq (writing s busy)) k) refl up on clean
          few in
      (s2, next_writes busy (subst (λ x. ByWriter x s2) (sym eq) steps), all_in, kept)
  | inr head ↦ head_drains s k head up on d few
]
  where
    k : Kept s
    k = Reaches-Kept s r

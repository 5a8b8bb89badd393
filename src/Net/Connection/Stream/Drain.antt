-- ===== src/Net/Connection/Stream/Drain.antt =====
-- What `handleWrite` does to the bytes of a connection.
use ssxrver.Prelude.{
  zero, suc, ◌-◌, ◌≡◌, refl, ap, ◌∙◌, inl, inr, Bool, true, false, Option, none, some, [], ◌∷◌,
  ◌++◌, append-nil, arith, ltb, ◌==◌, if◌then◌else◌, Bool-cases, take, same,
}
use ssxrver.Net.Buffer.{contents, readable_bytes}
use ssxrver.Net.Buffer.Views.{IsValid}
use ssxrver.Net.Buffer.Fifo.{retrieve_lem}
use ssxrver.Net.Connection.{
  IoResult, error, count, SendFile, wrote, sent_file, queued_write_complete, shut_write,
  logged_error, World, emit, with_conn, writing, when, shutdown_in_loop,
}
use ssxrver.Net.Connection.Handlers.{
  handle_write, all_sent, write_output, write_file, write_pending_file,
}
use ssxrver.Net.Connection.Stream.{
  on_wire, on_wire-append, on_wire_quiet, when_quiet, Answers, rotated, stream, Quiet,
}

module _ {C : Type 0} where
  shutdown_in_loop-Quiet :
      (w t : World C) (b : Bool) → Quiet w t → Quiet w (if b then shutdown_in_loop t else t)
  unfolding shutdown_in_loop
  shutdown_in_loop-Quiet w t false q = q
  shutdown_in_loop-Quiet w t true q = by_mask (writing t)
    where
      by_mask : (b : Bool) → Quiet w (if b then t else emit t (shut_write t.conn.sock_fd ∷ []))
      by_mask true = q
      by_mask false = (
        on_wire_quiet t.effects (shut_write t.conn.sock_fd ∷ []) (unfold on_wire in refl) ∙ q.0,
        q.1,
      )

  pub all_sent-Quiet : (w : World C) → Quiet w (all_sent w)
  unfolding all_sent
  all_sent-Quiet w = shutdown_in_loop-Quiet w _ _ (
    on_wire_quiet w.effects (when w.conn.notifies queued_write_complete)
        (when_quiet w.conn.notifies queued_write_complete (unfold on_wire in refl)),
    refl,
  )

  all_sent_if :
      (w t u : World C) (b : Bool) → Quiet w t → Quiet w u → Quiet w (if b then all_sent t else u)
  all_sent_if w t u true q q' = let (same, put) = all_sent-Quiet t in (same ∙ q.0, put ∙ q.1)
  all_sent_if w t u false q q' = q'

  -- A world in which nothing was written.
  Quiet-stream :
      (w w' : World C)
      → IsValid w.conn.output_buffer
      → Quiet w w'
      → IsValid w'.conn.output_buffer × (stream w' ≡ stream w)
  Quiet-stream w w' v (same, put) = (rw put v, rw (same, put))

  write_output-stream :
      (w w' : World C) (r : IoResult)
      → IsValid w.conn.output_buffer
      → Answers r (readable_bytes w.conn.output_buffer)
      → write_output w r ≡ some w'
      → IsValid w'.conn.output_buffer × (stream w' ≡ stream w)
  unfolding write_output
  write_output-stream w w' (error x) v ans e =
      Quiet-stream w w' v
        (ground (arith, on_wire_quiet w.effects (logged_error ∷ []) (unfold on_wire in refl)))
  write_output-stream w w' (count zero) v ans e = Quiet-stream w w' v (
      ground
        (arith, on_wire_quiet w.effects (wrote [] ∷ logged_error ∷ []) (unfold on_wire in refl)))
  write_output-stream w w' (count (suc n)) v ans e =
      let (out, r, valid, whole) = retrieve_lem w.conn.output_buffer (suc n) v ans in
      let taken = take (suc n) (contents w.conn.output_buffer) in
      let next = emit (with_conn w (record w.conn { output_buffer = out })) (wrote taken ∷ []) in
      let (same, put) =
        all_sent_if next next next (readable_bytes out == 0) (refl, refl) (refl, refl) in
      let done : w' ≡ (if readable_bytes out == 0 then all_sent next else next) = ground arith in
      (
        rw (done, put) valid,
        rw (done, same, put)
            (rotated (on_wire w.effects) (contents w.conn.output_buffer) (suc n) _ _
              (on_wire-append w.effects (wrote taken ∷ [])
                ∙ ap (◌++◌ (on_wire w.effects)) (unfold on_wire in append-nil taken))
              whole),
      )

  write_file-Quiet : (w : World C) (f : SendFile) (r : IoResult) → Quiet w (write_file w f r)
  unfolding write_file
  write_file-Quiet w f (error x) =
      (on_wire_quiet w.effects (logged_error ∷ []) (unfold on_wire in refl), refl)
  write_file-Quiet w f (count zero) =
      (on_wire_quiet w.effects (logged_error ∷ []) (unfold on_wire in refl), refl)
  write_file-Quiet w f (count (suc n)) =
      all_sent_if w _ _ (f.send_len - suc n == 0)
        (
          on_wire_quiet w.effects (sent_file f.in_fd f.offset (suc n) ∷ [])
              (unfold on_wire in refl),
          refl,
        )
        (
          on_wire_quiet w.effects (sent_file f.in_fd f.offset (suc n) ∷ [])
              (unfold on_wire in refl),
          refl,
        )

  pub write_pending_file-Quiet :
      (w : World C) (f : Option SendFile) (r : IoResult) → Quiet w (write_pending_file w f r)
  unfolding write_pending_file
  write_pending_file-Quiet w none r = (refl, refl)
  write_pending_file-Quiet w (some f) r = write_file-Quiet w f r

  -- The answers of `handle_write` that are worlds.
  pub handle_write-stream :
      (w w' : World C) (write_result file_result : IoResult)
      → IsValid w.conn.output_buffer
      → Answers write_result (readable_bytes w.conn.output_buffer)
      → handle_write w write_result file_result ≡ some w'
      → IsValid w'.conn.output_buffer × (stream w' ≡ stream w)
  unfolding handle_write
  handle_write-stream w w' r f v ans e = elim (Bool-cases (writing w)) [
    | inr idle ↦ Quiet-stream w w' v (ground arith)
    | inl waiting ↦ elim (Bool-cases (ltb 0 (readable_bytes w.conn.output_buffer))) [
      | inl more ↦ write_output-stream w w' r v ans (ground arith)
      | inr empty ↦
          Quiet-stream w w' v (ground (arith, write_pending_file-Quiet w w.conn.send_file f))
    ]
  ]

  write_output_total :
      (w : World C) (r : IoResult)
      → IsValid w.conn.output_buffer
      → Answers r (readable_bytes w.conn.output_buffer)
      → (w' : World C) × (write_output w r ≡ some w')
  unfolding write_output
  write_output_total w (error e) v ans = (_, refl)
  write_output_total w (count zero) v ans = (_, refl)
  write_output_total w (count (suc n)) v ans =
      let (out, e, ok, same) = retrieve_lem w.conn.output_buffer (suc n) v ans in rw e (_, refl)

  handle_write_total :
      (w : World C) (write_result file_result : IoResult)
      → IsValid w.conn.output_buffer
      → Answers write_result (readable_bytes w.conn.output_buffer)
      → (w' : World C) × (handle_write w write_result file_result ≡ some w')
  unfolding handle_write
  handle_write_total w r f v ans = elim (Bool-cases (writing w)) [
    | inr off ↦ rw off (w, refl)
    | inl on ↦ elim (Bool-cases (ltb 0 (readable_bytes w.conn.output_buffer))) [
      | inl waits ↦ rw (on, waits) (write_output_total w r v ans)
      | inr empty ↦ rw (on, empty) (_, refl)
    ]
  ]

  -- With a valid output buffer, and an answer of `write` that has no fault and counts no more than it
  -- was given, `handleWrite` never aborts, keeps the buffer valid, and loses no byte: what is on the
  -- wire and in the output buffer stays the same.
  pub handle_write_lem :
      (w : World C) (write_result file_result : IoResult)
      → IsValid w.conn.output_buffer
      → Answers write_result (readable_bytes w.conn.output_buffer)
      → (w' : World C) × (handle_write w write_result file_result ≡ some w')
        × IsValid w'.conn.output_buffer
        × (stream w' ≡ stream w)
  handle_write_lem w r f v ans =
      let (w', e) = handle_write_total w r f v ans in
      let (valid, same) = handle_write-stream w w' r f v ans e in (w', e, valid, same)

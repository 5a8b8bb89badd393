-- ===== src/Net/Connection/Watching.antt =====
-- Output that waits is watched for, and a shutdown waits for it.
use ssxrver.Prelude.{
  ℕ, zero, suc, ◌-◌, ◌<◌, ◌≡◌, refl, ap, ◌∙◌, inl, inr, Bool, true, false, not, ◌&&◌, Option, none,
  some, List, [], ◌∷◌, ◌++◌, arith, ltb, ◌==◌, if◌then◌else◌, Bool-cases, Option-cases, length,
  take, drop, length-drop, take_all, leb,
}
use mathlib.Core.Path.{subst}
use ssxrver.Net.Events.{write_event}
use ssxrver.Net.Buffer.{append, retrieve, contents, readable_bytes}
use ssxrver.Net.Buffer.Views.{IsValid, length-contents}
use ssxrver.Net.Buffer.Fifo.{retrieve_lem}
use ssxrver.Net.Poller.{
  Poller, Channel, Status, fresh, added, deleted, is_writing, enable_events, disable_events,
}
use ssxrver.Net.Connection.{
  disconnecting, IoResult, error, count, SendFile, wrote, queued_write_complete, shut_write, World,
  emit, with_conn, writing, enable, when, is_connected, is_disconnected, is_disconnecting, shutdown,
  shutdown_in_loop, send_in_loop, Written, nothing_written, write_directly, send_file_part,
  file_part, finish_send, is_fault, is_logged, logged_error, length_holds,
}
use ssxrver.Net.Connection.Stream.Drain.{all_sent-Quiet, write_pending_file-Quiet}
use ssxrver.Net.Connection.Handlers.{handle_write, all_sent, write_output}

enable-writing : (p : Poller) (c : Channel) → is_writing (enable_events p c write_event).1 ≡ true
unfolding enable_events
enable-writing p c = by_status c.status refl
  where
    by_status : (s : Status) → c.status ≡ s → is_writing (enable_events p c write_event).1 ≡ true
    by_status fresh e = ground arith
    by_status added e = ground arith
    by_status deleted e = ground arith

disable-writing : (p : Poller) (c : Channel) → is_writing (disable_events p c write_event).1 ≡ false
unfolding disable_events
disable-writing p c = by_status c.status refl
  where
    by_status : (s : Status) → c.status ≡ s → is_writing (disable_events p c write_event).1 ≡ false
    by_status fresh e = ground arith
    by_status added e = ground arith
    by_status deleted e = ground arith

module _ {C : Type 0} where
  -- While the output buffer holds bytes the channel is watched for writing.
  abbrev pub IsWatched : World C → Type 0
  IsWatched w = 0 < readable_bytes w.conn.output_buffer → writing w ≡ true

  -- The mask is enabled unless it already is.
  abbrev watch : World C → World C
  watch w = if writing w then w else enable w

  watch-writing : (w : World C) → writing (watch w) ≡ true
  watch-writing w = elim (Bool-cases (writing w)) [
    | inl on ↦ rw on on
    | inr off ↦ rw off (enable-writing w.poller w.conn.channel)
  ]

  watch_if :
      (w : World C) (b : Bool)
      → IsWatched w
      → IsWatched (if b && not (writing w) then enable w else w)
  watch_if w false k = k
  watch_if w true k = λ h. elim (Bool-cases (writing w)) [
    | inl on ↦ rw on on
    | inr off ↦ rw off (enable-writing w.poller w.conn.channel)
  ]

  carry : {w w' : World C} → some w ≡ some w' → IsWatched w → IsWatched w'
  carry {w} {w'} e k = subst (λ v. IsWatched v) (out e) k
    where
      out : some w ≡ some w' → w ≡ w'
      out e = cc

  file_part-IsWatched :
      (w w' : World C) (f : Option SendFile) (r : IoResult)
      → IsWatched w
      → file_part w f r ≡ some w'
      → IsWatched w'
  unfolding file_part send_file_part length_holds
  file_part-IsWatched w w' none r k e = carry e k
  file_part-IsWatched w w' (some f) (error x) k e =
      carry e (
        watch_if (emit w (when (is_logged x) logged_error)) (not (is_fault x) && ltb 0 f.send_len)
          k)
  file_part-IsWatched w w' (some f) (count n) k e =
      elim (Bool-cases (f.send_len - n == 0 && w.conn.notifies)) [
        | inl abort ↦ absurd (ground arith)
        | inr kept ↦ carry (rw (kept, holds) at e) (watch_if _ (ltb 0 (f.send_len - n)) k)
      ]
    where
      holds : leb (f.send_len - n) (f.send_len - n) ≡ true
      holds = ground arith

  finish_send-IsWatched :
      (w w' : World C) (bytes : List ℕ) (d : Written) (r : IoResult)
      → IsWatched w
      → finish_send w bytes d r ≡ some w'
      → IsWatched w'
  unfolding finish_send
  finish_send-IsWatched w w' bytes d r k e =
      elim (Bool-cases (not d.fault && ltb 0 (length bytes - d.nwrote))) [
        | inl more ↦
            elim (Option-cases (
              append w.conn.output_buffer (take (length bytes - d.nwrote) (drop d.nwrote bytes)))) [
                | inl full ↦ absurd (ground arith)
                | inr (out, put) ↦
                    carry (rw (more, put) at e)
                      (λ h. watch-writing (with_conn w (record w.conn { output_buffer = out })))
              ]
        | inr last ↦ file_part-IsWatched w w' w.conn.send_file r k (rw last at e)
      ]

  -- Where a send succeeds, a connection whose channel is watched for writing while its output buffer
  -- holds bytes stays so.
  pub send_in_loop-IsWatched :
      (w w' : World C) (bytes : List ℕ) (write_result file_result : IoResult)
      → IsWatched w
      → send_in_loop w bytes write_result file_result ≡ some w'
      → IsWatched w'
  unfolding send_in_loop
  send_in_loop-IsWatched w w' bytes r f k e = elim (Bool-cases (is_disconnected w.conn.state)) [
    | inl down ↦ carry (rw down at e) k
    | inr up ↦
        let d : Written =
          if not (writing w) && readable_bytes w.conn.output_buffer == 0
          then write_directly w bytes r
          else nothing_written in
        finish_send-IsWatched (emit w d.done) w' bytes d f k (rw up at e)
  ]

  write_output-IsWatched :
      (w w' : World C) (r : IoResult) → writing w ≡ true → write_output w r ≡ some w' → IsWatched w'
  unfolding write_output
  write_output-IsWatched w w' (error x) on e = carry e (λ h. on)
  write_output-IsWatched w w' (count zero) on e = carry e (λ h. on)
  write_output-IsWatched w w' (count (suc n)) on e =
      elim (Option-cases (retrieve w.conn.output_buffer (suc n))) [
        | inl short ↦ absurd (ground arith)
        | inr (out, got) ↦
            let next =
              emit (with_conn w (record w.conn { output_buffer = out }))
                (wrote (take (suc n) (contents w.conn.output_buffer)) ∷ []) in
            elim (Bool-cases (readable_bytes out == 0)) [
              | inl all ↦
                  carry (rw (got, all) at e) (λ h.
                    absurd (ground (arith, ap (λ b. readable_bytes b) (all_sent-Quiet next).1)))
              | inr more ↦ carry (rw (got, more) at e) (λ h. on)
            ]
      ]

  -- Where `handleWrite` succeeds, a connection whose channel is watched for writing while its output
  -- buffer holds bytes stays so.
  pub handle_write-IsWatched :
      (w w' : World C) (write_result file_result : IoResult)
      → IsWatched w
      → handle_write w write_result file_result ≡ some w'
      → IsWatched w'
  unfolding handle_write
  handle_write-IsWatched w w' r f k e = elim (Bool-cases (writing w)) [
    | inr idle ↦ carry (rw idle at e) k
    | inl on ↦ elim (Bool-cases (ltb 0 (readable_bytes w.conn.output_buffer))) [
      | inl more ↦ write_output-IsWatched w w' r on (rw (on, more) at e)
      | inr empty ↦
          let put = (write_pending_file-Quiet w w.conn.send_file f).1 in
          carry (rw (on, empty) at e) (λ h. absurd (ground (arith, ap (λ b. readable_bytes b) put)))
    ]
  ]

  all_sent_down :
      (u : World C)
      → is_disconnecting u.conn.state ≡ true
      → (writing (all_sent u) ≡ false)
        × ((all_sent u).effects
            ≡ (u.effects ++ when u.conn.notifies queued_write_complete)
              ++ (shut_write u.conn.sock_fd ∷ []))
  unfolding all_sent shutdown_in_loop
  all_sent_down u down =
      let off = disable-writing u.poller u.conn.channel in rw (down, off) (off, refl)

  -- A shutdown of a connected connection with a valid output buffer that waits for writing only marks
  -- it. The `handleWrite` that then sends all the bytes of the buffer stops watching for writing,
  -- tells of the completion where a callback is set, and shuts the write side.
  pub shutdown-handle_write :
      (w : World C) (n : ℕ) (file_result : IoResult)
      → IsValid w.conn.output_buffer
      → is_connected w.conn.state ≡ true
      → writing w ≡ true
      → 0 < n
      → n ≡ readable_bytes w.conn.output_buffer
      → (w' : World C) × ((shutdown w).effects ≡ w.effects)
        × (handle_write (shutdown w) (count n) file_result ≡ some w')
        × (writing w' ≡ false)
        × (w'.effects
            ≡ ((w.effects ++ (wrote (contents w.conn.output_buffer) ∷ []))
                ++ when w.conn.notifies queued_write_complete)
              ++ (shut_write w.conn.sock_fd ∷ []))
  unfolding handle_write write_output shutdown shutdown_in_loop
  shutdown-handle_write w zero f v up on h all = absurd (omega arith)
  shutdown-handle_write w (suc n) f v up on h all =
      let down = with_conn w (record w.conn { state = disconnecting }) in
      let (out, e, ok, left) = retrieve_lem w.conn.output_buffer (suc n) v (omega arith) in
      let whole : take (suc n) (contents w.conn.output_buffer) ≡ contents w.conn.output_buffer =
        take_all (suc n) (contents w.conn.output_buffer)
          (omega (arith, length-contents w.conn.output_buffer v)) in
      let empty : readable_bytes out ≡ 0 = omega (
        arith,
        length-contents out ok,
        ap length left,
        length-drop (suc n) (contents w.conn.output_buffer),
        length-contents w.conn.output_buffer v,
      ) in
      let next =
        emit (with_conn down (record down.conn { output_buffer = out }))
          (wrote (take (suc n) (contents w.conn.output_buffer)) ∷ []) in
      let (off, told) = all_sent_down next refl in
      let more : ltb 0 (readable_bytes w.conn.output_buffer) ≡ true = ground arith in
      let none_left : (readable_bytes out == 0) ≡ true = ground arith in
      (
        all_sent next,
        rw (up, on),
        rw (up, on, on, more, e, none_left),
        off,
        told
            ∙ ap
                (λ bs.
                  ((w.effects ++ (wrote bs ∷ [])) ++ when w.conn.notifies queued_write_complete)
                  ++ (shut_write w.conn.sock_fd ∷ []))
                whole,
      )

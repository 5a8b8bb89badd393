-- ===== src/Net/Connection/Life.antt =====
-- Opening, closing and reusing a connection.
use ssxrver.Prelude.{
  ℕ, ◌-◌, ◌≡◌, refl, inl, inr, true, false, not, ◌&&◌, ◌||◌, Option, none, some, List, [], ◌∷◌,
  ◌++◌, arith, ltb, ◌==◌, if◌then◌else◌, Bool-cases, length, take, drop, leb,
}
use ssxrver.Net.Buffer.{readable_bytes}
use ssxrver.Net.Buffer.Views.{IsValid}
use ssxrver.Net.Buffer.Fifo.{append_lem}
use ssxrver.Net.Buffer.ReadFd.{received}
use ssxrver.Net.Poller.{added}
use ssxrver.Net.Poller.Interest.{Synced, interest, InOrder, disable_all-remove}
use ssxrver.Net.Connection.{
  disconnected, IoResult, error, count, SendFile, recycled, World, emit, writing, is_connected,
  is_disconnected, is_disconnecting, send_in_loop, Written, nothing_written, write_directly,
  send_file_part, file_part, finish_send, length_holds,
}
use ssxrver.Net.Connection.Stream.{Answers, stream, send_in_loop-stream}
use ssxrver.Net.Connection.Handlers.{handle_close, handle_read, connect_destroyed}

module _ {C : Type 0} where
  -- Closing a connection that is up, and whose channel is in the interest list, succeeds: it ends
  -- disconnected, its descriptor is out of the interest list by calls in order, and it goes back to
  -- the pool once.
  pub handle_close_lem :
      (w : World C)
      → is_connected w.conn.state || is_disconnecting w.conn.state ≡ true
      → Synced w.poller w.conn.channel
      → w.conn.channel.status ≡ added
      → (w' : World C) × (handle_close w ≡ some w')
        × (w'.conn.state ≡ disconnected)
        × InOrder w'.poller.calls
        × (interest w'.poller.calls w.conn.channel.fd ≡ none)
        × (w'.effects ≡ w.effects ++ (recycled ∷ []))
  unfolding handle_close connect_destroyed
  handle_close_lem w up v on =
      let (p, c, e, ordered, gone, status) = disable_all-remove w.poller w.conn.channel v on in
      (
        record w {
          poller = p;
          conn = record w.conn { state = disconnected; channel = c };
          effects = w.effects ++ (recycled ∷ []);
        },
        rw (up, e),
        refl,
        ordered,
        gone,
        refl,
      )

  handle_close-state :
      (w w' : World C)
      → handle_close w ≡ some w'
      → is_connected w'.conn.state || is_disconnecting w'.conn.state ≡ false
  unfolding handle_close connect_destroyed
  handle_close-state w w' e = ground arith

  handle_close_down :
      (w : World C)
      → is_connected w.conn.state || is_disconnecting w.conn.state ≡ false
      → handle_close w ≡ none
  unfolding handle_close
  handle_close_down w down = rw down

  -- A close of a connection that is not up aborts: also the second of two in a row. That is what
  -- `handleEvent` does on a hang-up without input, where it calls the close callback and then the
  -- read callback, and `readv` finds the end of the stream.
  handle_close-handle_read :
      (w w' : World C)
      → handle_close w ≡ some w'
      → (handle_read w' (received []) ≡ none) × (handle_close w' ≡ none)
  unfolding handle_read
  handle_close-handle_read w w' e =
      let down = handle_close_down w' (handle_close-state w w' e) in (down, down)

  -- With a write-complete callback set and nothing waiting, on a connection that is not disconnected,
  -- a send that writes all its bytes and then the whole of its file in one go aborts: the assertion
  -- behind the reset of `sendFile_` follows the null pointer.
  pub send_in_loop_file_aborts :
      (w : World C) (bytes : List ℕ) (f : SendFile)
      → is_disconnected w.conn.state ≡ false
      → writing w ≡ false
      → readable_bytes w.conn.output_buffer ≡ 0
      → w.conn.send_file ≡ some f
      → w.conn.notifies ≡ true
      → send_in_loop w bytes (count (length bytes)) (count f.send_len) ≡ none
  unfolding send_in_loop
  send_in_loop_file_aborts w bytes f live idle empty file told = ground arith

  -- The step gives a world.
  abbrev Succeeds : Option (World C) → Type 0
  Succeeds r = (w' : World C) × (r ≡ some w')

  file_part_total :
      (w : World C) (f : Option SendFile) (r : IoResult)
      → w.conn.notifies ≡ false
      → Succeeds (file_part w f r)
  unfolding file_part send_file_part length_holds
  file_part_total w none r quiet = (w, refl)
  file_part_total w (some f) (error e) quiet = (_, refl)
  file_part_total w (some f) (count n) quiet = elim (Bool-cases (f.send_len - n == 0)) [
    | inl all ↦ rw (all, quiet, holds) (_, refl)
    | inr some_left ↦ rw (some_left, holds) (_, refl)
  ]
    where
      holds : leb (f.send_len - n) (f.send_len - n) ≡ true
      holds = ground arith

  finish_send_total :
      (w : World C) (bytes : List ℕ) (d : Written) (r : IoResult)
      → IsValid w.conn.output_buffer
      → w.conn.notifies ≡ false
      → Succeeds (finish_send w bytes d r)
  unfolding finish_send
  finish_send_total w bytes d r v quiet =
      elim (Bool-cases (not d.fault && ltb 0 (length bytes - d.nwrote))) [
        | inl more ↦
            let (out, e, ok, whole) =
              append_lem w.conn.output_buffer (take (length bytes - d.nwrote) (drop d.nwrote bytes))
                v in
            rw (more, e) (_, refl)
        | inr last ↦ rw last (file_part_total w w.conn.send_file r quiet)
      ]

  -- Without a write-complete callback, and with a valid output buffer, no answer of the kernel makes a
  -- send abort.
  pub send_in_loop_total :
      (w : World C) (bytes : List ℕ) (write_result file_result : IoResult)
      → IsValid w.conn.output_buffer
      → w.conn.notifies ≡ false
      → (w' : World C) × (send_in_loop w bytes write_result file_result ≡ some w')
  unfolding send_in_loop
  send_in_loop_total w bytes r f v quiet = elim (Bool-cases (is_disconnected w.conn.state)) [
    | inl down ↦ rw down (w, refl)
    | inr up ↦
        let d : Written =
          if not (writing w) && readable_bytes w.conn.output_buffer == 0
          then write_directly w bytes r
          else nothing_written in
        rw up (finish_send_total (emit w d.done) bytes d f v quiet)
  ]

  -- On a connection that is not disconnected, with a valid output buffer and no write-complete
  -- callback, and with an answer of `write` that has no fault and counts no more than it was given, a
  -- send never aborts, keeps the buffer valid, and keeps every byte in order: what is on the wire and
  -- in the output buffer grows by just `bytes`.
  pub send_in_loop_lem :
      (w : World C) (bytes : List ℕ) (write_result file_result : IoResult)
      → IsValid w.conn.output_buffer
      → is_disconnected w.conn.state ≡ false
      → w.conn.notifies ≡ false
      → Answers write_result (length bytes)
      → (w' : World C) × (send_in_loop w bytes write_result file_result ≡ some w')
        × IsValid w'.conn.output_buffer
        × (stream w' ≡ stream w ++ bytes)
  send_in_loop_lem w bytes r f v live quiet ans =
      let (w', e) = send_in_loop_total w bytes r f v quiet in
      let (valid, same) = send_in_loop-stream w w' bytes r f v live ans e in (w', e, valid, same)

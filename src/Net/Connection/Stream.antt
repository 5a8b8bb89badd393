-- ===== src/Net/Connection/Stream.antt =====
-- The bytes of a connection in order: what `write` took, then what the output buffer holds.
pub mod Drain
use ssxrver.Prelude.{
  ℕ, zero, suc, ◌-◌, ◌≤◌, ◌≡◌, refl, sym, ap, ◌∙◌, inl, inr, Bool, true, false, not, ◌&&◌, Option,
  none, some, List, [], ◌∷◌, ◌++◌, append-nil, append_assoc, arith, ltb, ◌==◌, if◌then◌else◌,
  Bool-cases, length, take, drop, take-append-drop, length-drop, take_all, drop_all,
}
use ssxrver.Net.Buffer.{contents, readable_bytes}
use ssxrver.Net.Buffer.Views.{IsValid}
use ssxrver.Net.Buffer.Fifo.{append_lem, retrieve_lem}
use ssxrver.Net.Connection.{
  IoResult, error, count, SendFile, Effect, wrote, sent_file, queued_write_complete,
  queued_force_close, shut_write, message, connection_changed, recycled, logged_error, keep_alive,
  World, emit, with_conn, writing, when, is_disconnected, shutdown_in_loop, send_in_loop, Written,
  nothing_written, write_directly, send_file_part, file_part, finish_send, is_fault, is_logged,
  no_file_left,
}
use ssxrver.Net.Connection.Handlers.{
  handle_write, all_sent, write_output, write_file, write_pending_file,
}

bytes_of : Effect → List ℕ
bytes_of (wrote bs) = bs
bytes_of (sent_file f o n) = []
bytes_of queued_write_complete = []
bytes_of queued_force_close = []
bytes_of (shut_write fd) = []
bytes_of message = []
bytes_of connection_changed = []
bytes_of recycled = []
bytes_of logged_error = []
bytes_of (keep_alive fd) = []

-- The bytes that `write` has taken.
unfoldable pub on_wire : List Effect → List ℕ
unfolding bytes_of
on_wire [] = []
on_wire (e ∷ es) = bytes_of e ++ on_wire es

pub on_wire-append : (xs ys : List Effect) → on_wire (xs ++ ys) ≡ on_wire xs ++ on_wire ys
unfolding on_wire
on_wire-append [] ys = refl
on_wire-append (e ∷ xs) ys =
    ap (◌++◌ (bytes_of e)) (on_wire-append xs ys)
    ∙ sym (append_assoc (bytes_of e) (on_wire xs) (on_wire ys))

-- Effects that are no writes.
pub on_wire_quiet :
    (es quiet : List Effect) → on_wire quiet ≡ [] → on_wire (es ++ quiet) ≡ on_wire es
on_wire_quiet es quiet e =
    on_wire-append es quiet ∙ ap (◌++◌ (on_wire es)) e ∙ append-nil (on_wire es)

when_quiet : (b : Bool) (e : Effect) → on_wire (e ∷ []) ≡ [] → on_wire (when b e) ≡ []
unfolding on_wire
when_quiet true e h = h
when_quiet false e h = refl

-- What `write` may answer for `n` bytes without a fault: a count of at most `n`, or an `errno` other
-- than EPIPE and ECONNRESET.
abbrev pub Answers : IoResult → ℕ → Type 0
Answers (count k) n = k ≤ n
Answers (error e) n = is_fault e ≡ false

-- What was written directly and what is left of it make up the bytes again.
joined :
    (bytes sent wire wire' wire'' out out' : List ℕ) (n : ℕ)
    → wire'' ≡ wire'
    → wire' ≡ wire ++ sent
    → sent ≡ take n bytes
    → out' ≡ out ++ drop n bytes
    → out ≡ []
    → wire'' ++ out' ≡ (wire ++ out) ++ bytes
joined bytes sent wire wire' wire'' out out' n e e' e'' held empty =
    simp (e, e', e'', held, empty, append-nil, append_assoc, take-append-drop n bytes)

regroup :
    (bytes wire wire' wire'' out out' : List ℕ)
    → wire'' ≡ wire'
    → wire' ≡ wire ++ []
    → out' ≡ out ++ bytes
    → wire'' ++ out' ≡ (wire ++ out) ++ bytes
regroup bytes wire wire' wire'' out out' e e' held = simp (e, e', held, append-nil, append_assoc)

rotated :
    (wire held : List ℕ) (n : ℕ) (wire' held' : List ℕ)
    → wire' ≡ wire ++ take n held
    → held' ≡ drop n held
    → wire' ++ held' ≡ wire ++ held
rotated wire held n wire' held' e e' = simp (e, e', append_assoc, take-append-drop n held)

module _ {C : Type 0} where
  abbrev pub stream : World C → List ℕ
  stream w = on_wire w.effects ++ contents w.conn.output_buffer

  -- The step sends no bytes of the buffer and takes none.
  abbrev pub Quiet : World C → World C → Type 0
  Quiet w w' =
      (on_wire w'.effects ≡ on_wire w.effects) × (w'.conn.output_buffer ≡ w.conn.output_buffer)

  send_file_part-Quiet :
      (w w' : World C) (f : SendFile) (r : IoResult) → send_file_part w f r ≡ some w' → Quiet w w'
  unfolding send_file_part
  send_file_part-Quiet w w' f (count n) e =
      ground (
        arith,
        on_wire_quiet w.effects (sent_file f.in_fd f.offset n ∷ []) (unfold on_wire in refl),
      )
  send_file_part-Quiet w w' f (error x) e = ground (
    arith,
    on_wire_quiet w.effects (when (is_logged x) logged_error)
        (when_quiet (is_logged x) logged_error (unfold on_wire in refl)),
  )

  file_part-Quiet :
      (w w' : World C) (f : Option SendFile) (r : IoResult) → file_part w f r ≡ some w' → Quiet w w'
  unfolding file_part
  file_part-Quiet w w' none r e = ground arith
  file_part-Quiet w w' (some f) r e = send_file_part-Quiet w w' f r e

  finish_send-stream :
      (w w' : World C) (bytes : List ℕ) (d : Written) (r : IoResult)
      → IsValid w.conn.output_buffer
      → d.nwrote ≤ length bytes
      → d.fault ≡ false
      → finish_send w bytes d r ≡ some w'
      → IsValid w'.conn.output_buffer
        × (on_wire w'.effects ≡ on_wire w.effects)
        × (contents w'.conn.output_buffer ≡ contents w.conn.output_buffer ++ drop d.nwrote bytes)
  unfolding finish_send
  finish_send-stream w w' bytes d r v h ok e =
      let rest = drop d.nwrote bytes in
      let all : take (length bytes - d.nwrote) rest ≡ rest =
        take_all (length bytes - d.nwrote) rest (omega (arith, length-drop d.nwrote bytes)) in
      elim (Bool-cases (ltb 0 (length bytes - d.nwrote))) [
        | inl more ↦
            let (out, a, valid, whole) =
              append_lem w.conn.output_buffer (take (length bytes - d.nwrote) rest) v in
            let put : w'.conn.output_buffer ≡ out = ground arith in
            let same : w'.effects ≡ w.effects = ground arith in
            (
              rw put valid,
              ap on_wire same,
              ap contents put ∙ whole ∙ ap (◌++◌ (contents w.conn.output_buffer)) all,
            )
        | inr none_left ↦
            let (same, put) = file_part-Quiet w w' w.conn.send_file r (ground arith) in
            let nothing : rest ≡ [] = drop_all d.nwrote bytes (ground arith) in
            (
              rw put v,
              same,
              ap contents put
                  ∙ sym (append-nil (contents w.conn.output_buffer))
                  ∙ ap (◌++◌ (contents w.conn.output_buffer)) (sym nothing),
            )
      ]

  direct_wire :
      (w : World C) (bytes : List ℕ) (r : IoResult)
      → on_wire (write_directly w bytes r).done ≡ take (write_directly w bytes r).nwrote bytes
  unfolding write_directly on_wire
  direct_wire w bytes (count n) =
      ap (◌++◌ (take n bytes)) (
        when_quiet (length bytes - n == 0 && w.conn.notifies && no_file_left w.conn.send_file)
          queued_write_complete refl)
      ∙ append-nil (take n bytes)
  direct_wire w bytes (error e) = when_quiet (is_logged e) logged_error refl

  direct_answers :
      (w : World C) (bytes : List ℕ) (r : IoResult)
      → Answers r (length bytes)
      → ((write_directly w bytes r).nwrote ≤ length bytes)
        × ((write_directly w bytes r).fault ≡ false)
  unfolding write_directly
  direct_answers w bytes (count n) h = (h, refl)
  direct_answers w bytes (error e) h = (omega arith, h)

  -- Sending on a connection that is not disconnected, with no fault of `write`, keeps every byte in
  -- order: what is on the wire and in the output buffer grows by just `bytes`.
  pub send_in_loop-stream :
      (w w' : World C) (bytes : List ℕ) (write_result file_result : IoResult)
      → IsValid w.conn.output_buffer
      → is_disconnected w.conn.state ≡ false
      → Answers write_result (length bytes)
      → send_in_loop w bytes write_result file_result ≡ some w'
      → IsValid w'.conn.output_buffer × (stream w' ≡ stream w ++ bytes)
  unfolding send_in_loop on_wire
  send_in_loop-stream w w' bytes r f v live ans e =
      elim (Bool-cases (not (writing w) && readable_bytes w.conn.output_buffer == 0)) [
        | inl direct ↦
            let d = write_directly w bytes r in
            let (few, ok) = direct_answers w bytes r ans in
            let (valid, wire, held) =
              finish_send-stream (emit w d.done) w' bytes d f v few ok (ground arith) in
            let zero_left : readable_bytes w.conn.output_buffer ≡ 0 = ground arith in
            let empty : contents w.conn.output_buffer ≡ [] =
              ap (λ n. take n (drop w.conn.output_buffer.reader_index w.conn.output_buffer.bytes))
                zero_left in
            (
              valid,
              joined bytes (on_wire d.done) (on_wire w.effects) _ _ _ _ d.nwrote wire
                  (on_wire-append w.effects d.done) (direct_wire w bytes r) held empty,
            )
        | inr later ↦
            let (valid, wire, held) =
              finish_send-stream (emit w []) w' bytes nothing_written f v (omega arith) refl
                (ground arith) in
            (
              valid,
              regroup bytes (on_wire w.effects) _ _ _ _ wire (on_wire-append w.effects []) held,
            )
      ]

-- ===== src/Net/Connection/Inert.antt =====
-- Sending leaves the input side of a connection as it is.
use ssxrver.Prelude.{
  ℕ, ◌-◌, ◌≡◌, inl, inr, not, ◌&&◌, Option, none, some, List, [], arith, ltb, ◌==◌, Bool-cases,
  Option-cases, length, take, drop,
}
use ssxrver.Net.Connection.{
  World, SendFile, IoResult, error, count, Written, send_file_part, file_part, finish_send,
  send_in_loop, write_directly, nothing_written, emit, writing, is_disconnected, is_connected,
  shutdown, shutdown_in_loop,
}
use ssxrver.Net.Connection.Handlers.{send_buffer}
use ssxrver.Net.Buffer.{Buffer, append, contents, readable_bytes}

module _ {C : Type 0} where
  -- What sending does not touch.
  abbrev pub SameInput : World C → World C → Type 0
  SameInput w w' = (w'.conn.input_buffer ≡ w.conn.input_buffer) × (w'.conn.context ≡ w.conn.context)

  file_part-SameInput :
      (w w' : World C) (f : Option SendFile) (r : IoResult)
      → file_part w f r ≡ some w'
      → SameInput w w'
  unfolding file_part send_file_part
  file_part-SameInput w w' none r e = ground arith
  file_part-SameInput w w' (some f) (count n) e = ground arith
  file_part-SameInput w w' (some f) (error x) e = ground arith

  finish_send-SameInput :
      (w w' : World C) (bytes : List ℕ) (d : Written) (r : IoResult)
      → finish_send w bytes d r ≡ some w'
      → SameInput w w'
  unfolding finish_send
  finish_send-SameInput w w' bytes d r e =
      elim (Bool-cases (not d.fault && ltb 0 (length bytes - d.nwrote))) [
        | inr file ↦ file_part-SameInput w w' w.conn.send_file r (simp file at e)
        | inl queue ↦
            elim (Option-cases (
              append w.conn.output_buffer (take (length bytes - d.nwrote) (drop d.nwrote bytes)))) [
                | inl stop ↦ absurd (ground (arith, queue, stop, e))
                | inr (out, go) ↦ ground (arith, queue, go, e)
              ]
      ]

  send_in_loop-SameInput :
      (w w' : World C) (bytes : List ℕ) (r f : IoResult)
      → send_in_loop w bytes r f ≡ some w'
      → SameInput w w'
  unfolding send_in_loop
  send_in_loop-SameInput w w' bytes r f e = elim (Bool-cases (is_disconnected w.conn.state)) [
    | inl down ↦ ground (arith, down, e)
    | inr up ↦ elim (Bool-cases (not (writing w) && readable_bytes w.conn.output_buffer == 0)) [
      | inl direct ↦
          let d = write_directly w bytes r in
          finish_send-SameInput (emit w d.done) w' bytes d f (ground (arith, direct, up, e))
      | inr later ↦
          finish_send-SameInput (emit w []) w' bytes nothing_written f
            (ground (arith, later, up, e))
    ]
  ]

  pub send_buffer-SameInput :
      (w w' : World C) (b b' : Buffer) (r f : IoResult)
      → send_buffer w b r f ≡ some (w', b')
      → SameInput w w'
  unfolding send_buffer
  send_buffer-SameInput w w' b b' r f e = elim (Bool-cases (is_connected w.conn.state)) [
    | inr down ↦ ground (arith, down, e)
    | inl up ↦ elim (Option-cases (send_in_loop w (contents b) r f)) [
      | inl stop ↦ absurd (ground (arith, up, stop, e))
      | inr (u, go) ↦
          let k = send_in_loop-SameInput w u (contents b) r f go in ground (arith, up, go, e, k)
    ]
  ]

  pub shutdown-SameInput : (w : World C) → SameInput w (shutdown w)
  unfolding shutdown shutdown_in_loop
  shutdown-SameInput w = ground arith

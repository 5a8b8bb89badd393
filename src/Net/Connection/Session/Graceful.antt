-- ===== src/Net/Connection/Session/Graceful.antt =====
-- An open connection stays so, and keeps its bytes in order to the last.
use ssxrver.Prelude.{
  ℕ, ◌≡◌, refl, sym, ap, ◌∙◌, ◌⊎◌, inl, inr, true, false, none, some, List, [], ◌∷◌, ◌++◌,
  append-nil, append_assoc, arith, ltb, if◌then◌else◌, Bool-cases, length, take, drop, All, ◌>>=◌,
}
use mathlib.Core.Path.{subst}
use ssxrver.Net.Buffer.{Buffer, contents, readable_bytes}
use ssxrver.Net.Buffer.Views.{IsValid, length-contents}
use ssxrver.Net.Connection.{
  State, disconnected, connecting, connected, disconnecting, World, IoResult, shut_write,
  send_in_loop, emit, writing, is_disconnected, is_connected, is_disconnecting, shutdown,
  shutdown_in_loop, with_conn,
}
use ssxrver.Net.Connection.Handlers.{send_buffer, handle_write, write_pending_file}
use ssxrver.Net.Connection.Stream.{Answers, stream, on_wire, on_wire_quiet}
use ssxrver.Net.Connection.Stream.Drain.{handle_write_lem}
use ssxrver.Net.Connection.Life.{send_in_loop_lem}
use ssxrver.Net.Connection.Watching.{send_in_loop-IsWatched, handle_write-IsWatched}
use ssxrver.Net.Connection.Session.{
  Action, sends, writable, shuts_down, has_shut, accepted, act, run, Behaves, IsOpen,
}
use ssxrver.Net.Connection.Session.Effects.{send_in_loop-Steady, handle_write-Drains}

-- A buffer with nothing to read.
no_contents : (b : Buffer) → readable_bytes b ≡ 0 → contents b ≡ []
no_contents b e = ap (λ n. take n (drop b.reader_index b.bytes)) e

none_readable : (b : Buffer) → IsValid b → contents b ≡ [] → readable_bytes b ≡ 0
none_readable b v e = sym (length-contents b v) ∙ ap length e

disconnecting-down : (s : State) → is_disconnecting s ≡ true → is_connected s ≡ false
disconnecting-down disconnecting e = refl
disconnecting-down disconnected e = refl
disconnecting-down connecting e = refl
disconnecting-down connected e = absurd (ground (arith, e))

-- The state behind a shutdown.
abbrev downward : State → State
downward s = if is_connected s then disconnecting else s

module _ {C : Type 0} where
  -- A send on an open connection.
  send_in_loop-IsOpen :
      (w : World C) (bytes : List ℕ) (r f : IoResult)
      → IsOpen w
      → is_connected w.conn.state ≡ true
      → Answers r (length bytes)
      → (w' : World C) × (send_in_loop w bytes r f ≡ some w')
        × IsOpen w'
        × (w'.conn.state ≡ w.conn.state)
        × (stream w' ≡ stream w ++ bytes)
  send_in_loop-IsOpen w bytes r f o on ans =
      let (w', e, v, s) = send_in_loop_lem w bytes r f o.valid o.up o.quiet ans in
      let k = send_in_loop-Steady w w' bytes r f o.no_file o.up e in
      (
        w',
        e,
        record {
          valid = v;
          up = ap is_disconnected k.state ∙ o.up;
          quiet = k.notifies ∙ o.quiet;
          no_file = k.file ∙ o.no_file;
          watched = send_in_loop-IsWatched w w' bytes r f o.watched e;
          graceful = λ shut.
              let off = (o.graceful (sym k.shut ∙ shut)).1 in absurd (ground (arith, off, on));
        },
        k.state,
        s,
      )

  handle_write_empty :
      (w : World C) (r f : IoResult)
      → w.conn.send_file ≡ none
      → readable_bytes w.conn.output_buffer ≡ 0
      → handle_write w r f ≡ some w
  unfolding handle_write write_pending_file
  handle_write_empty w r f n z =
      let none_left : ltb 0 (readable_bytes w.conn.output_buffer) ≡ false = ground (arith, z) in
      elim (Bool-cases (writing w)) [
        | inr idle ↦ simp idle refl
        | inl on ↦ simp (on, none_left, n) refl
      ]

  handle_write-IsOpen :
      (w : World C) (r f : IoResult)
      → IsOpen w
      → Answers r (readable_bytes w.conn.output_buffer)
      → (w' : World C) × (handle_write w r f ≡ some w')
        × IsOpen w'
        × (w'.conn.state ≡ w.conn.state)
        × (stream w' ≡ stream w)
  handle_write-IsOpen w r f o ans =
      let (w', e, v, s) = handle_write_lem w r f o.valid ans in
      let k = handle_write-Drains w w' r f o.quiet o.no_file e in
      (
        w',
        e,
        record {
          valid = v;
          up = ap is_disconnected k.state ∙ o.up;
          quiet = k.notifies ∙ o.quiet;
          no_file = k.file ∙ o.no_file;
          watched = handle_write-IsWatched w w' r f o.watched e;
          graceful = λ shut. elim (k.shut shut) [
            | inl before ↦
                let (empty, off) = o.graceful before in
                let same : some w ≡ some w' =
                  sym (
                    handle_write_empty w r f o.no_file
                      (none_readable w.conn.output_buffer o.valid empty))
                  ∙ e in
                (
                  subst (λ x. contents (World.conn x).output_buffer ≡ []) {x = w} {y = w'} (cc same)
                      empty,
                  ap is_connected k.state ∙ off,
                )
            | inr (down, empty) ↦ (
              no_contents w'.conn.output_buffer empty,
              disconnecting-down w'.conn.state (ap is_disconnecting k.state ∙ down),
            )
          ];
        },
        k.state,
        s,
      )

  -- What holds behind a shutdown of `w`.
  Behind : World C → World C → Type 0
  Behind w x = IsOpen x × (x.conn.state ≡ downward w.conn.state) × (stream x ≡ stream w)

  shutdown-IsOpen : (w : World C) → IsOpen w → Behind w (shutdown w)
  unfolding Behind
  shutdown-IsOpen w o = elim (Bool-cases (is_connected w.conn.state)) [
    | inr off ↦
        subst (Behind w) (sym (off_lem off))
          (o, ap (λ b. if b then disconnecting else w.conn.state) (sym off), refl)
    | inl on ↦ elim (Bool-cases (writing w)) [
      | inl waits ↦ subst (Behind w) (sym (waits_lem on waits)) (
        record {
          valid = o.valid;
          up = refl;
          quiet = o.quiet;
          no_file = o.no_file;
          watched = o.watched;
          graceful = λ e. ((o.graceful e).0, refl);
        },
        ap (λ b. if b then disconnecting else w.conn.state) (sym on),
        refl,
      )
      | inr idle ↦ subst (Behind w) (sym (idle_lem on idle)) (
        record {
          valid = o.valid;
          up = refl;
          quiet = o.quiet;
          no_file = o.no_file;
          watched = o.watched;
          graceful = λ e. (no_contents w.conn.output_buffer (drained idle), refl);
        },
        ap (λ b. if b then disconnecting else w.conn.state) (sym on),
        ap (λ t. t ++ contents w.conn.output_buffer)
            (on_wire_quiet w.effects (shut_write w.conn.sock_fd ∷ []) (unfold on_wire in refl)),
      )
    ]
  ]
    where
      down : World C
      down = with_conn w (record w.conn { state = disconnecting })

      off_lem : is_connected w.conn.state ≡ false → shutdown w ≡ w
      off_lem off = unfold shutdown in simp off refl

      waits_lem : is_connected w.conn.state ≡ true → writing w ≡ true → shutdown w ≡ down
      waits_lem on waits = unfold shutdown shutdown_in_loop in simp (on, waits) refl

      idle_lem :
          is_connected w.conn.state ≡ true
          → writing w ≡ false
          → shutdown w ≡ emit down (shut_write w.conn.sock_fd ∷ [])
      idle_lem on idle = unfold shutdown shutdown_in_loop in simp (on, idle) refl

      drained : writing w ≡ false → readable_bytes w.conn.output_buffer ≡ 0
      drained idle = elim (Bool-cases (ltb 0 (readable_bytes w.conn.output_buffer))) [
        | inr none_left ↦ ground (arith, none_left)
        | inl more ↦ let on = o.watched (ground (arith, more)) in absurd (ground (arith, on, idle))
      ]

  -- One action.
  act-IsOpen :
      (w : World C) (a : Action)
      → IsOpen w
      → Behaves a
      → (w' : World C) × (act w a ≡ some w')
        × IsOpen w'
        × ((as' : List Action)
            → stream w' ++ accepted w'.conn.state as' ≡ stream w ++ accepted w.conn.state (a ∷ as'))
  unfolding act accepted Behind
  act-IsOpen w (sends buf r f) o b = elim (Bool-cases (is_connected w.conn.state)) [
    | inr off ↦ (
      w,
      ignored off,
      o,
      λ as'.
          ap (λ c. stream w ++ ((if c then contents buf else []) ++ accepted w.conn.state as'))
            (sym off),
    )
    | inl on ↦
        let (w', e, o', s, t) = send_in_loop-IsOpen w (contents buf) r f o on b in
        (
          w',
          sent on e,
          o',
          λ as'.
              ap (λ x. stream w' ++ accepted x as') s
              ∙ ap (λ x. x ++ accepted w.conn.state as') t
              ∙ append_assoc (stream w) (contents buf) (accepted w.conn.state as')
              ∙ ap
                  (λ c. stream w ++ ((if c then contents buf else []) ++ accepted w.conn.state as'))
                  (sym on),
        )
  ]
    where
      ignored :
          is_connected w.conn.state ≡ false → (send_buffer w buf r f >>= λ p. some p.0) ≡ some w
      ignored off = unfold send_buffer in simp off refl

      sent :
          {w' : World C}
          → is_connected w.conn.state ≡ true
          → send_in_loop w (contents buf) r f ≡ some w'
          → (send_buffer w buf r f >>= λ p. some p.0) ≡ some w'
      sent on e = unfold send_buffer in simp (on, e) refl
  act-IsOpen w (writable r f) o b =
      let (w', e, o', s, t) =
        handle_write-IsOpen w (r (readable_bytes w.conn.output_buffer)) f o
          (b (readable_bytes w.conn.output_buffer)) in
      (
        w',
        e,
        o',
        λ as'. ap (λ x. stream w' ++ accepted x as') s ∙ ap (λ x. x ++ accepted w.conn.state as') t,
      )
  act-IsOpen w shuts_down o b =
      let (o', s, t) = shutdown-IsOpen w o in
      (
        shutdown w,
        refl,
        o',
        λ as'.
            ap (λ x. stream (shutdown w) ++ accepted x as') s
            ∙ ap (λ x. x ++ accepted (downward w.conn.state) as') t,
      )

  run-IsOpen :
      (w : World C) (as' : List Action)
      → IsOpen w
      → All Behaves as'
      → (w' : World C) × (run w as' ≡ some w')
        × IsOpen w'
        × (stream w' ≡ stream w ++ accepted w.conn.state as')
  unfolding run accepted
  run-IsOpen w [] o b = (w, refl, o, sym (append-nil (stream w)))
  run-IsOpen w (a ∷ as') o b =
      let (w1, e, o1, t) = act-IsOpen w a o b.0 in
      let (w2, e', o2, t') = run-IsOpen w1 as' o1 b.1 in
      (w2, ap (λ x. x >>= λ w'. run w' as') e ∙ e', o2, t' ∙ t as')

  -- From an open connection with no file and no write-complete callback, any run of sends, writable
  -- events and shutdowns, with answers that have no fault and count no more than was given, succeeds. What is on the wire and in the output buffer
  -- grows by just what the connection accepts, which is the sends before the first shutdown, in
  -- order. And the write side is not shut, or all of that is on the wire.
  pub run_lem :
      (w : World C) (as' : List Action)
      → IsOpen w
      → All Behaves as'
      → (w' : World C) × (run w as' ≡ some w')
        × IsOpen w'
        × (stream w' ≡ stream w ++ accepted w.conn.state as')
        × ((has_shut w'.effects ≡ false)
            ⊎ (on_wire w'.effects ≡ stream w ++ accepted w.conn.state as'))
  run_lem w as' o b =
      let (w', e, o', t) = run-IsOpen w as' o b in
      (
        w',
        e,
        o',
        t,
        elim (Bool-cases (has_shut w'.effects)) [
          | inr not_yet ↦ inl not_yet
          | inl shut ↦ inr (
              sym (append-nil (on_wire w'.effects))
              ∙ ap (◌++◌ (on_wire w'.effects)) (sym (o'.graceful shut).0)
              ∙ t)
        ],
      )

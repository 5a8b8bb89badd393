-- ===== src/Net/Connection/Session.antt =====
-- net/TcpConnection.cpp: a connection over any run of sends, writable events and shutdowns.
--
-- A connection is a queue of bytes to its peer: what it accepts goes on the wire in order, and the
-- write side is shut behind the last of it.
pub mod Effects
pub mod Graceful
mod Tests
use ssxrver.Prelude.{
  ℕ, zero, suc, ◌+◌, ◌-◌, ◌*◌, ◌/◌, ◌%◌, ◌^◌, ◌≤◌, ◌<◌, min, ◌≡◌, refl, sym, ap, ◌∙◌, ◌≢◌, ◌↔◌, ◌⊎◌,
  inl, inr, Bool, true, false, not, ◌&&◌, ◌||◌, Option, none, some, List, [], ◌∷◌, ◌++◌, map,
  append-nil, append_assoc, arith, ltb, leb, ◌==◌, if◌then◌else◌, ltb→lt, lt→ltb, leb→le, ==_iff,
  tests, Bool-cases, Option-cases, length, get_elem?, set, length-append, length-set,
  get_elem?-set_self, get_elem?-set_ne, get_or, take, drop, replicate, take-append-drop,
  length-take, length-drop, length-replicate, length-map, take-append, drop-append, take_all,
  drop_all, take-append_past, drop-drop, drop-take, take-take, select, All, All-append, All-map,
  ◌>>=◌, ◌>>◌, assert, codes, same, strncmp_equal, c_str, value_from, decimal_onto, decimal,
}
use mathlib.Core.Path.{subst}
use ssxrver.Net.Buffer.{Buffer, append, retrieve, contents, readable_bytes}
use ssxrver.Net.Buffer.Views.{IsValid, length-contents}
use ssxrver.Net.Connection.{
  State, disconnected, connecting, connected, disconnecting, World, SendFile, IoResult, error,
  count, Written, Effect, wrote, sent_file, queued_write_complete, queued_force_close, shut_write,
  message, connection_changed, recycled, logged_error, keep_alive, send_file_part, file_part,
  finish_send, send_in_loop, write_directly, nothing_written, emit, writing, is_disconnected,
  is_connected, is_disconnecting, no_file_left, shutdown, shutdown_in_loop, when, with_conn,
  is_logged,
}
use ssxrver.Net.Connection.Handlers.{
  send_buffer, handle_write, write_output, write_pending_file, all_sent,
}
use ssxrver.Net.Connection.Stream.{Answers, stream, on_wire, on_wire-append}
use ssxrver.Net.Connection.Stream.Drain.{handle_write_lem}
use ssxrver.Net.Connection.Life.{send_in_loop_lem}
use ssxrver.Net.Connection.Watching.{IsWatched, send_in_loop-IsWatched, handle_write-IsWatched}

-- What happens to a connection in its loop, with the answers of `write` and `sendfile`. That of a
-- writable connection is to the number of bytes that wait.
pub data Action : Type 0 where
  sends : Buffer → IoResult → IoResult → Action
  writable : (ℕ → IoResult) → IoResult → Action
  shuts_down : Action

is_shut : Effect → Bool
is_shut (wrote bs) = false
is_shut (sent_file f o n) = false
is_shut queued_write_complete = false
is_shut queued_force_close = false
is_shut (shut_write fd) = true
is_shut message = false
is_shut connection_changed = false
is_shut recycled = false
is_shut logged_error = false
is_shut (keep_alive fd) = false

-- The write side was shut.
unfoldable pub has_shut : List Effect → Bool
unfolding is_shut
has_shut [] = false
has_shut (e ∷ es) = is_shut e || has_shut es

-- What a connection in this state accepts of a run: `send` is ignored behind `shutdown`.
unfoldable pub accepted : State → List Action → List ℕ
accepted s [] = []
accepted s (sends buf r f ∷ as') = (if is_connected s then contents buf else []) ++ accepted s as'
accepted s (writable r f ∷ as') = accepted s as'
accepted s (shuts_down ∷ as') = accepted (if is_connected s then disconnecting else s) as'

-- The answers have no fault and count no more than was given.
abbrev pub Behaves : Action → Type 0
Behaves (sends buf r f) = Answers r (length (contents buf))
Behaves (writable r f) = (n : ℕ) → Answers (r n) n
Behaves shuts_down = Unit {0}

module _ {C : Type 0} where
  unfoldable pub act : World C → Action → Option (World C)
  act w (sends buf r f) = send_buffer w buf r f >>= λ p. some p.0
  act w (writable r f) = handle_write w (r (readable_bytes w.conn.output_buffer)) f
  act w shuts_down = some (shutdown w)

  unfoldable pub run : World C → List Action → Option (World C)
  run w [] = some w
  run w (a ∷ as') = act w a >>= λ w'. run w' as'

  -- A connection that is up, without a file or a write-complete callback; and where the write side was
  -- shut, nothing waits and nothing more is accepted.
  pub record IsOpen (w : World C) : Type 0 where
    pub valid : IsValid w.conn.output_buffer
    pub up : is_disconnected w.conn.state ≡ false
    pub quiet : w.conn.notifies ≡ false
    pub no_file : w.conn.send_file ≡ none
    pub watched : IsWatched w
    pub graceful :
        has_shut w.effects ≡ true
        → (contents w.conn.output_buffer ≡ []) × (is_connected w.conn.state ≡ false)

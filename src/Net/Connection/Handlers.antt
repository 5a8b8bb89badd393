-- ===== src/Net/Connection/Handlers.antt =====
-- net/TcpConnection.cpp: the handlers of the channel's events, closing, and the connection's life.
use ssxrver.Prelude.{
  ℕ, zero, suc, ◌+◌, ◌-◌, Bool, true, false, not, ◌||◌, Option, none, some, List, [], ◌∷◌, ltb,
  ◌==◌, if◌then◌else◌, take, ◌>>=◌, ◌>>◌, assert,
}
use ssxrver.Net.Events.{read_event_lt}
use ssxrver.Net.Buffer.{Buffer, retrieve, retrieve_all, contents, readable_bytes}
use ssxrver.Net.Buffer.ReadFd.{ReadResult, failed, received, read_fd}
use ssxrver.Net.Poller.{
  is_reading, enable_events, disable_events, disable_all, remove, channel_reset,
}
use ssxrver.Net.Connection.{
  State, disconnected, connecting, connected, disconnecting, IoResult, error, count, SendFile,
  wrote, sent_file, queued_write_complete, queued_force_close, message, connection_changed,
  recycled, logged_error, keep_alive, World, emit, with_conn, with_channel, writing, disable, when,
  is_connected, is_disconnecting, shutdown_in_loop, send_in_loop,
}

abbrev pub is_connecting : State → Bool
is_connecting connecting = true
is_connecting disconnected = false
is_connecting connected = false
is_connecting disconnecting = false

module _ {C : Type 0} where
  -- What `handleWrite` does once nothing is left to send.
  unfoldable pub all_sent : World C → World C
  all_sent w =
      let idle = disable w in
      let told = emit idle (when idle.conn.notifies queued_write_complete) in
      if is_disconnecting told.conn.state then shutdown_in_loop told else told

  -- The answer of `write` for the output buffer.
  unfoldable pub write_output : World C → IoResult → Option (World C)
  unfolding all_sent
  write_output w (error e) = some (emit w (logged_error ∷ []))
  write_output w (count zero) = some (emit w (wrote [] ∷ logged_error ∷ []))
  write_output w (count (suc n)) = do
    out ← retrieve w.conn.output_buffer (suc n)
    let w' =
        emit (with_conn w (record w.conn { output_buffer = out }))
          (wrote (take (suc n) (contents w.conn.output_buffer)) ∷ [])
    some (if readable_bytes out == 0 then all_sent w' else w')

  -- The answer of `sendfile` for the file, of which it moves the offset; the code moves it again.
  unfoldable pub write_file : World C → SendFile → IoResult → World C
  unfolding all_sent
  write_file w f (error e) = emit w (logged_error ∷ [])
  write_file w f (count zero) = emit w (logged_error ∷ [])
  write_file w f (count (suc n)) =
      let left = f.send_len - suc n in
      let sent = emit w (sent_file f.in_fd f.offset (suc n) ∷ []) in
      if left == 0
      then all_sent (with_conn sent (record sent.conn { send_file = none }))
      else with_conn sent (record sent.conn {
        send_file = some (record f { send_len = left; offset = f.offset + suc n + suc n });
      })

  unfoldable pub write_pending_file : World C → Option SendFile → IoResult → World C
  unfolding write_file
  write_pending_file w none r = w
  write_pending_file w (some f) r = write_file w f r

  unfoldable pub handle_write : World C → IoResult → IoResult → Option (World C)
  unfolding write_output write_pending_file
  handle_write w write_result file_result =
      if writing w
      then (if ltb 0 (readable_bytes w.conn.output_buffer)
          then write_output w write_result
          else some (write_pending_file w w.conn.send_file file_result))
      else some w

  -- `Epoll::removeConnection`, the `closeCallback_`, calls this at once in the loop's thread.
  unfoldable pub connect_destroyed : World C → Option (World C)
  connect_destroyed w =
      let down = with_channel w (disable_all w.poller w.conn.channel) in
      let told =
        emit (with_conn down (record down.conn { state = disconnected }))
          (connection_changed ∷ []) in
      let w' = if is_connected w.conn.state then told else w in
      remove w'.poller w'.conn.channel >>= λ r. some (emit (with_channel w' r) (recycled ∷ []))

  unfoldable pub handle_close : World C → Option (World C)
  unfolding connect_destroyed
  handle_close w = do
    assert (is_connected w.conn.state || is_disconnecting w.conn.state)
    let w' = with_conn w (record w.conn { state = disconnected })
    connect_destroyed (with_channel w' (disable_all w'.poller w'.conn.channel))

  -- `messageCallback_` runs where the effect `message` stands.
  unfoldable pub handle_read : World C → ReadResult → Option (World C)
  unfolding handle_close
  handle_read w (failed errno) = some (emit w (logged_error ∷ []))
  handle_read w (received []) = handle_close w
  handle_read w (received (byte ∷ bytes)) = do
    inp ← read_fd w.conn.input_buffer (received (byte ∷ bytes))
    some (emit (with_conn w (record w.conn { input_buffer = inp })) (message ∷ []))

  unfoldable pub force_close_in_loop : World C → Option (World C)
  unfolding handle_close
  force_close_in_loop w =
      if is_connected w.conn.state || is_disconnecting w.conn.state then handle_close w else some w

  unfoldable pub force_close : World C → World C
  force_close w =
      if is_connected w.conn.state || is_disconnecting w.conn.state
      then emit (with_conn w (record w.conn { state = disconnecting })) (queued_force_close ∷ [])
      else w

  unfoldable pub start_read : World C → World C
  start_read w =
      let on = with_channel w (enable_events w.poller w.conn.channel read_event_lt) in
      if not w.conn.reading || not (is_reading w.conn.channel)
      then with_conn on (record on.conn { reading = true })
      else w

  unfoldable pub stop_read : World C → World C
  stop_read w =
      let off = with_channel w (disable_events w.poller w.conn.channel read_event_lt) in
      if w.conn.reading || is_reading w.conn.channel
      then with_conn off (record off.conn { reading = false })
      else w

  unfoldable pub connect_established : World C → Option (World C)
  connect_established w = do
    assert (is_connecting w.conn.state)
    let w' = with_conn w (record w.conn { state = connected })
    let on = with_channel w' (enable_events w'.poller w'.conn.channel read_event_lt)
    some (emit on (connection_changed ∷ []))

  -- The parser's `reset` is an argument.
  unfoldable pub connect_reset : (C → C) → World C → ℕ → World C
  connect_reset reset w fd =
      emit
        (with_conn w (record w.conn {
          state = connecting;
          sock_fd = fd;
          channel = channel_reset w.conn.channel fd;
          context = reset w.conn.context;
          reading = true;
          input_buffer = retrieve_all w.conn.input_buffer;
          output_buffer = retrieve_all w.conn.output_buffer;
          send_file = none;
        }))
        (keep_alive fd ∷ [])

  -- `send` of a buffer in the loop's thread: the buffer is emptied.
  unfoldable pub send_buffer : World C → Buffer → IoResult → IoResult → Option (World C × Buffer)
  send_buffer w buf write_result file_result =
      if is_connected w.conn.state
      then (send_in_loop w (contents buf) write_result file_result >>= λ w'.
          some (w', retrieve_all buf))
      else some (w, buf)

  -- `send` of a text. In the loop's thread `runInLoop` calls at once, so the `else` of the source,
  -- which hangs on the state, sends on a connection that is not connected; from another thread a
  -- connected one sends nothing, and any other queues the call.
  unfoldable pub send_text : World C → List ℕ → IoResult → IoResult → Option (World C)
  send_text w text write_result file_result = send_in_loop w text write_result file_result

  -- The same from a thread that is not the loop's: the texts whose sending is queued.
  unfoldable pub send_text_from_outside : World C → List ℕ → List (List ℕ)
  send_text_from_outside w text = if is_connected w.conn.state then [] else text ∷ []

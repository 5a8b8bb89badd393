-- ===== src/Net/Connection.antt =====
-- net/TcpConnection.h and net/TcpConnection.cpp, run in the thread of the connection's loop.
--
-- `World` is a connection with the poller of its loop, and what it has asked of the outside so far
-- (`effects`, oldest first). Answers of the kernel are arguments: each handler takes what the call
-- of `write`, `sendfile` or `readv` that it may make returns. `C` is the type of the parser context.
-- `none` is an abort: a failed assertion, or a null pointer followed.
mod Tests
pub mod Handlers
pub mod Stream
pub mod Life
pub mod Watching
pub mod Inert
pub mod Session
pub mod Reuse
pub mod File
use ssxrver.Prelude.{
  ℕ, zero, suc, ◌+◌, ◌-◌, ◌*◌, ◌/◌, ◌%◌, ◌^◌, ◌≤◌, ◌<◌, min, ◌≡◌, refl, sym, ap, ◌∙◌, ◌≢◌, ◌↔◌, ◌⊎◌,
  inl, inr, Bool, true, false, not, ◌&&◌, ◌||◌, Option, none, some, List, [], ◌∷◌, ◌++◌, map,
  append-nil, append_assoc, arith, ltb, leb, ◌==◌, if◌then◌else◌, ltb→lt, lt→ltb, leb→le, ==_iff,
  tests, Bool-cases, Option-cases, length, get_elem?, set, length-append, length-set,
  get_elem?-set_self, get_elem?-set_ne, get_or, take, drop, replicate, take-append-drop,
  length-take, length-drop, length-replicate, length-map, take-append, drop-append, take_all,
  drop_all, drop-drop, drop-take, ◌>>=◌, ◌>>◌, assert,
}
use ssxrver.Net.Events.{read_event_lt, write_event}
use ssxrver.Net.Buffer.{
  Buffer, new, init_size, append, retrieve, retrieve_all, contents, readable_bytes,
}
use ssxrver.Net.Buffer.ReadFd.{ReadResult, failed, received, read_fd}
use ssxrver.Net.Poller.{
  Poller, Channel, new_channel, is_writing, is_reading, enable_events, disable_events, disable_all,
  remove, channel_reset,
}

-- `StateE`.
pub data State : Type 0 where
  disconnected connecting connected disconnecting : State

-- The `errno` that the code tells apart: EWOULDBLOCK, EPIPE, ECONNRESET, any other.
pub data Errno : Type 0 where
  would_block broken_pipe connection_reset other_errno : Errno

pub data IoResult : Type 0 where
  error : Errno → IoResult
  count : ℕ → IoResult

-- `SendFileUtil` (base/File.h), but for the constructor's `err_`, which nothing reads.
pub record SendFile : Type 0 where
  pub in_fd : ℕ
  pub offset : ℕ
  pub send_len : ℕ

pub data Effect : Type 0 where
  wrote : List ℕ → Effect
  sent_file : ℕ → ℕ → ℕ → Effect
  queued_write_complete queued_force_close : Effect
  shut_write : ℕ → Effect
  message connection_changed recycled logged_error : Effect
  keep_alive : ℕ → Effect

pub record Connection (C : Type 0) : Type 0 where
  pub state : State
  pub sock_fd : ℕ
  pub channel : Channel
  pub input_buffer : Buffer
  pub output_buffer : Buffer
  pub send_file : Option SendFile
  pub context : C
  pub reading : Bool
  -- `writeCompleteCallback_` is set.
  pub notifies : Bool

pub record World (C : Type 0) : Type 0 where
  pub poller : Poller
  pub conn : Connection C
  pub effects : List Effect

-- The constructor; `context` is a new parser.
unfoldable pub new_connection : {C : Type 0} → C → Bool → ℕ → Connection C
new_connection context notifies fd = record {
  state = connecting;
  sock_fd = fd;
  channel = new_channel fd;
  input_buffer = new init_size;
  output_buffer = new init_size;
  send_file = none;
  context = context;
  reading = true;
  notifies = notifies;
}

abbrev pub is_disconnected : State → Bool
is_disconnected disconnected = true
is_disconnected connecting = false
is_disconnected connected = false
is_disconnected disconnecting = false

abbrev pub is_connected : State → Bool
is_connected connected = true
is_connected disconnected = false
is_connected connecting = false
is_connected disconnecting = false

abbrev pub is_disconnecting : State → Bool
is_disconnecting disconnecting = true
is_disconnecting disconnected = false
is_disconnecting connecting = false
is_disconnecting connected = false

-- `errno == EPIPE || errno == ECONNRESET`.
abbrev pub is_fault : Errno → Bool
is_fault broken_pipe = true
is_fault connection_reset = true
is_fault would_block = false
is_fault other_errno = false

-- `errno != EWOULDBLOCK`.
abbrev pub is_logged : Errno → Bool
is_logged would_block = false
is_logged broken_pipe = true
is_logged connection_reset = true
is_logged other_errno = true

abbrev pub when : Bool → Effect → List Effect
when true e = e ∷ []
when false e = []

-- `!sendFile_`, or nothing of the file is left to send.
-- `assert(remaining <= sendFile_->getSendLen())`, which follows the pointer.
unfoldable pub length_holds : ℕ → Option SendFile → Option (Unit {0})
length_holds remaining none = none
length_holds remaining (some f) = assert (leb remaining f.send_len)

abbrev pub no_file_left : Option SendFile → Bool
no_file_left none = true
no_file_left (some f) = f.send_len == 0

-- What the direct `write` of `sendInLoop` leaves: bytes written, `faultError`, and the effects.
pub record Written : Type 0 where
  pub nwrote : ℕ
  pub fault : Bool
  pub done : List Effect

abbrev pub nothing_written : Written
nothing_written = record { nwrote = 0; fault = false; done = [] }

module _ {C : Type 0} where
  abbrev pub emit : World C → List Effect → World C
  emit w es = record w { effects = w.effects ++ es }

  abbrev pub with_conn : World C → Connection C → World C
  with_conn w c = record w { conn = c }

  -- The poller and the channel that a change of the mask gives.
  abbrev pub with_channel : World C → Poller × Channel → World C
  with_channel w r = record w { poller = r.0; conn = record w.conn { channel = r.1 } }

  abbrev pub writing : World C → Bool
  writing w = is_writing w.conn.channel

  abbrev pub enable : World C → World C
  enable w = with_channel w (enable_events w.poller w.conn.channel write_event)

  abbrev pub disable : World C → World C
  disable w = with_channel w (disable_events w.poller w.conn.channel write_event)

  write_directly : World C → List ℕ → IoResult → Written
  write_directly w bytes (count n) = record {
    nwrote = n;
    fault = false;
    done =
        wrote (take n bytes)
        ∷ when (length bytes - n == 0 && w.conn.notifies && no_file_left w.conn.send_file)
            queued_write_complete;
  }
  write_directly w bytes (error e) = record {
    nwrote = 0;
    fault = is_fault e;
    done = when (is_logged e) logged_error;
  }

  -- The part of `sendInLoop` that sends the file behind the header. `sendfile` itself moves the
  -- offset that it has a pointer to, and the code adds what was sent once more.
  send_file_part : World C → SendFile → IoResult → Option (World C)
  unfolding length_holds
  send_file_part w f (count n) =
      let left = f.send_len - n in
      let f' = record f { send_len = left; offset = f.offset + n + n } in
      let sent =
        with_conn (emit w (sent_file f.in_fd f.offset n ∷ []))
          (record w.conn { send_file = some f' }) in
      let told =
        emit (with_conn sent (record sent.conn { send_file = none }))
          (queued_write_complete ∷ []) in
      let kept = if left == 0 && w.conn.notifies then told else sent in
      length_holds left kept.conn.send_file
      >> some (if ltb 0 left && not (writing kept) then enable kept else kept)
  send_file_part w f (error e) =
      let w' = emit w (when (is_logged e) logged_error) in
      some (if not (is_fault e) && ltb 0 f.send_len && not (writing w') then enable w' else w')

  file_part : World C → Option SendFile → IoResult → Option (World C)
  unfolding send_file_part
  file_part w none r = some w
  file_part w (some f) r = send_file_part w f r

  finish_send : World C → List ℕ → Written → IoResult → Option (World C)
  unfolding file_part
  finish_send w bytes d file_result =
      let remaining = length bytes - d.nwrote in
      if not d.fault && ltb 0 remaining
      then (do
        out ← append w.conn.output_buffer (take remaining (drop d.nwrote bytes))
        let w' = with_conn w (record w.conn { output_buffer = out })
        some (if writing w' then w' else enable w'))
      else file_part w w.conn.send_file file_result

  unfoldable pub send_in_loop : World C → List ℕ → IoResult → IoResult → Option (World C)
  unfolding finish_send write_directly
  send_in_loop w bytes write_result file_result =
      let d =
        if not (writing w) && readable_bytes w.conn.output_buffer == 0
        then write_directly w bytes write_result
        else nothing_written in
      if is_disconnected w.conn.state
      then some w
      else finish_send (emit w d.done) bytes d file_result

  unfoldable pub shutdown_in_loop : World C → World C
  shutdown_in_loop w = if writing w then w else emit w (shut_write w.conn.sock_fd ∷ [])

  unfoldable pub shutdown : World C → World C
  unfolding shutdown_in_loop
  shutdown w =
      if is_connected w.conn.state
      then shutdown_in_loop (with_conn w (record w.conn { state = disconnecting }))
      else w

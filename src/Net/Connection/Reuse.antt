-- ===== src/Net/Connection/Reuse.antt =====
-- net/TcpConnection.cpp with net/Epoll.cpp: a connection that is closed and used again while a
-- forced close of it is still queued.
use ssxrver.Prelude.{ℕ, ◌≡◌, refl, ap, true, ◌||◌, Option, none, some, [], ◌∷◌, ◌++◌, ◌>>=◌}
use ssxrver.Net.Events.{read_event_lt}
use ssxrver.Net.Poller.{
  Poller, Channel, Status, fresh, added, deleted, ctl_add, ctl_del, closed, remove, disable_all,
  new_channel, enable_events, channel_reset,
}
use ssxrver.Net.Buffer.{retrieve_all}
use ssxrver.Net.Connection.{
  World, connected, disconnected, disconnecting, is_connected, is_disconnecting, keep_alive,
  connection_changed,
}
use ssxrver.Net.Connection.Handlers.{
  force_close, force_close_in_loop, handle_close, connect_destroyed, connect_reset,
  connect_established,
}

-- A channel that watches nothing is removed.
remove_down :
    (p : Poller) (c : Channel)
    → (r : Poller × Channel) × (remove (disable_all p c).0 (disable_all p c).1 ≡ some r)
unfolding remove disable_all
remove_down p c = by_status c.status refl
  where
    by_status :
        (s : Status)
        → c.status ≡ s
        → (r : Poller × Channel) × (remove (disable_all p c).0 (disable_all p c).1 ≡ some r)
    by_status fresh e = rw e (_, refl)
    by_status added e = rw e (_, refl)
    by_status deleted e = rw e (_, refl)

module _ {C : Type 0} (reset : C → C) where
  -- `createConnection` with a connection from the pool, in the thread of its loop.
  unfoldable pub open_again : World C → ℕ → Option (World C)
  open_again w fd = connect_established (connect_reset reset w fd)

  -- `forceClose` queues its function. Before it is run the peer hangs up, and another connection is
  -- given the object.
  unfoldable pub reused : World C → ℕ → Option (World C)
  reused w fd = do gone ← handle_close (force_close w); open_again gone fd

  close_succeeds :
      (w : World C)
      → is_connected w.conn.state || is_disconnecting w.conn.state ≡ true
      → (w' : World C) × (handle_close w ≡ some w')
  unfolding handle_close connect_destroyed
  close_succeeds w up = let (r, e) = remove_down w.poller w.conn.channel in rw (up, e) (_, refl)

  -- The connection that a new descriptor is given, from one that was closed.
  opened : World C → ℕ → World C
  opened w fd = record w {
    poller = record {
      channels = fd ∷ w.poller.channels;
      calls = ctl_add fd read_event_lt ∷ w.poller.calls;
    };
    conn = record w.conn {
      state = connected;
      sock_fd = fd;
      channel = record (new_channel fd) {
        events = read_event_lt;
        status = added;
        added_to_loop = true;
      };
      context = reset w.conn.context;
      reading = true;
      input_buffer = retrieve_all w.conn.input_buffer;
      output_buffer = retrieve_all w.conn.output_buffer;
      send_file = none;
    };
    effects = (w.effects ++ (keep_alive fd ∷ [])) ++ (connection_changed ∷ []);
  }

  open_again_lem : (w : World C) (fd : ℕ) → open_again w fd ≡ some (opened w fd)
  unfolding open_again opened connect_established connect_reset enable_events channel_reset
      new_channel
  open_again_lem w fd = refl

  close_opened :
      (w : World C) (fd : ℕ)
      → (w' : World C) × (force_close_in_loop (opened w fd) ≡ some w')
        × (w'.conn.state ≡ disconnected)
        × (w'.poller.calls ≡ closed fd ∷ ctl_del fd ∷ ctl_add fd read_event_lt ∷ w.poller.calls)
  unfolding force_close_in_loop handle_close connect_destroyed opened disable_all remove new_channel
  close_opened w fd = (_, refl, refl, refl)

  force_close_up :
      (w : World C)
      → is_connected w.conn.state || is_disconnecting w.conn.state ≡ true
      → (force_close w).conn.state ≡ disconnecting
  unfolding force_close
  force_close_up w up = simp up refl

  -- A forced close of a connection that is up, which waits in the queue of the loop while the peer
  -- hangs up and the object is given to a new descriptor: it then closes the new connection, which
  -- was connected, and its descriptor.
  pub reused-force_close_in_loop :
      (w : World C) (fd : ℕ)
      → is_connected w.conn.state || is_disconnecting w.conn.state ≡ true
      → (w1 w2 : World C) × (reused w fd ≡ some w1)
        × ((w1.conn.state ≡ connected) × (w1.conn.sock_fd ≡ fd))
        × (force_close_in_loop w1 ≡ some w2)
        × (w2.conn.state ≡ disconnected)
        × (w2.poller.calls ≡ closed fd ∷ ctl_del fd ∷ w1.poller.calls)
  unfolding reused opened
  reused-force_close_in_loop w fd up =
      let s = force_close_up w up in
      let (gone, e) =
        close_succeeds (force_close w) (ap (λ s. is_connected s || is_disconnecting s) s) in
      let (w2, e', down, calls) = close_opened gone fd in
      (opened gone fd, w2, rw e (open_again_lem gone fd), (refl, refl), e', down, calls)

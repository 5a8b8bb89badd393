-- ===== src/Net/Server.antt =====
-- net/TcpServer.cpp and the wrapper of `accept4` in net/SocketOps.cpp: the listening socket.
--
-- `L` is the type of loops. What the kernel answers to the calls of a round of the loop over
-- `accept` is an argument. A descriptor is a number, and `none` is -1, whose `close` does nothing.
-- `aborted` is a call of `LOG_FATAL` or a failed assertion.
pub mod Descriptors
pub mod Dispatch
mod Tests
use ssxrver.Prelude.{
  ℕ, zero, suc, ◌+◌, ◌-◌, ◌*◌, ◌/◌, ◌%◌, ◌^◌, ◌≤◌, ◌<◌, min, ◌≡◌, refl, sym, ap, ◌∙◌, ◌≢◌, ◌↔◌, ◌⊎◌,
  inl, inr, Bool, true, false, not, ◌&&◌, ◌||◌, Option, none, some, List, [], ◌∷◌, ◌++◌, map,
  append-nil, append_assoc, arith, ltb, leb, ◌==◌, if◌then◌else◌, ltb→lt, lt→ltb, leb→le, ==_iff,
  tests, Bool-cases, Option-cases, length, get_elem?, set, length-append, length-set,
  get_elem?-set_self, get_elem?-set_ne, get_or, take, drop, replicate, take-append-drop,
  length-take, length-drop, length-replicate, length-map, take-append, drop-append, take_all,
  drop_all, take-append_past, drop-drop, drop-take, take-take, select, All, All-append, All-map,
  ◌>>=◌, ◌>>◌, assert, codes, same, strncmp_equal, c_str, value_from, decimal_onto, decimal,
}
use ssxrver.Log.Stream.{ℤ, pos, negsuc}
use ssxrver.Net.LoopPool
use ssxrver.Net.LoopPool.{LoopPool, get_next_loop}

-- `errno` on Linux.
abbrev pub eperm : ℕ
eperm = 1

abbrev pub eintr : ℕ
eintr = 4

abbrev pub eagain : ℕ
eagain = 11

abbrev pub emfile : ℕ
emfile = 24

abbrev pub econnaborted : ℕ
econnaborted = 103

-- What `accept4` answers: a descriptor with the text of the peer's address, or an error.
pub data Accepted : Type 0 where
  connected : ℕ → List ℕ → Accepted
  failed : ℕ → Accepted

-- The answers of one round: to the call of `socketops::accept`, and to the calls of `accept` and
-- `open` that the round makes where there are too many descriptors.
pub record Round : Type 0 where
  pub first : Accepted
  pub spare : Option ℕ
  pub reopened : Option ℕ

unfoldable pub expected_error : ℕ → Bool
expected_error e = e == econnaborted || (e == eintr || (e == eperm || e == emfile))

-- `socketops::accept`.
unfoldable pub accept : Accepted → Option Accepted
unfolding expected_error
accept (connected fd ip) = some (connected fd ip)
accept (failed e) =
    if not (e == eagain)
    then (if expected_error e then some (failed e) else none)
    else some (failed e)

module _ (L : Type 0) where
  pub record Server : Type 0 where
    pub pool : LoopPool L
    pub started : Bool
    pub listening : Bool
    pub idle_fd : Option ℕ
    -- The calls of `close` on a descriptor, newest first.
    pub closed : List ℕ
    -- The calls of `createConnection` that were queued, each with its loop, in order.
    pub created : List (L × ℕ)

-- What the configuration says: `getBlocksIp` and `getWorkerConnections`.
pub record Limits : Type 0 where
  pub blocks_ip : List (List ℕ)
  pub worker_connections : ℤ

unfoldable pub is_blocked : List (List ℕ) → List ℕ → Bool
is_blocked [] ip = false
is_blocked (b ∷ bs) ip = same b ip || is_blocked bs ip

-- `getWorkerConnections() == -1 || getWorkerConnections() >= connFd`
unfoldable pub has_room : ℤ → ℕ → Bool
has_room (pos n) fd = leb fd n
has_room (negsuc n) fd = n == 0

unfoldable pub admits : Limits → ℕ → List ℕ → Bool
unfolding is_blocked has_room
admits c fd ip = not (is_blocked c.blocks_ip ip) && has_room c.worker_connections fd

pub data Outcome (S : Type 0) : Type 0 where
  -- Left by the `break`.
  drained : S → Outcome S
  -- The answers are used up and the loop has not ended.
  unfinished : S → Outcome S
  aborted : Outcome S

abbrev pub close_on : Option ℕ → List ℕ → List ℕ
close_on none fds = fds
close_on (some fd) fds = fd ∷ fds

module _ {L : Type 0} where
  -- `newConnection`.
  unfoldable pub new_connection : Server L → ℕ → Option (Server L)
  new_connection s fd = do
    (io_loop, pool') ← get_next_loop s.pool
    some (record s { pool = pool'; created = s.created ++ ((io_loop, fd) ∷ []) })

  -- The branch of `EMFILE`: the idle descriptor makes room for the connection to be closed.
  unfoldable pub make_room : Server L → Option ℕ → Option ℕ → Server L
  make_room s spare reopened = record s {
    idle_fd = reopened;
    closed = close_on spare (close_on s.idle_fd s.closed);
  }

  -- What a round does with what `socketops::accept` returned, and whether the loop goes on.
  unfoldable pub handle : Limits → Server L → Round → Accepted → Option (Bool × Server L)
  unfolding new_connection make_room
  handle c s r (connected fd ip) =
      if admits c fd ip
      then (new_connection s fd >>= λ s'. some (true, s'))
      else some (true, record s { closed = fd ∷ s.closed })
  handle c s r (failed e) =
      if e == eagain
      then some (false, s)
      else some (true, (if e == emfile then make_room s r.spare r.reopened else s))

  unfoldable pub one_round : Limits → Server L → Round → Option (Bool × Server L)
  unfolding accept
  one_round c s r = accept r.first >>= λ a. handle c s r a

  abbrev pub go_on : Option (Bool × Server L) → (Server L → Outcome (Server L)) → Outcome (Server L)
  go_on none next = aborted
  go_on (some (true, s)) next = next s
  go_on (some (false, s)) next = drained s

  -- `acceptHandRead`.
  unfoldable pub accept_hand_read : Limits → Server L → List Round → Outcome (Server L)
  accept_hand_read c s [] = unfinished s
  accept_hand_read c s (r ∷ rs) = go_on (one_round c s r) (λ s'. accept_hand_read c s' rs)

  -- `TcpServer`, after the calls of the system that it makes.
  unfoldable pub new_server : L → ℕ → Option ℕ → Server L
  new_server base threads idle = record {
    pool = LoopPool.new_pool base threads;
    started = false;
    listening = false;
    idle_fd = idle;
    closed = [];
    created = [];
  }

  -- `start` on the loop's thread, with the loops of the threads that the pool makes, and
  -- `acceptSocketListen`, which it runs.
  unfoldable pub start : Server L → (ℕ → L) → Option (Server L)
  start s make =
      if not s.started
      then (LoopPool.start s.pool make >>= λ pool'.
          some (record s { started = true; pool = pool'; listening = true }))
      else some s

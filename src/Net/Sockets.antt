-- ===== src/Net/Sockets.antt =====
-- net/SocketOps.h and net/SocketOps.cpp, but for `accept`, and the constructors of the servers of
-- net/TcpServer.cpp and net/UdpServer.cpp.
--
-- What the kernel answers is an argument. `calls` is what was asked of it, and of the log, in order;
-- `value` is `none` where the process ended. An address is a number, and 0 is the address of zeros.
use ssxrver.Prelude.{
  ℕ, ◌≡◌, refl, Bool, true, false, not, ◌&&◌, ◌||◌, Option, none, some, List, [], ◌∷◌, ◌++◌,
  if◌then◌else◌,
}

pub data SocketKind : Type 0 where
  stream datagram : SocketKind

pub data SocketOption : Type 0 where
  keep_alive tcp_no_delay reuse_addr reuse_port : SocketOption

pub data Call : Type 0 where
  socket : SocketKind → Call
  bind : ℕ → ℕ → Call
  listen shut_write close : ℕ → Call
  set_option : ℕ → SocketOption → ℕ → Call
  open_null : Call
  get_peer_name get_sock_name : ℕ → Call
  logged_error logged_fatal : Call
  -- The channel of the descriptor is watched for reading.
  watch : ℕ → Call

pub record Outcome (A : Type 0) : Type 0 where
  pub calls : List Call
  pub value : Option A

abbrev pub done : {A : Type 0} → List Call → A → Outcome A
done calls a = record { calls = calls; value = some a }

abbrev pub died : {A : Type 0} → List Call → Outcome A
died calls = record { calls = calls; value = none }

abbrev pub continue : {A B : Type 0} → List Call → Option A → (A → Outcome B) → Outcome B
continue calls none next = died calls
continue calls (some a) next = record { calls = calls ++ (next a).calls; value = (next a).value }

infixl 5 ◌then_do◌
abbrev pub ◌then_do◌ : {A B : Type 0} → Outcome A → (A → Outcome B) → Outcome B
o then_do next = continue o.calls o.value next

-- `createStreamNonblockingOrDie` and `createDgramNonblockingOrDie`.
unfoldable pub create_nonblocking_or_die : SocketKind → Option ℕ → Outcome ℕ
create_nonblocking_or_die kind (some fd) = done (socket kind ∷ []) fd
create_nonblocking_or_die kind none = died (socket kind ∷ logged_fatal ∷ [])

unfoldable pub bind_or_die : ℕ → ℕ → Bool → Outcome (Unit {0})
bind_or_die fd addr true = done (bind fd addr ∷ []) tt
bind_or_die fd addr false = died (bind fd addr ∷ logged_fatal ∷ [])

unfoldable pub listen_or_die : ℕ → Bool → Outcome (Unit {0})
listen_or_die fd true = done (listen fd ∷ []) tt
listen_or_die fd false = died (listen fd ∷ logged_fatal ∷ [])

abbrev pub flag : Bool → ℕ
flag on = if on then 1 else 0

-- `setKeepAlive`, `setTcpNoDelay` and `setReuseAddr`, which drop the answer.
unfoldable pub set_flag : ℕ → SocketOption → Bool → Outcome (Unit {0})
set_flag fd option on = done (set_option fd option (flag on) ∷ []) tt

unfoldable pub set_reuse_port : ℕ → Bool → Bool → Outcome (Unit {0})
set_reuse_port fd on ok =
    done (set_option fd reuse_port (flag on) ∷ (if not ok && on then logged_error ∷ [] else [])) tt

unfoldable pub close_socket : ℕ → Bool → Outcome (Unit {0})
close_socket fd ok = done (close fd ∷ (if ok then [] else logged_error ∷ [])) tt

unfoldable pub shutdown_write : ℕ → Bool → Outcome (Unit {0})
shutdown_write fd ok = done (shut_write fd ∷ (if ok then [] else logged_error ∷ [])) tt

-- What a call answers: a value, or `errno`.
pub data Answer : Type 0 where
  gives fails : ℕ → Answer

unfoldable pub get_socket_error : Answer → ℕ
get_socket_error (gives optval) = optval
get_socket_error (fails errno) = errno

unfoldable pub get_peer_addr : ℕ → Answer → Outcome ℕ
get_peer_addr fd (gives addr) = done (get_peer_name fd ∷ []) addr
get_peer_addr fd (fails errno) = done (get_peer_name fd ∷ logged_error ∷ []) 0

unfoldable pub get_local_addr : ℕ → Answer → Outcome ℕ
get_local_addr fd (gives addr) = done (get_sock_name fd ∷ []) addr
get_local_addr fd (fails errno) = done (get_sock_name fd ∷ logged_error ∷ []) 0

-- What the kernel answers while a server is set up.
pub record Answers : Type 0 where
  pub socket : Option ℕ
  pub null : Option ℕ
  pub reuse_port : Bool
  pub bind : Bool
  pub listen : Bool

-- `acceptFd_` and `idleFd_`.
pub record Descriptors : Type 0 where
  pub accept_fd : ℕ
  pub idle_fd : Option ℕ

-- The options and the address of a new socket.
unfoldable pub prepare : ℕ → ℕ → Answers → Outcome (Unit {0})
prepare fd addr a =
    set_flag fd reuse_addr true
    then_do (λ u. set_reuse_port fd true a.reuse_port)
    then_do (λ u. bind_or_die fd addr a.bind)

-- `TcpServer::TcpServer`.
unfoldable pub new_tcp_server : ℕ → Answers → Outcome Descriptors
new_tcp_server addr a = create_nonblocking_or_die stream a.socket then_do (λ fd.
    done (open_null ∷ []) (record { accept_fd = fd; idle_fd = a.null })
    then_do (λ s. prepare fd addr a then_do (λ u. done [] s)))

-- `acceptSocketListen`.
unfoldable pub accept_socket_listen : Answers → Descriptors → Outcome Descriptors
accept_socket_listen a s =
    listen_or_die s.accept_fd a.listen then_do (λ u. done (watch s.accept_fd ∷ []) s)

-- `UdpServer::UdpServer`.
unfoldable pub new_udp_server : ℕ → Answers → Outcome ℕ
new_udp_server addr a =
    create_nonblocking_or_die datagram a.socket
    then_do (λ fd. prepare fd addr a then_do (λ u. done [] fd))

-- The whole set-up of a TCP server, up to its listening.
unfoldable pub open_tcp : ℕ → Answers → Outcome Descriptors
open_tcp addr a = new_tcp_server addr a then_do accept_socket_listen a

abbrev pub is_watch : Call → Bool
is_watch (watch _) = true
is_watch (socket _) = false
is_watch (bind _ _) = false
is_watch (listen _) = false
is_watch (shut_write _) = false
is_watch (close _) = false
is_watch (set_option _ _ _) = false
is_watch open_null = false
is_watch (get_peer_name _) = false
is_watch (get_sock_name _) = false
is_watch logged_error = false
is_watch logged_fatal = false

abbrev pub has_watch : List Call → Bool
has_watch [] = false
has_watch (call ∷ calls) = is_watch call || has_watch calls

abbrev pub has_value : {A : Type 0} → Option A → Bool
has_value none = false
has_value (some _) = true

abbrev pub answers : Option ℕ → Option ℕ → Bool → Bool → Bool → Answers
answers s n r b l = record { socket = s; null = n; reuse_port = r; bind = b; listen = l }

-- The accept channel is watched exactly where the set-up survives, so no connection is accepted
-- on a socket that was not bound or does not listen.
pub open_tcp-has_watch :
    (addr : ℕ) (s n : Option ℕ) (r b l : Bool)
    → has_watch (open_tcp addr (answers s n r b l)).calls
      ≡ has_value (open_tcp addr (answers s n r b l)).value
unfolding open_tcp new_tcp_server accept_socket_listen create_nonblocking_or_die prepare set_flag
    set_reuse_port bind_or_die listen_or_die
open_tcp-has_watch addr none n r b l = refl
open_tcp-has_watch addr (some fd) n true true true = refl
open_tcp-has_watch addr (some fd) n true true false = refl
open_tcp-has_watch addr (some fd) n true false l = refl
open_tcp-has_watch addr (some fd) n false true true = refl
open_tcp-has_watch addr (some fd) n false true false = refl
open_tcp-has_watch addr (some fd) n false false l = refl

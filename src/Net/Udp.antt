-- ===== src/Net/Udp.antt =====
-- net/UdpServer.cpp: the datagrams that are read and answered.
--
-- A peer is a number. What the socket has at each call, the kernel's `recvfrom` and the callback,
-- which is given the buffer for the answer and the one that was read into, are arguments.
mod Tests
use mathlib.Core.Path.{subst}
use ssxrver.Prelude.{
  ℕ, zero, suc, ◌+◌, ◌-◌, ◌*◌, ◌/◌, ◌%◌, ◌^◌, ◌≤◌, ◌<◌, min, ◌≡◌, refl, sym, ap, ◌∙◌, ◌≢◌, ◌↔◌, ◌⊎◌,
  inl, inr, Bool, true, false, not, ◌&&◌, ◌||◌, Option, none, some, List, [], ◌∷◌, ◌++◌, map,
  append-nil, append_assoc, arith, ltb, leb, ◌==◌, if◌then◌else◌, ltb→lt, lt→ltb, leb→le, ==_iff,
  tests, Bool-cases, Option-cases, length, get_elem?, set, length-append, length-set,
  get_elem?-set_self, get_elem?-set_ne, get_or, take, drop, replicate, take-append-drop,
  length-take, length-drop, length-replicate, length-map, take-append, drop-append, take_all,
  drop_all, take-append_past, drop-drop, drop-take, take-take, select, All, All-append, All-map,
  ◌>>=◌, ◌>>◌, assert, codes, same, strncmp_equal, c_str, value_from, decimal_onto, decimal,
}
use ssxrver.Net.Buffer.{Buffer, new, contents, copy_at}
use ssxrver.Net.Server.{Outcome, drained, unfinished, aborted, eagain}

pub data Received : Type 0 where
  datagram : ℕ → List ℕ → Received
  failed : ℕ → Received

-- `kUdpPacketSize`.
abbrev pub udp_packet_size : ℕ
udp_packet_size = 65535

-- `recvfrom` at `beginWrite()`: no index of the buffer moves.
unfoldable pub read_into : Buffer → List ℕ → Buffer
read_into b bs = record b { bytes = copy_at b.bytes b.writer_index bs }

-- The kernel's `recvfrom`: what it answers for the pointer to the length of the address, where the
-- socket has a datagram or an error.
abbrev pub Kernel : Type 0
Kernel = ℕ → Received → Received

abbrev sizeof_sockaddr_in : ℕ
sizeof_sockaddr_in = 16

-- `socketops::recvfrom`, which casts the size of an address to the pointer.
unfoldable pub recv_from : Kernel → Received → Received
recv_from kernel r = kernel sizeof_sockaddr_in r

unfoldable pub received_one :
    List (ℕ × Buffer)
    → Received
    → (List (ℕ × Buffer) → Outcome (List (ℕ × Buffer)))
    → Outcome (List (ℕ × Buffer))
unfolding read_into
received_one queued (datagram peer bs) next =
    next (queued ++ ((peer, read_into (new udp_packet_size) bs) ∷ []))
received_one queued (failed e) next =
    let more = next queued in if e == eagain then drained queued else more

-- `udpHandRead`: the calls of `udpSend` that it queues.
unfoldable pub udp_hand_read :
    Kernel → List (ℕ × Buffer) → List Received → Outcome (List (ℕ × Buffer))
unfolding received_one recv_from
udp_hand_read kernel queued [] = unfinished queued
udp_hand_read kernel queued (r ∷ rs) =
    received_one queued (recv_from kernel r) (λ q. udp_hand_read kernel q rs)

-- `udpSend`: what `sendto` is given.
unfoldable pub udp_send : (Buffer → Buffer → Option Buffer) → ℕ → Buffer → Option (ℕ × List ℕ)
udp_send message_callback peer recv_buf = do
  send_buf ← message_callback (new udp_packet_size) recv_buf
  some (peer, contents send_buf)

pub record UdpServer : Type 0 where
  pub started : Bool
  -- The channel waits for input.
  pub reading : Bool

-- `udpSocketListen`, given whether `listen` succeeds. A refusal is fatal.
unfoldable pub udp_socket_listen : Bool → UdpServer → Option UdpServer
udp_socket_listen listens s = if listens then some (record s { reading = true }) else none

-- `start` on the loop's thread, which runs `udpSocketListen` at once.
unfoldable pub start : Bool → UdpServer → Option UdpServer
unfolding udp_socket_listen
start listens s =
    if not s.started then udp_socket_listen listens (record s { started = true }) else some s

-- The socket has nothing more at last.
abbrev pub ends : List Received → Bool
ends [] = false
ends (datagram peer bs ∷ rs) = ends rs
ends (failed e ∷ rs) = let more = ends rs in if e == eagain then true else more

abbrev pub efault : ℕ
efault = 14

-- What the manual says of `recvfrom`: a length pointer that is not mapped makes it fail with EFAULT
-- for a datagram, and else it gives what the socket has; and the first page is not mapped.
pub record IsKernel (kernel : Kernel) : Type 0 where
  pub mapped : ℕ → Bool
  pub first_page : (at : ℕ) → at < 4096 → mapped at ≡ false
  pub faults :
      (at peer : ℕ) (bs : List ℕ) → mapped at ≡ false → kernel at (datagram peer bs) ≡ failed efault
  pub gives : (at : ℕ) (r : Received) → mapped at ≡ true → kernel at r ≡ r
  pub errors : (at e : ℕ) → kernel at (failed e) ≡ failed e

-- A buffer whose indices meet holds nothing, whatever is read into it.
read_into-new : (size : ℕ) (bs : List ℕ) → contents (read_into (new size) bs) ≡ []
unfolding read_into new
read_into-new size bs = refl

-- Whatever the kernel answers, the buffer that a callback will be given to read holds no bytes.
hand_read_empty :
    (kernel : Kernel) (qs out : List (ℕ × Buffer)) (rs : List Received)
    → All (λ q. contents q.1 ≡ []) qs
    → udp_hand_read kernel qs rs ≡ drained out
    → All (λ q. contents q.1 ≡ []) out
unfolding udp_hand_read
hand_read_empty kernel qs out [] a e = absurd (ground (arith, e))
hand_read_empty kernel qs out (r ∷ rs) a e =
    by_answer (recv_from kernel r) (λ q b run. hand_read_empty kernel q out rs b run) e
  where
    by_answer :
        (answer : Received)
        → ((q : List (ℕ × Buffer))
            → All (λ q. contents q.1 ≡ []) q
            → udp_hand_read kernel q rs ≡ drained out
            → All (λ q. contents q.1 ≡ []) out)
        → received_one qs answer (λ q. udp_hand_read kernel q rs) ≡ drained out
        → All (λ q. contents q.1 ≡ []) out
    by_answer (datagram peer bs) ih run =
        ih _ (All-append _ qs _ a (read_into-new udp_packet_size bs, tt))
          (unfold received_one in run)
    by_answer (failed x) ih run = elim (Bool-cases (x == eagain)) [
      | inl end ↦
          let stop : drained qs ≡ drained out = unfold received_one in (simp end at run) in
          subst (All (λ q. contents q.1 ≡ [])) {x = qs} (cc stop) a
      | inr on ↦ ih qs a (unfold received_one in (simp on at run))
    ]

-- Where the kernel does what its manual says and the socket has nothing more at last, a call of
-- `udpHandRead` ends and has queued no answer, however many datagrams came: `recvfrom` refuses each.
pub udp_hand_read_lem :
    (kernel : Kernel) (rs : List Received)
    → IsKernel kernel
    → ends rs ≡ true
    → udp_hand_read kernel [] rs ≡ drained []
unfolding udp_hand_read received_one recv_from
udp_hand_read_lem kernel [] laws h = absurd (ground (arith, h))
udp_hand_read_lem kernel (datagram peer bs ∷ rs) laws h =
    let fault : kernel sizeof_sockaddr_in (datagram peer bs) ≡ failed efault =
      laws.faults sizeof_sockaddr_in peer bs (laws.first_page sizeof_sockaddr_in (omega arith)) in
    rw fault (udp_hand_read_lem kernel rs laws h)
udp_hand_read_lem kernel (failed e ∷ rs) laws h = elim (Bool-cases (e == eagain)) [
  | inl end ↦ rw (laws.errors sizeof_sockaddr_in e, end) refl
  | inr on ↦
      rw (laws.errors sizeof_sockaddr_in e, on) (udp_hand_read_lem kernel rs laws (simp on at h))
]

-- ===== src/Net/Registry.antt =====
-- net/Epoll.cpp and net/Epoll.h: the connections of a loop, the pool of those that were closed, and
-- the array of events.
--
-- A connection is a number, in the order in which they are made; `none` is a null pointer.
-- `socket` is each connection's descriptor. The calls on the channels are in the module `Poller`.
pub mod Filed
mod Tests
use ssxrver.Prelude.{
  ℕ, zero, suc, ◌+◌, ◌-◌, ◌*◌, ◌/◌, ◌%◌, ◌^◌, ◌≤◌, ◌<◌, min, ◌≡◌, refl, sym, ap, ◌∙◌, ◌≢◌, ◌↔◌, ◌⊎◌,
  inl, inr, Bool, true, false, not, ◌&&◌, ◌||◌, Option, none, some, List, [], ◌∷◌, ◌++◌, map,
  append-nil, append_assoc, arith, ltb, leb, ◌==◌, if◌then◌else◌, ltb→lt, lt→ltb, leb→le, ==_iff,
  tests, Bool-cases, Option-cases, length, get_elem?, set, length-append, length-set,
  get_elem?-set_self, get_elem?-set_ne, get_or, take, drop, replicate, take-append-drop,
  length-take, length-drop, length-replicate, length-map, take-append, drop-append, take_all,
  drop_all, take-append_past, drop-drop, drop-take, take-take, select, All, All-append, All-map,
  ◌>>=◌, ◌>>◌, assert, codes, same, strncmp_equal, c_str, value_from, decimal_onto, decimal,
}

pub record Registry : Type 0 where
  pub connections : ℕ → Option ℕ
  -- `connectionsPool`, the back first.
  pub pool : List (Option ℕ)
  pub made : ℕ
  pub socket : ℕ → ℕ

unfoldable pub new_registry : Registry
new_registry = record { connections = λ fd. none; pool = []; made = 0; socket = λ c. 0 }

abbrev pub write {ℓ} : {A : Type ℓ} → (ℕ → A) → ℕ → A → ℕ → A
write f i a j = if j == i then a else f j

-- `connectReset` and the move of the pointer; the reset is through it.
reuse : Registry → ℕ → Option ℕ → List (Option ℕ) → Option Registry
reuse r sock_fd none rest = none
reuse r sock_fd (some c) rest = some (record r {
  connections = write r.connections sock_fd (some c);
  pool = rest;
  socket = write r.socket c sock_fd;
})

-- The branches of `createConnection`, before `connectEstablished`.
taken_from : Registry → ℕ → List (Option ℕ) → Option Registry
taken_from r sock_fd (back ∷ rest) = reuse r sock_fd back rest
taken_from r sock_fd [] = some (record r {
  connections = write r.connections sock_fd (some r.made);
  made = r.made + 1;
  socket = write r.socket r.made sock_fd;
})

unfoldable pub create_connection : Registry → ℕ → Option Registry
unfolding taken_from reuse
create_connection r sock_fd = taken_from r sock_fd r.pool

-- What `removeChannel` does with the connection of its descriptor.
unfoldable pub remove_channel : Registry → ℕ → Registry
remove_channel r fd = record r {
  connections = write r.connections fd none;
  pool = r.connections fd ∷ r.pool;
}

-- `kInitEventSize`.
abbrev pub init_event_size : ℕ
init_event_size = 16

-- What `epoll_wait` answers: channels with their events, at most as many as it was given room for,
-- or an error.
pub data Waited : Type 0 where
  happened : List (ℕ × ℕ) → Waited
  failed : ℕ → Waited

-- `poll` and `fillActiveChannels`: the active channels with their new events, and the size of the
-- array afterwards.
unfoldable pub poll : ℕ → Waited → List (ℕ × ℕ) × ℕ
poll size (failed e) = ([], size)
poll size (happened events) =
    if ltb 0 (length events)
    then (events, (if length events == size then size * 2 else size))
    else ([], size)

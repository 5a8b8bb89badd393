-- ===== src/Net/Server/Tests.antt =====
-- The listening socket at inputs.
use ssxrver.Prelude.{ℕ, ◌≡◌, refl, true, some, List, [], ◌∷◌, codes}
use ssxrver.Log.Stream.{pos}
use ssxrver.Net.LoopPool.{LoopPool, get_next_loop}
use ssxrver.Net.Server.{
  Accepted, connected, failed, Round, accept, Server, Limits, admits, drained, aborted,
  new_connection, make_room, handle, one_round, accept_hand_read, expected_error, is_blocked,
  has_room,
}

abbrev limits : Limits
limits = record { blocks_ip = codes "9.9.9.9" ∷ []; worker_connections = pos 20 }

abbrev pool : LoopPool ℕ
pool = record { base_loop = 100; started = true; num_threads = 2; next = 1; loops = 201 ∷ 202 ∷ [] }

abbrev server : Server ℕ
server = record {
  pool = pool;
  started = true;
  listening = true;
  idle_fd = some 4;
  closed = [];
  created = [];
}

abbrev round : Accepted → Round
round a = record { first = a; spare = some 15; reopened = some 16 }

-- Two connections, one from a blocked address, one above the limit, too many descriptors, the end.
abbrev rounds : List Round
rounds =
    round (connected 10 (codes "1.2.3.4"))
    ∷ round (connected 11 (codes "9.9.9.9"))
    ∷ round (failed 4)
    ∷ round (connected 12 (codes "1.2.3.4"))
    ∷ round (connected 21 (codes "1.2.3.4"))
    ∷ round (failed 24)
    ∷ round (failed 11)
    ∷ []

accept_hand_read_test :
    accept_hand_read limits server rounds
    ≡ drained (record server {
      pool = record pool { next = 1 };
      idle_fd = some 16;
      closed = 15 ∷ 4 ∷ 21 ∷ 11 ∷ [];
      created = (202, 10) ∷ (201, 12) ∷ [];
    })
unfolding accept_hand_read one_round handle new_connection make_room get_next_loop admits is_blocked
    has_room accept expected_error
accept_hand_read_test = refl

accept_fatal_test : accept_hand_read limits server (round (failed 9) ∷ []) ≡ aborted
unfolding accept_hand_read one_round handle new_connection make_room get_next_loop admits is_blocked
    has_room accept expected_error
accept_fatal_test = refl

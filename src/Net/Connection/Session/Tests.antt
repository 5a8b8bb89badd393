-- ===== src/Net/Connection/Session/Tests.antt =====
-- A run on a small connection: a send of which one byte goes out, a shutdown, a send that is
-- ignored, and the rest.
use ssxrver.Prelude.{
  ℕ, ◌+◌, min, ◌≡◌, refl, ◌⊎◌, true, false, none, some, List, [], ◌∷◌, ◌++◌, arith, length,
  replicate, codes,
}
use ssxrver.Net.Events.{read_event_lt, none_event}
use ssxrver.Net.Buffer.{Buffer}
use ssxrver.Net.Poller.{ctl_add, added}
use ssxrver.Net.Connection.{World, connected, count}
use ssxrver.Net.Connection.Stream.{stream, on_wire}
use ssxrver.Net.Connection.Session.{
  Action, sends, writable, shuts_down, has_shut, accepted, run, IsOpen,
}
use ssxrver.Net.Connection.Session.Graceful.{run_lem}

abbrev no_bytes : Buffer
no_bytes = record { bytes = replicate 16 0; reader_index = 8; writer_index = 8 }

abbrev buffer_of : List ℕ → Buffer
buffer_of text = record {
  bytes = replicate 8 0 ++ text;
  reader_index = 8;
  writer_index = 8 + length text;
}

abbrev fresh_world : World (Unit {0})
fresh_world = record {
  poller = record { channels = 7 ∷ []; calls = ctl_add 7 read_event_lt ∷ [] };
  conn = record {
    state = connected;
    sock_fd = 7;
    channel = record {
      fd = 7;
      events = read_event_lt;
      revents = none_event;
      status = added;
      event_handling = false;
      added_to_loop = true;
    };
    input_buffer = no_bytes;
    output_buffer = no_bytes;
    send_file = none;
    context = tt;
    reading = true;
    notifies = false;
  };
  effects = [];
}

fresh_world-IsOpen : IsOpen fresh_world
unfolding has_shut
fresh_world-IsOpen = record {
  valid = record { ordered = omega arith; inside = omega arith; roomy = omega arith };
  up = refl;
  quiet = refl;
  no_file = refl;
  watched = λ h. absurd (omega (arith, h));
  graceful = λ e. absurd (ground (arith, e));
}

abbrev actions : List Action
actions =
    sends (buffer_of (codes "abc")) (count 1) (count 0)
    ∷ shuts_down
    ∷ sends (buffer_of (codes "no")) (count 2) (count 0)
    ∷ writable (λ n. count (min n 5)) (count 0)
    ∷ []

run_lem_example :
    (w' : World (Unit {0})) × (run fresh_world actions ≡ some w')
    × IsOpen w'
    × (stream w' ≡ stream fresh_world ++ accepted connected actions)
    × ((has_shut w'.effects ≡ false)
        ⊎ (on_wire w'.effects ≡ stream fresh_world ++ accepted connected actions))
run_lem_example =
    run_lem fresh_world actions fresh_world-IsOpen
      (omega arith, (tt, (omega arith, ((λ n. omega arith), tt))))

accepted_test : accepted connected actions ≡ codes "abc"
unfolding accepted
accepted_test = refl

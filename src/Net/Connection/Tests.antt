-- ===== src/Net/Connection/Tests.antt =====
-- The theorems on connections, at one with small buffers.
use ssxrver.Prelude.{
  min, ◌≡◌, refl, Bool, true, false, Option, none, some, [], ◌∷◌, ◌++◌, arith, if◌then◌else◌,
  replicate, codes,
}
use ssxrver.Net.Events.{read_event_lt, write_event, none_event, join}
use ssxrver.Net.Buffer.{Buffer, contents}
use ssxrver.Net.Buffer.Views.{IsValid}
use ssxrver.Net.Poller.{Channel, ctl_add, ctl_del, closed, added}
use ssxrver.Net.Poller.Interest.{interest, InOrder, Synced}
use ssxrver.Net.Connection.{World, connected, disconnected, SendFile, count, send_in_loop, recycled}
use ssxrver.Net.Connection.Handlers.{handle_write, handle_close, force_close_in_loop}
use ssxrver.Net.Connection.File.{Writable, IsSending, spans, write_all, write_all-IsSending}
use ssxrver.Net.Connection.Reuse.{reused, reused-force_close_in_loop}
use ssxrver.Net.Connection.Life.{handle_close_lem}

abbrev no_bytes : Buffer
no_bytes = record { bytes = replicate 16 0; reader_index = 8; writer_index = 8 }

abbrev two_bytes : Buffer
two_bytes = record {
  bytes = replicate 8 0 ++ (codes "hi" ++ replicate 6 0);
  reader_index = 8;
  writer_index = 10;
}

no_bytes-IsValid : IsValid no_bytes
no_bytes-IsValid = record { ordered = omega arith; inside = omega arith; roomy = omega arith }

two_bytes-IsValid : IsValid two_bytes
two_bytes-IsValid = record { ordered = omega arith; inside = omega arith; roomy = omega arith }

abbrev channel_of : Bool → Channel
channel_of on = record {
  fd = 7;
  events = if on then join read_event_lt write_event else read_event_lt;
  revents = none_event;
  status = added;
  event_handling = false;
  added_to_loop = true;
}

-- Connected, with `out` to send, watched for writing or not.
abbrev world_of : Bool → Buffer → Option SendFile → Bool → World (Unit {0})
world_of on out file notifies = record {
  poller = record {
    channels = 7 ∷ [];
    calls = ctl_add 7 (if on then join read_event_lt write_event else read_event_lt) ∷ [];
  };
  conn = record {
    state = connected;
    sock_fd = 7;
    channel = channel_of on;
    input_buffer = no_bytes;
    output_buffer = out;
    send_file = file;
    context = tt;
    reading = true;
    notifies = notifies;
  };
  effects = [];
}

abbrev quiet : World (Unit {0})
quiet = world_of false no_bytes none false

abbrev busy : World (Unit {0})
busy = world_of true two_bytes none true

abbrev or_quiet : Option (World (Unit {0})) → World (Unit {0})
or_quiet none = quiet
or_quiet (some w) = w

-- One byte of three is written at once, and the others wait.
abbrev sent : World (Unit {0})
sent = or_quiet (send_in_loop quiet (codes "abc") (count 1) (count 0))

sent_lem : send_in_loop quiet (codes "abc") (count 1) (count 0) ≡ some sent
unfolding send_in_loop ssxrver.Net.Buffer.append ssxrver.Net.Buffer.ensure_writable_bytes
    ssxrver.Net.Buffer.has_written
sent_lem = refl

abbrev drained : World (Unit {0})
drained = or_quiet (handle_write busy (count 1) (count 0))

drained_lem : handle_write busy (count 1) (count 0) ≡ some drained
unfolding handle_write ssxrver.Net.Buffer.retrieve
drained_lem = refl

quiet-Synced : Synced quiet.poller quiet.conn.channel
unfolding interest
quiet-Synced = record { in_order = (refl, tt); agrees = refl }

handle_close_lem_example :
    (w' : World (Unit {0})) × (handle_close quiet ≡ some w')
    × (w'.conn.state ≡ disconnected)
    × InOrder w'.poller.calls
    × (interest w'.poller.calls 7 ≡ none)
    × (w'.effects ≡ [] ++ (recycled ∷ []))
handle_close_lem_example = handle_close_lem quiet refl quiet-Synced refl

abbrev page : SendFile
page = record { in_fd = 9; offset = 0; send_len = 5 }

reused-force_close_in_loop_example :
    (w1 w2 : World (Unit {0})) × (reused (λ c. c) quiet 9 ≡ some w1)
    × ((w1.conn.state ≡ connected) × (w1.conn.sock_fd ≡ 9))
    × (force_close_in_loop w1 ≡ some w2)
    × (w2.conn.state ≡ disconnected)
    × (w2.poller.calls ≡ closed 9 ∷ ctl_del 9 ∷ w1.poller.calls)
reused-force_close_in_loop_example = reused-force_close_in_loop (λ c. c) quiet 9 refl

-- Three bytes of the file, and then the other two.
abbrev three_at_most : Writable
three_at_most = record { write = λ n. count n; send = λ n. count (min n 3) }

half_sent-IsSending : IsSending page (world_of true no_bytes (some page) true)
unfolding spans
half_sent-IsSending = record { at = 0; sent = refl; left = (refl, refl, refl) }

write_all-IsSending_example :
    (w' : World (Unit {0})) × (write_all
        (world_of true no_bytes (some page) true)
        (three_at_most ∷ three_at_most ∷ [])
      ≡ some w')
    × IsSending page w'
write_all-IsSending_example =
    write_all-IsSending page (world_of true no_bytes (some page) true)
      (three_at_most ∷ three_at_most ∷ []) no_bytes-IsValid half_sent-IsSending
      (((λ n. omega arith), (λ n. omega arith)), (((λ n. omega arith), (λ n. omega arith)), tt))

-- ===== src/Http/Server/Tests.antt =====
-- A body of two bytes that comes in two reads, with the first byte of what follows.
use ssxrver.Prelude.{
  min, ◌++◌, ℕ, ◌≡◌, refl, Bool, true, false, Option, none, some, List, [], ◌∷◌, ◌++◌, arith,
  if◌then◌else◌, length, replicate, codes, value_from,
}
use ssxrver.Net.Buffer.{Buffer, contents}
use ssxrver.Net.Buffer.Views.{IsValid}
use ssxrver.Net.Poller.{new_channel}
use ssxrver.Net.Connection.{World, connected, count}
use ssxrver.Http.Request.{Request, empty_request}
use ssxrver.Http.Parser.{Engine, RequestParser, unfinished, finished, request_method}
use ssxrver.Http.Server.{
  on_request, on_message, with_parser, with_input, Answers, default_http_callback,
}
use ssxrver.Http.Server.Single.{on_message_single}
use ssxrver.Http.Server.Conversation.{Exchange, IsExchange, IsIdle, replies, receive_all-replies}
use ssxrver.Http.Response.{Response, set_status_message, status_start}
use ssxrver.Http.Parser.{http_field, call_all, call_back, new_parser}
use ssxrver.Http.Request.{set_header}
use ssxrver.Net.Connection.Stream.{stream}
use ssxrver.Http.Server.Messages.{Read, receive_all, IsCollecting, collected, receive_all_lem}

-- An automaton that takes all bytes.
abbrev greedy : Engine Bool
greedy = record {
  start = false;
  execute = λ p bytes. (true, length bytes, request_method bytes ∷ []);
  finish = λ p. if p then finished else unfinished;
}

abbrev number : List ℕ → Option ℕ
number text = some (value_from 0 text)

abbrev posting : World (RequestParser Bool)
posting = record {
  poller = record { channels = []; calls = [] };
  conn = record {
    state = connected;
    sock_fd = 7;
    channel = new_channel 7;
    input_buffer = record { bytes = replicate 8 0; reader_index = 8; writer_index = 8 };
    output_buffer = record { bytes = replicate 8 0; reader_index = 8; writer_index = 8 };
    send_file = none;
    context = record {
      parser = true;
      request = record empty_request { headers = (codes "Content-Length", codes "2") ∷ [] };
      error = 0;
    };
    reading = true;
    notifies = false;
  };
  effects = [];
}

posting-IsCollecting : IsCollecting greedy default_http_callback number 2 posting
unfolding ssxrver.Http.Parser.get_content_length ssxrver.Http.Request.get_header
    ssxrver.Http.Request.find
posting-IsCollecting = record {
  over = refl;
  clean = refl;
  asks = refl;
  valid = record { ordered = omega arith; inside = omega arith; roomy = omega arith };
  drained = refl;
}

abbrev answers : Answers
answers = record { bad_write = count 0; bad_file = count 0; write = count 10; file = count 0 }

abbrev first : List Read
first = record { bytes = codes "a"; answers = answers } ∷ []

abbrev second : Read
second = record { bytes = codes "bG"; answers = answers }

-- The connection with the whole body.
abbrev whole : Buffer → World (RequestParser Bool)
whole b = collected greedy default_http_callback number posting (codes "ab") b 2

abbrev or_posting : Option (World (RequestParser Bool)) → World (RequestParser Bool)
or_posting none = posting
or_posting (some w) = w

abbrev answered : Buffer → World (RequestParser Bool)
answered b =
    or_posting
      (on_request greedy default_http_callback (whole b) (whole b).conn.context.request answers)

answer :
    (b : Buffer)
    → (a : World (RequestParser Bool)) × (on_request greedy default_http_callback
          (whole b)
          (whole b).conn.context.request
          answers
        ≡ some a)
unfolding on_request ssxrver.Http.Response.append_to_buffer ssxrver.Http.Request.add_body
    default_http_callback ssxrver.Net.Buffer.append ssxrver.Net.Buffer.ensure_writable_bytes
    ssxrver.Net.Buffer.new ssxrver.Http.Response.set_close_connection
    ssxrver.Http.Response.set_status_message ssxrver.Http.Response.set_status_code
    ssxrver.Net.Buffer.has_written ssxrver.Http.Response.set_close
    ssxrver.Net.Connection.Handlers.send_buffer ssxrver.Http.Response.get_file
    ssxrver.Net.Connection.send_in_loop new_channel ssxrver.Net.Buffer.make_space collected
answer b = (answered b, refl)

receive_all_lem_example :
    (b : Buffer) × (w' : World (RequestParser Bool)) × (receive_all greedy default_http_callback
        number posting
        (first ++ (second ∷ []))
      ≡ some w')
    × (length (whole b).conn.context.request.body ≡ 2)
    × (w'.effects ≡ (answer b).0.effects)
    × (contents w'.conn.input_buffer ≡ codes "G")
receive_all_lem_example =
    receive_all_lem greedy default_http_callback number posting first second 2 posting-IsCollecting
      (omega arith) (omega arith, tt) (omega arith) (omega arith) answer

-- An automaton for heads of two bytes.
abbrev pairs : Engine Bool
pairs = record {
  start = false;
  execute = λ p bytes. (true, min 2 (length bytes), []);
  finish = λ p. if p then finished else unfinished;
}

-- Two heads are in the buffer.
abbrev two_heads : World (RequestParser Bool)
two_heads = record posting {
  conn = record posting.conn {
    input_buffer = record {
      bytes = replicate 8 0 ++ codes "abcd";
      reader_index = 8;
      writer_index = 12;
    };
    context = record { parser = false; request = empty_request; error = 0 };
  };
}

abbrev one_parsed : RequestParser Bool
one_parsed = record { parser = true; request = empty_request; error = 0 }

abbrev parsed : Buffer → World (RequestParser Bool)
parsed b =
    with_input pairs default_http_callback
      (with_parser pairs default_http_callback two_heads one_parsed) b

single_answer :
    (b : Buffer)
    → (a : World (RequestParser Bool)) × (on_request pairs default_http_callback
          (parsed b)
          one_parsed.request
          answers
        ≡ some a)
unfolding on_request ssxrver.Http.Response.append_to_buffer ssxrver.Http.Request.add_body
    default_http_callback ssxrver.Net.Buffer.append ssxrver.Net.Buffer.ensure_writable_bytes
    ssxrver.Net.Buffer.new ssxrver.Http.Response.set_close_connection
    ssxrver.Http.Response.set_status_message ssxrver.Http.Response.set_status_code
    ssxrver.Net.Buffer.has_written ssxrver.Http.Response.set_close
    ssxrver.Net.Connection.Handlers.send_buffer ssxrver.Http.Response.get_file
    ssxrver.Net.Connection.send_in_loop new_channel ssxrver.Net.Buffer.make_space
single_answer b = (
  or_posting (on_request pairs default_http_callback (parsed b) one_parsed.request answers),
  refl,
)

on_message_single_example :
    (b : Buffer) × (on_message pairs default_http_callback number two_heads answers
      ≡ some (single_answer b).0)
    × IsValid (single_answer b).0.conn.input_buffer
    × (contents (single_answer b).0.conn.input_buffer ≡ codes "cd")
unfolding ssxrver.Http.Parser.call_all ssxrver.Http.Parser.get_content_length
    ssxrver.Http.Request.get_header ssxrver.Http.Request.find
on_message_single_example =
    on_message_single pairs default_http_callback number two_heads one_parsed answers
      (record { ordered = omega arith; inside = omega arith; roomy = omega arith }) refl
      (omega arith) refl refl refl refl single_answer

-- An automaton that finds in any bytes a request to keep the connection.
abbrev keeping : Engine Bool
keeping = record {
  start = false;
  execute =
      λ p bytes. (true, length bytes, http_field (codes "Connection") (codes "Keep-Alive") ∷ []);
  finish = λ p. if p then finished else unfinished;
}

abbrev say_ok : Request → Response → Response
say_ok req resp = set_status_message resp (codes "OK")

abbrev idle : World (RequestParser Bool)
idle = record posting {
  conn = record posting.conn {
    context = record { parser = false; request = empty_request; error = 0 };
  };
}

abbrev asked : Exchange keeping say_ok
asked = record {
  incoming = record { bytes = codes "GET"; answers = answers };
  parsed = record {
    parser = true;
    request = record empty_request { headers = (codes "Connection", codes "Keep-Alive") ∷ [] };
    error = 0;
  };
}

asked-IsExchange : IsExchange keeping say_ok number asked
unfolding call_all call_back set_header ssxrver.Http.Request.insert new_parser
    ssxrver.Http.Parser.get_content_length ssxrver.Http.Request.get_header ssxrver.Http.Request.find
    ssxrver.Http.Response.set_close set_status_message status_start
    ssxrver.Http.Response.length_line
asked-IsExchange = record {
  some_bytes = omega arith;
  whole = refl;
  parses = refl;
  over = refl;
  clean = refl;
  bodyless = refl;
  stays = refl;
  plain = refl;
  answered = omega arith;
}

idle-IsIdle : IsIdle keeping say_ok idle
unfolding new_parser
idle-IsIdle = record {
  up = refl;
  quiet = refl;
  no_file = refl;
  room = record { ordered = omega arith; inside = omega arith; roomy = omega arith };
  valid = record { ordered = omega arith; inside = omega arith; roomy = omega arith };
  drained = refl;
  anew = refl;
}

receive_all-replies_example :
    (w' : World (RequestParser Bool)) × (receive_all keeping say_ok number idle
        (asked.incoming ∷ asked.incoming ∷ [])
      ≡ some w')
    × IsIdle keeping say_ok w'
    × (stream w' ≡ stream idle ++ replies keeping say_ok (asked ∷ asked ∷ []))
receive_all-replies_example =
    receive_all-replies keeping say_ok number idle (asked ∷ asked ∷ []) refl idle-IsIdle
      (asked-IsExchange, (asked-IsExchange, tt))

-- ===== src/Http/Tests.antt =====
-- The theorems on requests and responses, with an automaton that takes a whole buffer at a time.
use ssxrver.Prelude.{
  ◌≡◌, refl, ◌↔◌, ◌⊎◌, Bool, true, false, Option, none, some, [], ◌∷◌, ◌++◌, arith, if◌then◌else◌,
  length, replicate, codes, take, decimal, ℕ, List,
}
use ssxrver.Net.Buffer.{Buffer, contents}
use ssxrver.Net.Buffer.Views.{IsValid}
use ssxrver.Net.Poller.{new_channel}
use ssxrver.Net.Connection.{World, connected, count}
use ssxrver.Http.Request.{
  add_body, empty_request, method_of, is_invalid, IsPrefix, method_of-prefix,
}
use ssxrver.Http.Parser.{
  Engine, RequestParser, unfinished, finished, request_method, execute, has_error, reset,
}
use ssxrver.Http.Parser.Runs.{execute_reset-has_error}
use ssxrver.Http.Response.{empty_response, append_to_buffer, status_start, crlf, add_header, insert}
use ssxrver.Http.Response.Framing.{append_to_buffer_lem, connection_text, header_lines}
use ssxrver.Http.Response.Headers.{add_all, IsAscending}
use ssxrver.Http.Server.{with_parser, on_request, Answers, default_http_callback}

method_of-prefix_example : (is_invalid (method_of (codes "GE")) ≡ false) ↔ (
    IsPrefix (codes "GE") (codes "GET")
    ⊎ IsPrefix (codes "GE") (codes "HEAD")
    ⊎ IsPrefix (codes "GE") (codes "POST"))
method_of-prefix_example = method_of-prefix (codes "GE") (ground arith, (ground arith, tt))

-- An automaton that takes all bytes, and makes one callback with them as the method.
abbrev greedy : Engine Bool
greedy = record {
  start = false;
  execute = λ p bytes. (true, length bytes, request_method bytes ∷ []);
  finish = λ p. if p then finished else unfinished;
}

abbrev input : Buffer
input = record {
  bytes = replicate 8 0 ++ (codes "GET" ++ replicate 5 0);
  reader_index = 8;
  writer_index = 11;
}

input-IsValid : IsValid input
input-IsValid = record { ordered = omega arith; inside = omega arith; roomy = omega arith }

abbrev idle_parser : RequestParser Bool
idle_parser = record { parser = false; request = empty_request; error = 0 }

abbrev failed_parser : RequestParser Bool
failed_parser = record { parser = true; request = empty_request; error = 1000 }

execute_reset-has_error_example :
    (has_error greedy failed_parser ≡ true) × (has_error greedy (reset greedy failed_parser) ≡ true)
unfolding execute
execute_reset-has_error_example =
    execute_reset-has_error greedy failed_parser failed_parser input input 0 (ground arith) refl

-- Two headers, not in the order of their keys, and one of a key that is there.
abbrev headers : List (List ℕ × List ℕ)
headers =
    (codes "Server", codes "a")
    ∷ (codes "Content-Type", codes "text/plain")
    ∷ (codes "Server", codes "b")
    ∷ []

append_to_buffer_lem_example :
    let full = add_all empty_response headers in
    IsAscending full.headers
    × (out' : Buffer) × (append_to_buffer full input ≡ some out')
    × IsValid out'
    × (contents out'
        ≡ contents input
          ++ (take 31 (codes "HTTP/1.1 " ++ decimal full.status_code ++ codes " ")
              ++ (full.status_message
                  ++ (crlf
                      ++ (connection_text full
                          ++ (header_lines full.headers ++ (crlf ++ full.body)))))))
append_to_buffer_lem_example = append_to_buffer_lem empty_response headers input refl input-IsValid

headers_test :
    (add_all empty_response headers).headers
    ≡ (codes "Content-Type", codes "text/plain") ∷ (codes "Server", codes "a") ∷ []
unfolding add_all add_header insert
headers_test = refl

-- A connection whose request waits for a body, with three bytes in its buffer.
abbrev waiting : World (RequestParser Bool)
waiting = record {
  poller = record { channels = []; calls = [] };
  conn = record {
    state = connected;
    sock_fd = 7;
    channel = new_channel 7;
    input_buffer = input;
    output_buffer = record { bytes = replicate 8 0; reader_index = 8; writer_index = 8 };
    send_file = none;
    context = failed_parser;
    reading = true;
    notifies = false;
  };
  effects = [];
}

abbrev answers : Answers
answers = record { bad_write = count 0; bad_file = count 0; write = count 10; file = count 0 }

-- Two of the three bytes are the rest of a body of two.
abbrev held : World (RequestParser Bool)
held =
    with_parser greedy default_http_callback waiting
      (record failed_parser { request = add_body empty_request (codes "GE") })

abbrev or_waiting : Option (World (RequestParser Bool)) → World (RequestParser Bool)
or_waiting none = waiting
or_waiting (some w) = w

abbrev answered : World (RequestParser Bool)
answered =
    or_waiting
      (on_request greedy default_http_callback held (add_body empty_request (codes "GE")) answers)

answered_lem :
    on_request greedy default_http_callback held (add_body empty_request (codes "GE")) answers
    ≡ some answered
unfolding on_request append_to_buffer add_body default_http_callback ssxrver.Net.Buffer.append
    ssxrver.Net.Buffer.ensure_writable_bytes ssxrver.Net.Buffer.new
    ssxrver.Http.Response.set_close_connection ssxrver.Http.Response.set_status_message
    ssxrver.Http.Response.set_status_code ssxrver.Net.Buffer.has_written
    ssxrver.Http.Response.set_close ssxrver.Net.Connection.Handlers.send_buffer
    ssxrver.Http.Response.get_file ssxrver.Net.Connection.send_in_loop new_channel
    ssxrver.Net.Buffer.make_space
answered_lem = refl

-- ===== src/Http/Server.antt =====
-- http/HttpServer.cpp: `onMessage` and `onRequest`, on a connection whose context is a request
-- parser.
--
-- `http_callback` is the server's callback. `Answers` are what the kernel says to the sends of one
-- `onMessage`: of the error text, then of the response.
pub mod Body
pub mod Messages
pub mod Single
pub mod Conversation
mod Tests
use ssxrver.Prelude.{
  ℕ, zero, suc, ◌+◌, ◌-◌, ◌*◌, ◌/◌, ◌%◌, ◌^◌, ◌≤◌, ◌<◌, min, ◌≡◌, refl, sym, ap, ◌∙◌, ◌≢◌, ◌↔◌, ◌⊎◌,
  inl, inr, Bool, true, false, not, ◌&&◌, ◌||◌, Option, none, some, List, [], ◌∷◌, ◌++◌, map,
  append-nil, append_assoc, arith, ltb, leb, ◌==◌, if◌then◌else◌, ltb→lt, lt→ltb, leb→le, ==_iff,
  tests, Bool-cases, Option-cases, length, get_elem?, set, length-append, length-set,
  get_elem?-set_self, get_elem?-set_ne, get_or, take, drop, replicate, take-append-drop,
  length-take, length-drop, length-replicate, length-map, take-append, drop-append, take_all,
  drop_all, drop-drop, drop-take, take-take, select, All, All-append, All-map, ◌>>=◌, ◌>>◌, assert,
  codes, same, strncmp_equal, c_str, value_from, decimal_onto, decimal,
}
use ssxrver.Net.Buffer.{Buffer, new, init_size, contents, readable_bytes, retrieve_until}
use ssxrver.Net.Connection.{World, Connection, IoResult, with_conn, shutdown}
use ssxrver.Net.Connection.Handlers.{send_buffer, send_text}
use ssxrver.Http.Request.{Request, get_header, add_body}
use ssxrver.Http.Parser.{
  Engine, RequestParser, Progress, finished, unfinished, broken, execute, has_error, is_finished,
  reset, get_content_length,
}
use ssxrver.Http.Response.{
  Response, empty_response, set_close, set_status_code, set_status_message, set_close_connection,
  append_to_buffer, get_file,
}

pub record Answers : Type 0 where
  pub bad_write : IoResult
  pub bad_file : IoResult
  pub write : IoResult
  pub file : IoResult

unfoldable pub default_http_callback : Request → Response → Response
default_http_callback req resp =
    set_close_connection (set_status_message (set_status_code resp 404) (codes "Not Found")) true

abbrev is_finished_now : Progress → Bool
is_finished_now finished = true
is_finished_now unfinished = false
is_finished_now broken = false

unfoldable pub bad_request : List ℕ
bad_request = codes "HTTP/1.1 400 Bad Request" ++ (13 ∷ 10 ∷ 13 ∷ 10 ∷ [])

-- How many bytes of a buffer of `readable` go to a body that holds `held` of `length`.
unfoldable pub body_share : ℕ → ℕ → ℕ → ℕ
body_share length held readable =
    let len = (length + 2 ^ 64 - held) % 2 ^ 64 in if ltb readable len then readable else len

module _ {P : Type 0} (engine : Engine P) (http_callback : Request → Response → Response) where
  abbrev pub with_parser : World (RequestParser P) → RequestParser P → World (RequestParser P)
  with_parser w p = with_conn w (record w.conn { context = p })

  abbrev pub with_input : World (RequestParser P) → Buffer → World (RequestParser P)
  with_input w b = with_conn w (record w.conn { input_buffer = b })

  -- `setSendFile`, where the response has a file.
  set_send_file : World (RequestParser P) → Response → World (RequestParser P)
  set_send_file w r = elim (get_file r).0 [
    | none ↦ w
    | some f ↦ with_conn w (record w.conn { send_file = some f })
  ]

  -- `lexical_cast` of a text to a text gives it back.
  unfoldable pub on_request :
      World (RequestParser P) → Request → Answers → Option (World (RequestParser P))
  unfolding set_send_file
  on_request w req answers = do
    let connection = get_header some req (codes "Connection") []
    let response = http_callback req (set_close empty_response connection)
    buf ← append_to_buffer response (new init_size)
    (sent, buf') ← send_buffer (set_send_file w response) buf answers.write answers.file
    some (
        if response.close_connection
        then shutdown sent
        else with_conn sent
            (record sent.conn { context = reset engine sent.conn.context; send_file = none }))

  -- What follows `addBody` of `n` bytes, which made `request`.
  unfoldable pub finish_body :
      World (RequestParser P) → ℕ → ℕ → Request → Answers → Option (World (RequestParser P))
  finish_body w size n request answers = do
    let held = with_parser w (record w.conn.context { request = request })
    answered ← if length request.body == size then on_request held request answers else some held
    buf ← retrieve_until answered.conn.input_buffer (w.conn.input_buffer.reader_index + n)
    some (with_input answered buf)

  -- A request with a body: the bytes it still lacks, and its answer once it has them all.
  unfoldable pub on_body : World (RequestParser P) → ℕ → Answers → Option (World (RequestParser P))
  on_body w size answers =
      let request = w.conn.context.request in
      let buf = w.conn.input_buffer in
      let n = body_share size (length request.body) (readable_bytes buf) in
      finish_body w size n (add_body request (take n (contents buf))) answers

  -- The answer to a request that the parser refuses.
  refuse : World (RequestParser P) → RequestParser P → Answers → Option (World (RequestParser P))
  unfolding bad_request
  refuse w parser answers =
      if has_error engine parser
      then (do
        sent ← send_text w bad_request answers.bad_write answers.bad_file
        some (shutdown sent))
      else some w

  -- `lexical_cast` to a `uint64_t` is an argument.
  unfoldable pub on_message :
      (List ℕ → Option ℕ) → World (RequestParser P) → Answers → Option (World (RequestParser P))
  unfolding on_body refuse
  on_message cast w answers = do
    (parser, buf, n) ← execute engine w.conn.context w.conn.input_buffer
    refused ← refuse (with_input (with_parser w parser) buf) parser answers
    let size = get_content_length cast parser
    if is_finished_now (is_finished engine parser)
        then (if ltb 0 size
            then on_body refused size answers
            else on_request refused parser.request answers)
        else some refused

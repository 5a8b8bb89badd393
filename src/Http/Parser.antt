-- ===== src/Http/Parser.antt =====
-- http/HttpParser.h and http/HttpParser.cpp, on the request side.
--
-- The automaton (http/http11_parser.cpp, generated from another project's grammar) is an `Engine`:
-- it takes the bytes of a buffer, gives how many it used, and makes callbacks in the order of the
-- list. `none` is an abort by a failed assertion.
pub mod Runs
use ssxrver.Prelude.{
  ℕ, ◌+◌, ◌≡◌, ◌≢◌, inl, inr, Bool, true, false, not, ◌||◌, Option, some, List, [], ◌∷◌, arith,
  ◌==◌, if◌then◌else◌, Option-cases, ◌>>=◌, codes,
}
use ssxrver.Net.Buffer.{Buffer, contents, retrieve_until}
use ssxrver.Http.Request.{
  Request, empty_request, set_method, set_version, set_path, set_query, set_header, get_header,
}

-- The callbacks of `http_parser`.
pub data Event : Type 0 where
  request_method uri fragment request_path query_string http_version header_done : List ℕ → Event
  http_field : List ℕ → List ℕ → Event

-- What `http_parser_finish` answers: -1, 0 and 1.
pub data Progress : Type 0 where
  broken unfinished finished : Progress

-- `http_parser_init`, `http_parser_execute` and `http_parser_finish`; `http_parser_has_error` holds
-- where `finish` gives `broken`.
pub record Engine (P : Type 0) : Type 0 where
  pub start : P
  pub execute : P → List ℕ → P × ℕ × List Event
  pub finish : P → Progress

pub record RequestParser (P : Type 0) : Type 0 where
  pub parser : P
  pub request : Request
  pub error : ℕ

abbrev pub is_broken : Progress → Bool
is_broken broken = true
is_broken unfinished = false
is_broken finished = false

abbrev pub is_unfinished : Progress → Bool
is_unfinished unfinished = true
is_unfinished broken = false
is_unfinished finished = false

module _ {P : Type 0} where
  abbrev with_request : RequestParser P → Request → RequestParser P
  with_request p r = record p { request = r }

  on_request_method : RequestParser P → List ℕ → Option (RequestParser P)
  on_request_method p at = do
    (flag, r) ← set_method p.request at
    some (record p { request = r; error = if flag then p.error else 1000 })

  on_request_version : RequestParser P → List ℕ → Option (RequestParser P)
  on_request_version p at = do
    (flag, r) ← set_version p.request at
    some (record p { request = r; error = if flag then p.error else 1001 })

  on_request_http_field : RequestParser P → List ℕ → List ℕ → RequestParser P
  on_request_http_field p [] value = p
  on_request_http_field p (c ∷ field) value =
      with_request p (set_header p.request (c ∷ field) value)

  unfoldable pub call_back : RequestParser P → Event → Option (RequestParser P)
  unfolding on_request_method on_request_version on_request_http_field
  call_back p (request_method at) = on_request_method p at
  call_back p (uri at) = some p
  call_back p (fragment at) = some p
  call_back p (request_path at) = some (with_request p (set_path p.request at))
  call_back p (query_string at) = some (with_request p (set_query p.request at))
  call_back p (http_version at) = on_request_version p at
  call_back p (header_done at) = some p
  call_back p (http_field field value) = some (on_request_http_field p field value)

  unfoldable pub call_all : RequestParser P → List Event → Option (RequestParser P)
  unfolding call_back
  call_all p [] = some p
  call_all p (e ∷ es) = do p' ← call_back p e; call_all p' es

module _ {P : Type 0} (engine : Engine P) where
  unfoldable pub new_parser : RequestParser P
  new_parser = record { parser = engine.start; request = empty_request; error = 0 }

  unfoldable pub is_finished : RequestParser P → Progress
  is_finished p = engine.finish p.parser

  unfoldable pub has_error : RequestParser P → Bool
  unfolding is_finished
  has_error p = not (p.error == 0) || is_broken (is_finished p)

  -- `execute`, with what it returns.
  unfoldable pub execute : RequestParser P → Buffer → Option (RequestParser P × Buffer × ℕ)
  unfolding is_finished
  execute p data' =
      if is_unfinished (is_finished p)
      then (do
        let (parser, offset, events) = engine.execute p.parser (contents data')
        p' ← call_all (record p { parser = parser }) events
        rest ← retrieve_until data' (data'.reader_index + offset)
        some (p', rest, offset))
      else some (p, data', 0)

  -- `error_` stays.
  unfoldable pub reset : RequestParser P → RequestParser P
  reset p = record p { parser = engine.start; request = empty_request }

-- `lexical_cast` to a `uint64_t` is an argument.
unfoldable pub get_content_length : {P : Type 0} → (List ℕ → Option ℕ) → RequestParser P → ℕ
get_content_length cast p = get_header cast p.request (codes "Content-Length") 0

-- ===== src/Http/ResponseParser.antt =====
-- http/HttpParser.cpp: the parser of responses, over its automaton and `atoi`, which are
-- arguments.
--
-- An event of the automaton is a call of one of its callbacks with the bytes that it was given;
-- the status is read by `atoi` from the bytes at `at` on, however long the token is.
use ssxrver.Prelude.{
  ℕ, ◌+◌, ◌≤◌, ◌≡◌, refl, ap, Bool, not, ◌||◌, Option, some, List, [], ◌∷◌, arith, ◌==◌,
  if◌then◌else◌, length, drop, ◌>>=◌,
}
use ssxrver.Net.Buffer.{Buffer, contents, retrieve_until}
use ssxrver.Net.Buffer.Views.{IsValid, length-contents}
use ssxrver.Net.Buffer.Fifo.{retrieve_lem, retrieve_until_lem}
use ssxrver.Http.Parser.{Progress, unfinished, is_broken, is_unfinished}
use ssxrver.Http.Response.{
  Response, empty_response, set_status_code, set_status_message, add_header, swap,
}

pub data Event : Type 0 where
  reason_phrase status_code chunk_size http_version header_done last_chunk : List ℕ → Event
  http_field : List ℕ → List ℕ → Event

pub record Engine (P : Type 0) : Type 0 where
  pub start : P
  pub execute : P → List ℕ → P × ℕ × List Event
  pub finish : P → Progress

pub record ResponseParser (P : Type 0) : Type 0 where
  pub parser : P
  pub response : Response
  pub error : ℕ

module _ (atoi : List ℕ → ℕ) where
  unfoldable pub on_http_field : Response → List ℕ → List ℕ → Response
  on_http_field r [] value = r
  on_http_field r (c ∷ field) value = add_header r (c ∷ field) value

  unfoldable pub call_back : Response → Event → Response
  unfolding on_http_field
  call_back r (reason_phrase at) = set_status_message r at
  call_back r (status_code at) = set_status_code r (atoi at)
  call_back r (chunk_size at) = r
  call_back r (http_version at) = r
  call_back r (header_done at) = r
  call_back r (last_chunk at) = r
  call_back r (http_field field value) = on_http_field r field value

  unfoldable pub call_all : Response → List Event → Response
  call_all r [] = r
  call_all r (e ∷ es) = call_all (call_back r e) es

module _ {P : Type 0} (engine : Engine P) (atoi : List ℕ → ℕ) where
  unfoldable pub new_parser : ResponseParser P
  new_parser = record { parser = engine.start; response = empty_response; error = 0 }

  unfoldable pub is_finished : ResponseParser P → Progress
  is_finished p = engine.finish p.parser

  unfoldable pub has_error : ResponseParser P → Bool
  unfolding is_finished
  has_error p = not (p.error == 0) || is_broken (is_finished p)

  -- `execute`, with what it returns.
  unfoldable pub execute : ResponseParser P → Buffer → Option (ResponseParser P × Buffer × ℕ)
  unfolding is_finished
  execute p data' =
      if is_unfinished (is_finished p)
      then (do
        let (parser, offset, events) = engine.execute p.parser (contents data')
        rest ← retrieve_until data' (data'.reader_index + offset)
        some (
          record p { parser = parser; response = call_all atoi p.response events },
          rest,
          offset,
        ))
      else some (p, data', 0)

  unfoldable pub reset : ResponseParser P → ResponseParser P
  unfolding swap
  reset p = record p { parser = engine.start; response = (swap p.response empty_response).0 }

  -- Where the automaton has not finished and uses no more bytes than it is given, a run takes just
  -- the bytes used off a valid buffer, and no callback fails or sets an error.
  pub execute-IsValid :
      (p : ResponseParser P) (data' : Buffer)
      → IsValid data'
      → let (parser, offset, events) = engine.execute p.parser (contents data') in
        (offset ≤ length (contents data'))
        → engine.finish p.parser ≡ unfinished
        → (p' : ResponseParser P) × (rest : Buffer) × (execute p data' ≡ some (p', rest, offset))
          × (p'.error ≡ p.error)
          × (p'.response ≡ call_all atoi p.response events)
          × IsValid rest
          × (contents rest ≡ drop offset (contents data'))
  unfolding execute is_finished
  execute-IsValid p data' v h f =
      let n = (engine.execute p.parser (contents data')).1 in
      let (rest, e, ok, same_bytes) =
        retrieve_lem data' n v (omega (arith, h, length-contents data' v)) in
      (
        record p {
          parser = (engine.execute p.parser (contents data')).0;
          response = call_all atoi p.response (engine.execute p.parser (contents data')).2;
        },
        rest,
        rw (f, retrieve_until_lem data' n v (omega (arith, h, length-contents data' v)), e) refl,
        refl,
        refl,
        ok,
        same_bytes,
      )

  -- A parser that was reset is as a new one but for its error number.
  pub reset-new_parser : (p : ResponseParser P) → p.error ≡ 0 → reset p ≡ new_parser
  unfolding reset new_parser swap
  reset-new_parser p e =
      ap (λ n. record { parser = engine.start; response = empty_response; error = n }) e

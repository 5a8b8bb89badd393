-- ===== src/Http/Server/Single.antt =====
-- http/HttpServer.cpp: a request without a body, in one message.
use mathlib.Core.Path.{subst}
use ssxrver.Prelude.{ℕ, ◌≤◌, ◌≡◌, sym, ap, ◌∙◌, Option, some, List, length, drop}
use ssxrver.Net.Buffer.{Buffer, contents}
use ssxrver.Net.Buffer.Views.{IsValid}
use ssxrver.Net.Connection.{World}
use ssxrver.Http.Request.{Request}
use ssxrver.Http.Parser.{
  Engine, RequestParser, unfinished, finished, call_all, has_error, is_finished, get_content_length,
}
use ssxrver.Http.Parser.Runs.{execute_lem}
use ssxrver.Http.Response.{Response}
use ssxrver.Http.Server.{Answers, on_request, on_message, refuse, with_parser, with_input}
use ssxrver.Http.Server.Body.{on_request-input}

module _ {P : Type 0} (engine : Engine P) (http_callback : Request → Response → Response)
    (cast : List ℕ → Option ℕ) where
  -- A parser in the middle of a head, which the bytes of a valid buffer finish without an error, with no
  -- body asked for: where the answer succeeds, the message does just that, and one answer is all it
  -- does. The bytes behind the head stay in the buffer, a whole further request as well.
  pub on_message_single :
      (w : World (RequestParser P)) (p' : RequestParser P) (answers : Answers)
      → IsValid w.conn.input_buffer
      → engine.finish w.conn.context.parser ≡ unfinished
      → let (parser, offset, events) =
          engine.execute w.conn.context.parser (contents w.conn.input_buffer) in
        (offset ≤ length (contents w.conn.input_buffer))
        → call_all (record w.conn.context { parser = parser }) events ≡ some p'
        → engine.finish p'.parser ≡ finished
        → p'.error ≡ 0
        → get_content_length cast p' ≡ 0
        → (answer : (b : Buffer)
            → (a : World (RequestParser P)) × (on_request engine http_callback
                  (with_input engine http_callback (with_parser engine http_callback w p') b)
                  p'.request
                  answers
                ≡ some a))
        → (b : Buffer) × (on_message engine http_callback cast w answers ≡ some (answer b).0)
          × IsValid (answer b).0.conn.input_buffer
          × (contents (answer b).0.conn.input_buffer ≡ drop offset (contents w.conn.input_buffer))
  unfolding on_message refuse has_error is_finished
  on_message_single w p' answers v f h go done clean none_asked answer =
      let (rest, e, ok, left) = execute_lem engine w.conn.context p' w.conn.input_buffer v h f go in
      let kept = on_request-input engine http_callback _ _ p'.request answers (answer rest).1 in
      (
        rest,
        simp (e, done, clean, none_asked) (answer rest).1,
        subst IsValid (sym kept) ok,
        ap contents kept ∙ left,
      )

-- ===== src/Http/Server/Conversation.antt =====
-- http/HttpServer.cpp: a connection that is kept alive over any number of requests.
--
-- Each request has no body and comes in one read, which is all of it.
use ssxrver.Prelude.{
  ℕ, ◌<◌, ◌≡◌, refl, sym, ap, ◌∙◌, true, false, Option, none, some, List, [], ◌∷◌, ◌++◌, map,
  append-nil, append_assoc, arith, length, drop_all, All, ◌>>=◌, codes, same,
}
use mathlib.Core.Path.{subst}
use ssxrver.Net.Buffer.{Buffer, new, init_size, contents, retrieve_all}
use ssxrver.Net.Buffer.Views.{IsValid}
use ssxrver.Net.Connection.{
  World, message, emit, with_conn, is_connected, is_disconnected, State, connected, disconnected,
  connecting, disconnecting,
}
use ssxrver.Net.Connection.Handlers.{send_buffer}
use ssxrver.Net.Connection.Inert.{send_buffer-SameInput}
use ssxrver.Net.Connection.Life.{send_in_loop_lem}
use ssxrver.Net.Connection.Stream.{stream, on_wire, on_wire_quiet}
use ssxrver.Net.Connection.Stream as Stream
use ssxrver.Net.Connection.Session.Effects.{send_in_loop-Steady}
use ssxrver.Http.Request.{Request, empty_request, get_header}
use ssxrver.Http.Parser.{
  Engine, RequestParser, unfinished, finished, call_all, new_parser, reset, get_content_length,
}
use ssxrver.Http.Response.{Response, empty_response, set_close, status_start, crlf, get_file}
use ssxrver.Http.Response.Framing.{appended, connection_lines, header_lines}
use ssxrver.Http.Server.{Answers, on_request, on_message, set_send_file, with_parser, with_input}
use ssxrver.Http.Server.Single.{on_message_single}
use ssxrver.Http.Server.Messages.{Read, receive, receive_all, handle_read_lem}

-- The bytes of a response.
abbrev pub response_text : Response → List ℕ
response_text r =
    status_start r
    ++ (r.status_message
        ++ (crlf ++ (connection_lines r ++ (header_lines r.headers ++ (crlf ++ r.body)))))

new-IsValid : IsValid (new init_size)
unfolding new
new-IsValid = record { ordered = omega arith; inside = omega arith; roomy = omega arith }

contents-new : contents (new init_size) ≡ []
unfolding new
contents-new = refl

up_not_down : (s : State) → is_connected s ≡ true → is_disconnected s ≡ false
up_not_down connected e = refl
up_not_down connecting e = refl
up_not_down disconnecting e = refl
up_not_down disconnected e = absurd (ground (arith, e))

module _ {P : Type 0} (engine : Engine P) (http_callback : Request → Response → Response) where
  -- What the callback makes of a request.
  abbrev pub response_of : Request → Response
  response_of req =
      http_callback req (set_close empty_response (get_header some req (codes "Connection") []))

  -- A response without a file that keeps the connection: its text is sent, and the parser starts anew.
  on_request_keeps :
      (w : World (RequestParser P)) (req : Request) (answers : Answers)
      → is_connected w.conn.state ≡ true
      → w.conn.notifies ≡ false
      → w.conn.send_file ≡ none
      → IsValid w.conn.output_buffer
      → (response_of req).close_connection ≡ false
      → (response_of req).file ≡ none
      → Stream.Answers answers.write (length (response_text (response_of req)))
      → (a : World (RequestParser P)) × (on_request engine http_callback w req answers ≡ some a)
        × (a.conn.state ≡ w.conn.state)
        × (a.conn.notifies ≡ false)
        × (a.conn.send_file ≡ none)
        × IsValid a.conn.output_buffer
        × (a.conn.context ≡ reset engine w.conn.context)
        × (stream a ≡ stream w ++ response_text (response_of req))
  unfolding on_request set_send_file get_file
  on_request_keeps w req answers up quiet no_file v stays plain ans =
      let response = response_of req in
      let (buf, e, bv, text) = appended response (new init_size) new-IsValid in
      let whole : contents buf ≡ response_text response =
        text ∙ ap (λ t. t ++ response_text response) contents-new in
      let down = up_not_down w.conn.state up in
      let (sent, e', v', s) =
        send_in_loop_lem w (contents buf) answers.write answers.file v down quiet
          (subst (λ t. Stream.Answers answers.write (length t)) (sym whole) ans) in
      let k =
        send_in_loop-Steady w sent (contents buf) answers.write answers.file no_file down e' in
      let go : send_buffer w buf answers.write answers.file ≡ some (sent, retrieve_all buf) =
        unfold send_buffer in simp (up, e') refl in
      let (_, same) =
        send_buffer-SameInput w sent buf (retrieve_all buf) answers.write answers.file go in
      (
        with_conn sent
            (record sent.conn { context = reset engine sent.conn.context; send_file = none }),
        simp (plain, e, go, stays) refl,
        k.state,
        k.notifies ∙ quiet,
        refl,
        v',
        ap (reset engine) same,
        s ∙ ap (λ t. stream w ++ t) whole,
      )

  -- Between two requests: connected, nothing to read, and a parser that starts anew.
  pub record IsIdle (w : World (RequestParser P)) : Type 0 where
    pub up : is_connected w.conn.state ≡ true
    pub quiet : w.conn.notifies ≡ false
    pub no_file : w.conn.send_file ≡ none
    pub room : IsValid w.conn.output_buffer
    pub valid : IsValid w.conn.input_buffer
    pub drained : contents w.conn.input_buffer ≡ []
    pub anew : w.conn.context ≡ new_parser engine

  -- A read, and the parser that it leaves.
  pub record Exchange : Type 0 where
    pub incoming : Read
    pub parsed : RequestParser P

  -- The response to an exchange.
  abbrev pub reply : Exchange → Response
  reply x = response_of x.parsed.request

  -- The responses to all, in order.
  abbrev pub replies : List Exchange → List ℕ
  replies [] = []
  replies (x ∷ xs) = response_text (reply x) ++ replies xs

module _ {P : Type 0} (engine : Engine P) (http_callback : Request → Response → Response)
    (cast : List ℕ → Option ℕ) where
  -- The bytes of the read are a request without a body, which the parser takes from its start to the end
  -- without an error; its response keeps the connection and has no file; and the kernel's answer to
  -- its `write` has no fault and counts no more than was given.
  pub record IsExchange (x : Exchange engine http_callback) : Type 0 where
    pub some_bytes : 0 < length x.incoming.bytes
    pub whole : (engine.execute engine.start x.incoming.bytes).1 ≡ length x.incoming.bytes
    pub parses :
        call_all
          (record (new_parser engine) { parser = (engine.execute engine.start x.incoming.bytes).0 })
          (engine.execute engine.start x.incoming.bytes).2
        ≡ some x.parsed
    pub over : engine.finish x.parsed.parser ≡ finished
    pub clean : x.parsed.error ≡ 0
    pub bodyless : get_content_length cast x.parsed ≡ 0
    pub stays : (reply engine http_callback x).close_connection ≡ false
    pub plain : (reply engine http_callback x).file ≡ none
    pub answered :
        Stream.Answers x.incoming.answers.write
          (length (response_text (reply engine http_callback x)))

  exchange :
      (w : World (RequestParser P)) (x : Exchange engine http_callback)
      → engine.finish engine.start ≡ unfinished
      → IsIdle engine http_callback w
      → IsExchange x
      → (w' : World (RequestParser P)) × (receive engine http_callback cast w x.incoming ≡ some w')
        × IsIdle engine http_callback w'
        × (stream w' ≡ stream w ++ response_text (reply engine http_callback x))
  unfolding receive new_parser reset
  exchange w x begins i o =
      let bytes = x.incoming.bytes in
      let (b, e, v, all) =
        handle_read_lem engine http_callback cast w bytes o.some_bytes i.valid i.drained in
      let told = emit (with_conn w (record w.conn { input_buffer = b })) (message ∷ []) in
      let run : engine.execute w.conn.context.parser (contents b)
          ≡ engine.execute engine.start bytes =
        ap (λ c. engine.execute (RequestParser.parser c) (contents b)) i.anew
        ∙ ap (engine.execute engine.start) all in
      let used : (engine.execute w.conn.context.parser (contents b)).1 ≡ length (contents b) =
        ap (λ q. q.1) run ∙ o.whole ∙ sym (ap length all) in
      let go =
        subst
          (λ c.
            call_all
              (record c { parser = (engine.execute (RequestParser.parser c) (contents b)).0 })
              (engine.execute (RequestParser.parser c) (contents b)).2
            ≡ some x.parsed)
          (sym i.anew)
          (subst
            (λ t.
              call_all (record (new_parser engine) { parser = (engine.execute engine.start t).0 })
                (engine.execute engine.start t).2
              ≡ some x.parsed)
            (sym all) o.parses) in
      let begun = with_parser engine http_callback told x.parsed in
      let keeps = λ (c : Buffer).
        on_request_keeps engine http_callback (with_input engine http_callback begun c)
          x.parsed.request x.incoming.answers i.up i.quiet i.no_file i.room o.stays o.plain
          o.answered in
      let (rest, on, ok, left) =
        on_message_single engine http_callback cast told x.parsed x.incoming.answers v
          (ap (λ c. engine.finish (RequestParser.parser c)) i.anew ∙ begins) (omega (arith, used))
          go o.over o.clean o.bodyless (λ c. ((keeps c).0, (keeps c).1)) in
      let (a, _, state, notifies, no_file, room, context, grown) = keeps rest in
      (
        a,
        ap (λ o. o >>= λ w'. on_message engine http_callback cast w' x.incoming.answers) e ∙ on,
        record {
          up = ap is_connected state ∙ i.up;
          quiet = notifies;
          no_file = no_file;
          room = room;
          valid = ok;
          drained = left ∙ drop_all _ (contents b) (omega (arith, used));
          anew =
              context
              ∙ ap (λ n. record { parser = engine.start; request = empty_request; error = n })
                  o.clean;
        },
        grown
            ∙ ap
                (λ t.
                  (t ++ contents w.conn.output_buffer)
                  ++ response_text (reply engine http_callback x))
                (on_wire_quiet w.effects (message ∷ []) (unfold on_wire in refl)),
      )

  -- A connection that is idle, and an automaton that is not finished at its start. Any number of
  -- requests, each without a body and whole in one read, with responses that keep the connection and
  -- have no file, and answers of `write` without a fault: no step aborts, what is on the wire and in
  -- the output buffer grows by just the responses, in the order of the requests, and the connection
  -- is idle again.
  pub receive_all-replies :
      (w : World (RequestParser P)) (xs : List (Exchange engine http_callback))
      → engine.finish engine.start ≡ unfinished
      → IsIdle engine http_callback w
      → All IsExchange xs
      → (w' : World (RequestParser P)) × (receive_all engine http_callback cast w
            (map (λ x. Exchange.incoming x) xs)
          ≡ some w')
        × IsIdle engine http_callback w'
        × (stream w' ≡ stream w ++ replies engine http_callback xs)
  unfolding receive_all
  receive_all-replies w [] begins i o = (w, refl, i, sym (append-nil (stream w)))
  receive_all-replies w (x ∷ xs) begins i (o, os) =
      let (w1, e, i1, s) = exchange w x begins i o in
      let (w2, e', i2, s') = receive_all-replies w1 xs begins i1 os in
      (
        w2,
        ap
              (λ o. o >>= λ w'.
                receive_all engine http_callback cast w' (map (λ x. Exchange.incoming x) xs))
              e
            ∙ e',
        i2,
        s'
            ∙ ap (λ t. t ++ replies engine http_callback xs) s
            ∙ append_assoc (stream w) (response_text (reply engine http_callback x))
                (replies engine http_callback xs),
      )

-- ===== src/Http/Server/Body.antt =====
-- How the body of a request is put together over the messages of a connection.
use ssxrver.Prelude.{
  ℕ, ◌+◌, ◌-◌, ◌^◌, ◌≤◌, ◌<◌, min, ◌≡◌, refl, ap, ◌∙◌, inl, inr, true, false, Option, none, some,
  [], ◌++◌, arith, ◌==◌, Bool-cases, Option-cases, length, length-append, take, drop, length-take,
  take_all, drop_all, codes, same,
}
use ssxrver.Net.Buffer.{Buffer, new, init_size}
use ssxrver.Net.Connection.Inert.{send_buffer-SameInput, shutdown-SameInput}
use ssxrver.Net.Connection.{SendFile, with_conn}
use ssxrver.Http.Request.{get_header}
use ssxrver.Net.Connection.Handlers.{send_buffer}
use ssxrver.Http.Response.{get_file, append_to_buffer, set_close, empty_response}
use ssxrver.Net.Buffer.{contents, readable_bytes}
use ssxrver.Net.Buffer.Views.{IsValid, length-contents}
use ssxrver.Net.Buffer.Fifo.{retrieve_lem, retrieve_until_lem}
use ssxrver.Net.Connection.{World}
use ssxrver.Http.Request.{Request, add_body}
use ssxrver.Http.Parser.{Engine, RequestParser}
use ssxrver.Http.Response.{Response}
use ssxrver.Http.Server.{
  Answers, body_share, on_body, finish_body, on_request, with_parser, with_input, set_send_file,
}

-- The share is what the body lacks, as far as the buffer has it.
body_share_lem :
    (size held readable : ℕ)
    → held ≤ size
    → size < 2 ^ 64
    → body_share size held readable ≡ min (size - held) readable
unfolding body_share
body_share_lem size held readable h k = ground arith

module _ {P : Type 0} (engine : Engine P) (http_callback : Request → Response → Response) where
  -- The world with the request that has its new bytes.
  holding : World (RequestParser P) → Request → World (RequestParser P)
  holding w request =
      with_parser engine http_callback w (record w.conn.context { request = request })

  finish_body_waits :
      (w : World (RequestParser P)) (size n : ℕ) (request : Request) (answers : Answers)
      → IsValid w.conn.input_buffer
      → n ≤ readable_bytes w.conn.input_buffer
      → (length request.body == size) ≡ false
      → (b : Buffer) × (finish_body engine http_callback w size n request answers
          ≡ some (with_input engine http_callback (holding w request) b))
        × IsValid b
        × (contents b ≡ drop n (contents w.conn.input_buffer))
  unfolding finish_body holding
  finish_body_waits w size n request answers v h un =
      let (b, e, ok, same) = retrieve_lem w.conn.input_buffer n v h in
      (b, rw (un, retrieve_until_lem w.conn.input_buffer n v h, e) refl, ok, same)

  finish_body_answers :
      (w a : World (RequestParser P)) (size n : ℕ) (request : Request) (answers : Answers)
      → IsValid w.conn.input_buffer
      → n ≤ readable_bytes w.conn.input_buffer
      → (length request.body == size) ≡ true
      → on_request engine http_callback (holding w request) request answers ≡ some a
      → a.conn.input_buffer ≡ w.conn.input_buffer
      → (b : Buffer) × (finish_body engine http_callback w size n request answers
          ≡ some (with_input engine http_callback a b))
        × IsValid b
        × (contents b ≡ drop n (contents w.conn.input_buffer))
  unfolding finish_body holding
  finish_body_answers w a size n request answers v h full go kept =
      let (b, e, ok, same) = retrieve_lem w.conn.input_buffer n v h in
      (b, rw (full, go, kept, retrieve_until_lem w.conn.input_buffer n v h, e) refl, ok, same)

  -- As below, with the world that is left.
  pub on_body_collects :
      (w : World (RequestParser P)) (size : ℕ) (answers : Answers)
      → IsValid w.conn.input_buffer
      → size < 2 ^ 64
      → length w.conn.context.request.body + readable_bytes w.conn.input_buffer < size
      → (b : Buffer) × (on_body engine http_callback w size answers
          ≡ some (
              with_input engine http_callback
                (with_parser engine http_callback w (record w.conn.context {
                  request = add_body w.conn.context.request (contents w.conn.input_buffer);
                }))
                b))
        × IsValid b
        × (contents b ≡ [])
  unfolding on_body add_body holding
  on_body_collects w size answers v big short =
      let buf = w.conn.input_buffer in
      let request = w.conn.context.request in
      let n = readable_bytes buf in
      let here = length-contents buf v in
      let share : body_share size (length request.body) n ≡ n =
        body_share_lem size (length request.body) n (omega (arith, short)) big
        ∙ omega (arith, short) in
      let whole : take n (contents buf) ≡ contents buf =
        take_all n (contents buf) (omega (arith, here)) in
      let size' = length-append request.body (contents buf) in
      let un : (length (request.body ++ contents buf) == size) ≡ false =
        ground (arith, size', here, short) in
      let (b, e, ok, same) =
        finish_body_waits w size n (add_body request (contents buf)) answers v (omega arith) un in
      (
        b,
        ap
              (λ k.
                finish_body engine http_callback w size k (add_body request (take k (contents buf)))
                  answers)
              share
            ∙ ap (λ t. finish_body engine http_callback w size n (add_body request t) answers) whole
            ∙ e,
        ok,
        same ∙ drop_all n (contents buf) (omega (arith, here)),
      )

  -- A message in a valid buffer that leaves the body short of its length, which is below 2 ^ 64: all
  -- that has come is put behind the body and leaves the buffer, and nothing is answered.
  pub on_body_waits :
      (w : World (RequestParser P)) (size : ℕ) (answers : Answers)
      → IsValid w.conn.input_buffer
      → size < 2 ^ 64
      → length w.conn.context.request.body + readable_bytes w.conn.input_buffer < size
      → (w' : World (RequestParser P)) × (on_body engine http_callback w size answers ≡ some w')
        × (w'.conn.context.request.body
            ≡ w.conn.context.request.body ++ contents w.conn.input_buffer)
        × IsValid w'.conn.input_buffer
        × (contents w'.conn.input_buffer ≡ [])
        × (w'.effects ≡ w.effects)
  unfolding add_body
  on_body_waits w size answers v big short =
      let (b, e, ok, none_left) = on_body_collects w size answers v big short in
      (
        with_input engine http_callback
            (with_parser engine http_callback w (record w.conn.context {
              request = add_body w.conn.context.request (contents w.conn.input_buffer);
            }))
            b,
        e,
        refl,
        ok,
        none_left,
        refl,
      )

  set_send_file-input :
      (w : World (RequestParser P)) (r : Response)
      → (set_send_file engine http_callback w r).conn.input_buffer ≡ w.conn.input_buffer
  unfolding set_send_file
  set_send_file-input w r = by_file (get_file r).0
    where
      by_file :
          (o : Option SendFile)
          → let u : World (RequestParser P) = elim o [
            | none ↦ w
            | some f ↦ with_conn w (record w.conn { send_file = some f })
          ] in
            u.conn.input_buffer ≡ w.conn.input_buffer
      by_file none = refl
      by_file (some f) = refl

  pub on_request-input :
      (w a : World (RequestParser P)) (req : Request) (answers : Answers)
      → on_request engine http_callback w req answers ≡ some a
      → a.conn.input_buffer ≡ w.conn.input_buffer
  unfolding on_request set_send_file
  on_request-input w a req answers go =
      elim (Option-cases (append_to_buffer response (new init_size))) [
        | inl stop ↦ absurd (ground (arith, stop, go))
        | inr (buf, e) ↦ elim (Option-cases (send_buffer ready buf answers.write answers.file)) [
          | inl stop ↦ absurd (ground (arith, e, stop, go))
          | inr ((sent, buf'), e') ↦
              let k = send_buffer-SameInput ready sent buf buf' answers.write answers.file e' in
              let j = set_send_file-input w response in
              let q = simp (e, e') at go in
              elim (Bool-cases response.close_connection) [
                | inl close ↦
                    let l = shutdown-SameInput sent in
                    let r = simp close at q in ground (arith, r, k, l, j)
                | inr keep ↦ let r = simp keep at q in ground (arith, r, k, j)
              ]
        ]
      ]
    where
      response : Response
      response =
          http_callback req (set_close empty_response (get_header some req (codes "Connection") []))

      ready : World (RequestParser P)
      ready = set_send_file engine http_callback w response

  -- A message in a valid buffer with the rest of the body, whose length is below 2 ^ 64, and an answer
  -- that succeeds: the request is answered with the body of just its length, which is what had come
  -- and the first bytes of the buffer, and the bytes behind them stay in the buffer.
  pub on_body_answers :
      (w a : World (RequestParser P)) (size : ℕ) (answers : Answers)
      → IsValid w.conn.input_buffer
      → size < 2 ^ 64
      → length w.conn.context.request.body ≤ size
      → size ≤ length w.conn.context.request.body + readable_bytes w.conn.input_buffer
      → let n = size - length w.conn.context.request.body in
        let request = add_body w.conn.context.request (take n (contents w.conn.input_buffer)) in
        on_request engine http_callback
            (with_parser engine http_callback w (record w.conn.context { request = request }))
            request
            answers
          ≡ some a
        → (length request.body ≡ size)
          × ((w' : World (RequestParser P)) × (on_body engine http_callback w size answers
                ≡ some w')
              × (w'.effects ≡ a.effects)
              × (contents w'.conn.input_buffer ≡ drop n (contents w.conn.input_buffer)))
  unfolding on_body add_body holding
  on_body_answers w a size answers v big some_left enough go =
      let buf = w.conn.input_buffer in
      let request = w.conn.context.request in
      let n = size - length request.body in
      let more = take n (contents buf) in
      let full : length (request.body ++ more) ≡ size = omega (
        arith,
        length-append request.body more,
        length-take n (contents buf),
        length-contents buf v,
        some_left,
        enough,
      ) in
      let share : body_share size (length request.body) (readable_bytes buf) ≡ n =
        body_share_lem size (length request.body) (readable_bytes buf) some_left big
        ∙ omega (arith, enough) in
      let kept =
        on_request-input (holding w (add_body request more)) a (add_body request more) answers go in
      let (b, e, ok, same) =
        finish_body_answers w a size n (add_body request more) answers v (omega (arith, enough))
          (ground (arith, full)) go kept in
      (
        full,
        (
          with_input engine http_callback a b,
          ap
                (λ k.
                  finish_body engine http_callback w size k
                    (add_body request (take k (contents buf))) answers)
                share
              ∙ e,
          refl,
          same,
        ),
      )

-- ===== src/Http/Server/Messages.antt =====
-- http/HttpServer.cpp behind net/TcpConnection.cpp: a body that comes in several reads.
--
-- Each read is `handleRead` of the connection, which calls `onMessage` once it has put the bytes
-- in the input buffer.
use ssxrver.Prelude.{
  ℕ, suc, ◌+◌, ◌-◌, ◌^◌, ◌≤◌, ◌<◌, ◌≡◌, refl, sym, ap, ◌∙◌, inl, inr, true, Option, some, List, [],
  ◌∷◌, ◌++◌, append-nil, append_assoc, arith, ltb, Option-cases, length, length-append, take, drop,
  replicate, take-append_past, drop-append_past, replicate_snoc, All, ◌>>=◌,
}
use mathlib.Core.Path.{subst}
use ssxrver.Net.Buffer.{Buffer, contents, readable_bytes}
use ssxrver.Net.Buffer.Views.{IsValid, length-contents}
use ssxrver.Net.Buffer.ReadFd.{received, read_fd_lem}
use ssxrver.Net.Connection.{World, Effect, message, emit, with_conn}
use ssxrver.Net.Connection.Handlers.{handle_read}
use ssxrver.Http.Request.{Request, add_body, get_header}
use ssxrver.Http.Parser.{
  Engine, RequestParser, finished, execute, has_error, is_finished, get_content_length,
}
use ssxrver.Http.Response.{Response}
use ssxrver.Http.Server.{Answers, on_body, on_request, on_message, refuse, with_parser, with_input}
use ssxrver.Http.Server.Body.{on_body_collects, on_body_answers}

-- What one read delivers, and what the kernel says to the sends behind it.
pub record Read : Type 0 where
  pub bytes : List ℕ
  pub answers : Answers

abbrev pub joined : List Read → List ℕ
joined [] = []
joined (r ∷ rs) = r.bytes ++ joined rs

module _ {P : Type 0} (engine : Engine P) (http_callback : Request → Response → Response)
    (cast : List ℕ → Option ℕ) where
  -- One event of the channel that can be read.
  unfoldable pub receive : World (RequestParser P) → Read → Option (World (RequestParser P))
  receive w r =
      handle_read w (received r.bytes) >>= λ w'. on_message engine http_callback cast w' r.answers

  unfoldable pub receive_all :
      World (RequestParser P) → List Read → Option (World (RequestParser P))
  receive_all w [] = some w
  receive_all w (r ∷ rs) = receive w r >>= λ w'. receive_all w' rs

  -- The head of a request with a body of `size` bytes was parsed, and nothing is left to read.
  pub record IsCollecting (size : ℕ) (w : World (RequestParser P)) : Type 0 where
    pub over : engine.finish w.conn.context.parser ≡ finished
    pub clean : w.conn.context.error ≡ 0
    pub asks : get_content_length cast w.conn.context ≡ size
    pub valid : IsValid w.conn.input_buffer
    pub drained : contents w.conn.input_buffer ≡ []

  -- The connection with `text` behind the body, `b` for its input buffer, and `n` messages told.
  unfoldable pub collected : World (RequestParser P) → List ℕ → Buffer → ℕ → World (RequestParser P)
  collected w text b n =
      with_input engine http_callback
        (with_parser engine http_callback (emit w (replicate n message))
          (record w.conn.context { request = add_body w.conn.context.request text }))
        b

  -- A parser that has finished without an error passes the message on to `on_body`.
  on_message_finished :
      (w : World (RequestParser P)) (size : ℕ) (answers : Answers)
      → engine.finish w.conn.context.parser ≡ finished
      → w.conn.context.error ≡ 0
      → get_content_length cast w.conn.context ≡ size
      → 0 < size
      → on_message engine http_callback cast w answers ≡ on_body engine http_callback w size answers
  unfolding on_message execute has_error is_finished refuse
  on_message_finished w size answers f c g h =
      let more : ltb 0 size ≡ true = ground (arith, h) in simp (f, c, g, more) refl

  pub handle_read_lem :
      (w : World (RequestParser P)) (bytes : List ℕ)
      → 0 < length bytes
      → IsValid w.conn.input_buffer
      → contents w.conn.input_buffer ≡ []
      → (b : Buffer) × (handle_read w (received bytes)
          ≡ some (emit (with_conn w (record w.conn { input_buffer = b })) (message ∷ [])))
        × IsValid b
        × (contents b ≡ bytes)
  unfolding handle_read
  handle_read_lem w [] h v e = absurd (omega (arith, h))
  handle_read_lem w (x ∷ bytes) h v e =
      let (b, go, ok, all) = read_fd_lem w.conn.input_buffer (received (x ∷ bytes)) v in
      (b, rw go refl, ok, all ∙ ap (λ t. t ++ (x ∷ bytes)) e)

  -- A read that leaves the body short is put behind it, and the connection goes on as before.
  receive_waits :
      (w : World (RequestParser P)) (r : Read) (size : ℕ)
      → IsCollecting size w
      → 0 < size
      → size < 2 ^ 64
      → 0 < length r.bytes
      → length w.conn.context.request.body + length r.bytes < size
      → (b : Buffer) × (receive w r ≡ some (collected w r.bytes b 1))
        × IsCollecting size (collected w r.bytes b 1)
  unfolding receive collected add_body get_content_length get_header
  receive_waits w r size c pos big some_bytes short =
      let (b, e, v, all) = handle_read_lem w r.bytes some_bytes c.valid c.drained in
      let told = emit (with_conn w (record w.conn { input_buffer = b })) (message ∷ []) in
      let count : readable_bytes b ≡ length r.bytes = sym (length-contents b v) ∙ ap length all in
      let (b', go, v', drained) =
        on_body_collects engine http_callback told size r.answers v big
          (omega (arith, count, short)) in
      (
        b',
        ap (λ o. o >>= λ w'. on_message engine http_callback cast w' r.answers) e
            ∙ on_message_finished told size r.answers c.over c.clean c.asks pos
            ∙ go
            ∙ ap (λ t. some (collected w t b' 1)) all,
        record { over = c.over; clean = c.clean; asks = c.asks; valid = v'; drained = drained },
      )

  -- `collected`, from the whole body and all effects.
  with_body : World (RequestParser P) → Buffer → List ℕ → List Effect → World (RequestParser P)
  with_body w b body effects = record w {
    conn = record w.conn {
      context = record w.conn.context { request = record w.conn.context.request { body = body } };
      input_buffer = b;
    };
    effects = effects;
  }

  collected_nothing : (w : World (RequestParser P)) → w ≡ collected w [] w.conn.input_buffer 0
  unfolding collected with_body add_body
  collected_nothing w =
      ap (λ t. with_body w w.conn.input_buffer t w.effects)
        (sym (append-nil w.conn.context.request.body))
      ∙ ap (with_body w w.conn.input_buffer (w.conn.context.request.body ++ []))
          (sym (append-nil w.effects))

  collected-collected :
      (w : World (RequestParser P)) (xs ys : List ℕ) (b b' : Buffer) (m n : ℕ) (k : ℕ)
      → replicate m message ++ replicate n message ≡ replicate k message
      → collected (collected w xs b m) ys b' n ≡ collected w (xs ++ ys) b' k
  unfolding collected with_body add_body
  collected-collected w xs ys b b' m n k e =
      ap (λ t. with_body w b' t ((w.effects ++ replicate m message) ++ replicate n message))
        (append_assoc w.conn.context.request.body xs ys)
      ∙ ap (with_body w b' (w.conn.context.request.body ++ (xs ++ ys))) (
          append_assoc w.effects (replicate m message) (replicate n message)
          ∙ ap (◌++◌ w.effects) e)

  receive_all-append :
      (w : World (RequestParser P)) (rs ss : List Read)
      → receive_all w (rs ++ ss) ≡ receive_all w rs >>= λ w'. receive_all w' ss
  unfolding receive_all
  receive_all-append w [] ss = refl
  receive_all-append w (r ∷ rs) ss = elim (Option-cases (receive w r)) [
    | inl stop ↦ simp stop refl
    | inr (w', e) ↦ simp e (receive_all-append w' rs ss)
  ]

  -- Reads that leave the body short: nothing is answered.
  receive_all_waits :
      (w : World (RequestParser P)) (rs : List Read) (size : ℕ)
      → IsCollecting size w
      → size < 2 ^ 64
      → All (λ r. 0 < length (Read.bytes r)) rs
      → length w.conn.context.request.body + length (joined rs) < size
      → (b : Buffer) × (receive_all w rs ≡ some (collected w (joined rs) b (length rs)))
        × IsCollecting size (collected w (joined rs) b (length rs))
  unfolding receive_all collected add_body get_content_length get_header
  receive_all_waits w [] size c big some_bytes short = (
    w.conn.input_buffer,
    ap some (collected_nothing w),
    record { over = c.over; clean = c.clean; asks = c.asks; valid = c.valid; drained = c.drained },
  )
  receive_all_waits w (r ∷ rs) size c big some_bytes short =
      let body = w.conn.context.request.body in
      let here = length-append r.bytes (joined rs) in
      let (b, e, c1) =
        receive_waits w r size c (omega (arith, short)) big some_bytes.0
          (omega (arith, short, here)) in
      let (b', e', c2) =
        receive_all_waits (collected w r.bytes b 1) rs size c1 big some_bytes.1
          (omega (arith, short, here, length-append body r.bytes)) in
      (
        b',
        ap (λ o. o >>= λ w'. receive_all w' rs) e
            ∙ e'
            ∙ ap some (
                collected-collected w r.bytes (joined rs) b b' 1 (length rs) (suc (length rs))
                  refl),
        record {
          over = c2.over;
          clean = c2.clean;
          asks = c2.asks;
          valid = c2.valid;
          drained = c2.drained;
        },
      )

  Answered : Answers → World (RequestParser P) → World (RequestParser P) → Type 0
  Answered answers a x = on_request engine http_callback x x.conn.context.request answers ≡ some a

  -- The last part of the body, behind what `n` reads have put together.
  collects_last :
      (w : World (RequestParser P)) (xs ys text : List ℕ) (b : Buffer) (n : ℕ)
      → xs ++ ys ≡ text
      → with_parser engine http_callback
          (emit
            (with_conn (collected w xs b n) (record (collected w xs b n).conn { input_buffer = b }))
            (message ∷ []))
          (record (collected w xs b n).conn.context {
            request = add_body (collected w xs b n).conn.context.request ys;
          })
        ≡ collected w text b (suc n)
  unfolding collected add_body with_body
  collects_last w xs ys text b n e =
      ap (λ t. with_body w b t ((w.effects ++ replicate n message) ++ (message ∷ [])))
        (append_assoc w.conn.context.request.body xs ys ∙ ap (◌++◌ w.conn.context.request.body) e)
      ∙ ap (with_body w b (w.conn.context.request.body ++ text)) (
          append_assoc w.effects (replicate n message) (message ∷ [])
          ∙ ap (◌++◌ w.effects) (replicate_snoc n message))

  -- A request whose head was parsed without an error asks for a body of less than 2 ^ 64 bytes. Reads
  -- that leave it short, each of some bytes, and one more that does not, are put together, however
  -- they are cut: where the answer to the request with the whole body succeeds, all that was sent is
  -- that answer, the body has just its length, and the bytes behind it stay in the buffer.
  pub receive_all_lem :
      (w : World (RequestParser P)) (rs : List Read) (last : Read) (size : ℕ)
      → IsCollecting size w
      → size < 2 ^ 64
      → All (λ r. 0 < length (Read.bytes r)) rs
      → length w.conn.context.request.body + length (joined rs) < size
      → size ≤ length w.conn.context.request.body + length (joined rs ++ last.bytes)
      → let n = size - length w.conn.context.request.body in
        let whole : Buffer → World (RequestParser P) =
          λ b. collected w (take n (joined rs ++ last.bytes)) b (suc (length rs)) in
        (answer : (b : Buffer)
          → (a : World (RequestParser P)) × (on_request engine http_callback
                (whole b)
                (whole b).conn.context.request
                last.answers
              ≡ some a))
        → (b : Buffer) × (w' : World (RequestParser P)) × (receive_all w (rs ++ (last ∷ []))
            ≡ some w')
          × (length (whole b).conn.context.request.body ≡ size)
          × (w'.effects ≡ (answer b).0.effects)
          × (contents w'.conn.input_buffer ≡ drop n (joined rs ++ last.bytes))
  unfolding receive_all receive collected add_body Answered
  receive_all_lem w rs last size c big some_bytes short enough answer =
      let body = w.conn.context.request.body in
      let request' = add_body w.conn.context.request (joined rs) in
      let n = size - length body in
      let here = length-append (joined rs) last.bytes in
      let (b0, e0, c0) = receive_all_waits w rs size c big some_bytes short in
      let u = collected w (joined rs) b0 (length rs) in
      let (b, e, v, all) =
        handle_read_lem u last.bytes (omega (arith, short, enough, here)) c0.valid c0.drained in
      let told = emit (with_conn u (record u.conn { input_buffer = b })) (message ∷ []) in
      let count : readable_bytes b ≡ length last.bytes =
        sym (length-contents b v) ∙ ap length all in
      let held = length-append body (joined rs) in
      let fewer : size - length (body ++ joined rs) ≡ n - length (joined rs) =
        omega (arith, held) in
      let past : length (joined rs) ≤ n = omega (arith, short) in
      let same_text : joined rs ++ take (size - length (body ++ joined rs)) (contents b)
          ≡ take n (joined rs ++ last.bytes) =
        ap (λ k. joined rs ++ take k (contents b)) fewer
        ∙ ap (λ t. joined rs ++ take (n - length (joined rs)) t) all
        ∙ sym (take-append_past n (joined rs) last.bytes past) in
      let go =
        subst (Answered last.answers (answer b).0)
          (sym (collects_last w (joined rs) _ _ b (length rs) same_text)) (answer b).1 in
      let (full, (w', on, told_all, left)) =
        on_body_answers engine http_callback told (answer b).0 size last.answers v big
          (omega (arith, held, short)) (omega (arith, held, count, here, enough)) go in
      (
        b,
        w',
        receive_all-append w rs (last ∷ [])
            ∙ ap (λ o. o >>= λ x. receive_all x (last ∷ [])) e0
            ∙ ap (λ o. o >>= λ x. receive_all x [])
                (ap (λ o. o >>= λ x. on_message engine http_callback cast x last.answers) e
                  ∙ on_message_finished told size last.answers c0.over c0.clean c0.asks
                      (omega (arith, short))
                  ∙ on),
        ap length (sym (append_assoc body (joined rs) _ ∙ ap (◌++◌ body) same_text)) ∙ full,
        told_all,
        left
            ∙ ap (λ k. drop k (contents b)) fewer
            ∙ ap (drop (n - length (joined rs))) all
            ∙ sym (drop-append_past n (joined rs) last.bytes past),
      )

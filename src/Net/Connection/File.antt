-- ===== src/Net/Connection/File.antt =====
-- net/TcpConnection.cpp: which parts of a file `handleWrite` sends. `sendfile` moves the offset that it
-- is given a pointer to by what it sent.
use ssxrver.Prelude.{
  ℕ, zero, suc, ◌+◌, ◌-◌, ◌≤◌, ◌≡◌, refl, ap, ◌∙◌, inl, inr, Bool, true, false, ◌&&◌, Option, none,
  some, List, [], ◌∷◌, ◌++◌, arith, ltb, ◌==◌, if◌then◌else◌, Bool-cases, Option-cases, take, All,
  ◌>>=◌, same,
}
use mathlib.Core.Path.{subst}
use ssxrver.Net.Buffer.{retrieve, contents, readable_bytes}
use ssxrver.Net.Buffer.Views.{IsValid}
use ssxrver.Net.Connection.{
  IoResult, error, count, SendFile, Effect, wrote, sent_file, queued_write_complete,
  queued_force_close, shut_write, message, connection_changed, recycled, logged_error, keep_alive,
  World, emit, with_conn, writing, when, shutdown_in_loop, is_disconnecting,
}
use ssxrver.Net.Connection.Handlers.{
  handle_write, all_sent, write_output, write_file, write_pending_file,
}
use ssxrver.Net.Connection.Stream.{Answers}
use ssxrver.Net.Connection.Stream.Drain.{handle_write_lem}

-- How many bytes of the file were sent, if each part begins at twice the bytes sent before it,
-- counted from `start`, with `at` bytes sent so far.
unfoldable pub spans : ℕ → ℕ → ℕ → List Effect → Option ℕ
spans fd start at [] = some at
spans fd start at (sent_file g from n ∷ es) =
    let rest = spans fd start (at + n) es in
    if g == fd && from == start + at + at then rest else none
spans fd start at (wrote bs ∷ es) = spans fd start at es
spans fd start at (queued_write_complete ∷ es) = spans fd start at es
spans fd start at (queued_force_close ∷ es) = spans fd start at es
spans fd start at (shut_write g ∷ es) = spans fd start at es
spans fd start at (message ∷ es) = spans fd start at es
spans fd start at (connection_changed ∷ es) = spans fd start at es
spans fd start at (recycled ∷ es) = spans fd start at es
spans fd start at (logged_error ∷ es) = spans fd start at es
spans fd start at (keep_alive g ∷ es) = spans fd start at es

-- Effects behind others continue from where those end.
spans-append :
    (fd start at mid : ℕ) (xs ys : List Effect)
    → spans fd start at xs ≡ some mid
    → spans fd start at (xs ++ ys) ≡ spans fd start mid ys
unfolding spans
spans-append fd start at mid [] ys e = let h : at ≡ mid = cc e in ap (λ n. spans fd start n ys) h
spans-append fd start at mid (sent_file g from n ∷ xs) ys e =
    elim (Bool-cases (g == fd && from == start + at + at)) [
      | inl same ↦ simp same (spans-append fd start (at + n) mid xs ys (simp same at e))
      | inr other ↦ absurd (ground (arith, other, e))
    ]
spans-append fd start at mid (wrote bs ∷ xs) ys e = spans-append fd start at mid xs ys e
spans-append fd start at mid (queued_write_complete ∷ xs) ys e =
    spans-append fd start at mid xs ys e
spans-append fd start at mid (queued_force_close ∷ xs) ys e = spans-append fd start at mid xs ys e
spans-append fd start at mid (shut_write g ∷ xs) ys e = spans-append fd start at mid xs ys e
spans-append fd start at mid (message ∷ xs) ys e = spans-append fd start at mid xs ys e
spans-append fd start at mid (connection_changed ∷ xs) ys e = spans-append fd start at mid xs ys e
spans-append fd start at mid (recycled ∷ xs) ys e = spans-append fd start at mid xs ys e
spans-append fd start at mid (logged_error ∷ xs) ys e = spans-append fd start at mid xs ys e
spans-append fd start at mid (keep_alive g ∷ xs) ys e = spans-append fd start at mid xs ys e

-- What is left of `f` behind `at` bytes: a file that stands at twice as many, or nothing.
abbrev pub Left : SendFile → Option SendFile → ℕ → Type 0
Left f none at = at ≡ f.send_len
Left f (some g) at =
    (g.in_fd ≡ f.in_fd) × (g.offset ≡ f.offset + at + at) × (at + g.send_len ≡ f.send_len)

when_told :
    (fd start : ℕ) (b : Bool) (n : ℕ) → spans fd start n (when b queued_write_complete) ≡ some n
unfolding spans
when_told fd start true n = refl
when_told fd start false n = refl

-- `sendfile` sends no more than is left.
abbrev pub FileAnswers : IoResult → ℕ → Type 0
FileAnswers (count n) k = n ≤ k
FileAnswers (error e) k = Unit {0}

-- An event that a connection can be written: what `write` and `sendfile` answer, for the number of
-- bytes that they are given.
pub record Writable : Type 0 where
  pub write : ℕ → IoResult
  pub send : ℕ → IoResult

-- They count no more than was given, and `write` has no fault.
abbrev pub Behaves : Writable → Type 0
Behaves a = ((n : ℕ) → Answers (a.write n) n) × ((n : ℕ) → FileAnswers (a.send n) n)

abbrev pub file_left : Option SendFile → ℕ
file_left none = 0
file_left (some f) = f.send_len

module _ {C : Type 0} where
  -- The bytes sent so far and what is left are as many as the file has, and each part was taken at
  -- twice the bytes sent before it.
  pub record IsSending (f : SendFile) (w : World C) : Type 0 where
    pub at : ℕ
    pub sent : spans f.in_fd f.offset 0 w.effects ≡ some at
    pub left : Left f w.conn.send_file at

  -- Effects that send no range.
  emit-IsSending :
      (f : SendFile) (w : World C) (es : List Effect)
      → ((n : ℕ) → spans f.in_fd f.offset n es ≡ some n)
      → IsSending f w
      → IsSending f (emit w es)
  emit-IsSending f w es h k = record {
    at = k.at;
    sent = spans-append f.in_fd f.offset 0 k.at w.effects es k.sent ∙ h k.at;
    left = k.left;
  }

  shutdown-IsSending :
      (f : SendFile) (w : World C) (b : Bool)
      → IsSending f w
      → IsSending f (if b then shutdown_in_loop w else w)
  unfolding shutdown_in_loop spans
  shutdown-IsSending f w false k = k
  shutdown-IsSending f w true k = by_mask (writing w)
    where
      by_mask : (m : Bool) → IsSending f (if m then w else emit w (shut_write w.conn.sock_fd ∷ []))
      by_mask true = k
      by_mask false = emit-IsSending f w (shut_write w.conn.sock_fd ∷ []) (λ n. refl) k

  all_sent-IsSending : (f : SendFile) (w : World C) → IsSending f w → IsSending f (all_sent w)
  unfolding all_sent
  all_sent-IsSending f w k = shutdown-IsSending f _ (is_disconnecting w.conn.state) (record {
    at = k.at;
    sent =
        spans-append f.in_fd f.offset 0 k.at w.effects (when w.conn.notifies queued_write_complete)
          k.sent
        ∙ when_told f.in_fd f.offset w.conn.notifies k.at;
    left = k.left;
  })

  write_output-IsSending :
      (f : SendFile) (w w' : World C) (r : IoResult)
      → IsSending f w
      → write_output w r ≡ some w'
      → IsSending f w'
  unfolding write_output spans
  write_output-IsSending f w w' (error x) k e =
      subst (IsSending f) {x = emit w (logged_error ∷ [])} (cc e)
        (emit-IsSending f w (logged_error ∷ []) (λ n. refl) k)
  write_output-IsSending f w w' (count zero) k e =
      subst (IsSending f) {x = emit w (wrote [] ∷ logged_error ∷ [])} (cc e)
        (emit-IsSending f w (wrote [] ∷ logged_error ∷ []) (λ n. refl) k)
  write_output-IsSending f w w' (count (suc m)) k e =
      elim (Option-cases (retrieve w.conn.output_buffer (suc m))) [
        | inl short ↦ absurd (ground (arith, short, e))
        | inr (out, got) ↦
            let taken = take (suc m) (contents w.conn.output_buffer) in
            let next =
              emit (with_conn w (record w.conn { output_buffer = out })) (wrote taken ∷ []) in
            let k' : IsSending f next = record {
              at = k.at;
              sent = spans-append f.in_fd f.offset 0 k.at w.effects (wrote taken ∷ []) k.sent;
              left = k.left;
            } in
            elim (Bool-cases (readable_bytes out == 0)) [
              | inl all ↦
                  let done : some (all_sent next) ≡ some w' = simp (got, all) at e in
                  subst (IsSending f) {x = all_sent next} (cc done) (all_sent-IsSending f next k')
              | inr more ↦
                  let done : some next ≡ some w' = simp (got, more) at e in
                  subst (IsSending f) {x = next} (cc done) k'
            ]
      ]

  write_file-IsSending :
      (f g : SendFile) (w : World C) (r : IoResult)
      → w.conn.send_file ≡ some g
      → FileAnswers r g.send_len
      → IsSending f w
      → IsSending f (write_file w g r)
  unfolding write_file spans
  write_file-IsSending f g w (error x) h a k = emit-IsSending f w (logged_error ∷ []) (λ n. refl) k
  write_file-IsSending f g w (count zero) h a k =
      emit-IsSending f w (logged_error ∷ []) (λ n. refl) k
  write_file-IsSending f g w (count (suc m)) h a k =
      let (fd, from, total) = subst (λ o. Left f o k.at) h k.left in
      let here : (g.in_fd == f.in_fd && g.offset == f.offset + k.at + k.at) ≡ true =
        ground (arith, fd, from) in
      let sent : spans f.in_fd f.offset 0 (w.effects ++ (sent_file g.in_fd g.offset (suc m) ∷ []))
          ≡ some (k.at + suc m) =
        spans-append f.in_fd f.offset 0 k.at w.effects (sent_file g.in_fd g.offset (suc m) ∷ [])
          k.sent
        ∙ simp here refl in
      elim (Bool-cases (g.send_len - suc m == 0)) [
        | inl all ↦ rw all (
            all_sent-IsSending f
              (with_conn (emit w (sent_file g.in_fd g.offset (suc m) ∷ []))
                (record w.conn { send_file = none }))
              (record { at = k.at + suc m; sent = sent; left = ground (arith, all, total, a) }))
        | inr more ↦ rw more (record {
          at = k.at + suc m;
          sent = sent;
          left = (fd, omega (arith, from), omega (arith, total, a));
        })
      ]

  handle_write-IsSending :
      (f : SendFile) (w w' : World C) (r s : IoResult)
      → FileAnswers s (file_left w.conn.send_file)
      → IsSending f w
      → handle_write w r s ≡ some w'
      → IsSending f w'
  unfolding handle_write
  handle_write-IsSending f w w' r s a k e = elim (Bool-cases (writing w)) [
    | inr idle ↦
        let same : some w ≡ some w' = simp idle at e in subst (IsSending f) {x = w} (cc same) k
    | inl on ↦ elim (Bool-cases (ltb 0 (readable_bytes w.conn.output_buffer))) [
      | inl more ↦ write_output-IsSending f w w' r k (simp (on, more) at e)
      | inr empty ↦
          let done : some (write_pending_file w w.conn.send_file s) ≡ some w' =
            simp (on, empty) at e in
          subst (IsSending f) {x = write_pending_file w w.conn.send_file s} (cc done)
            (pending w.conn.send_file refl a)
    ]
  ]
    where
      pending :
          (o : Option SendFile)
          → w.conn.send_file ≡ o
          → FileAnswers s (file_left o)
          → IsSending f (write_pending_file w o s)
      pending none h b = unfold write_pending_file in k
      pending (some g) h b = unfold write_pending_file in write_file-IsSending f g w s h b k

  -- One event after the other.
  unfoldable pub write_all : World C → List Writable → Option (World C)
  write_all w [] = some w
  write_all w (a ∷ as') =
      handle_write w (a.write (readable_bytes w.conn.output_buffer))
        (a.send (file_left w.conn.send_file))
      >>= λ w'. write_all w' as'

  -- A connection with a valid output buffer, of which each part of its file was taken at twice the
  -- bytes sent before it, while these and what is left are as many as the file has. Any run of
  -- writable events, with answers that count no more than was given and no fault of `write`,
  -- succeeds, and so it stays: a file that goes in one part is sent from its start, behind a part of
  -- n bytes the next n bytes of the file are left out, and the file is given up only when as many
  -- bytes were sent as it has.
  pub write_all-IsSending :
      (f : SendFile) (w : World C) (as' : List Writable)
      → IsValid w.conn.output_buffer
      → IsSending f w
      → All Behaves as'
      → (w' : World C) × (write_all w as' ≡ some w') × IsSending f w'
  unfolding write_all
  write_all-IsSending f w [] v k b = (w, refl, k)
  write_all-IsSending f w (a ∷ as') v k b =
      let r = a.write (readable_bytes w.conn.output_buffer) in
      let s = a.send (file_left w.conn.send_file) in
      let (w1, e, v1, _) = handle_write_lem w r s v (b.0.0 (readable_bytes w.conn.output_buffer)) in
      let k1 = handle_write-IsSending f w w1 r s (b.0.1 (file_left w.conn.send_file)) k e in
      let (w2, e', k2) = write_all-IsSending f w1 as' v1 k1 b.1 in
      (w2, ap (λ o. o >>= λ w'. write_all w' as') e ∙ e', k2)

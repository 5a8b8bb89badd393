-- ===== src/Net/Connection/Session/Effects.antt =====
-- What a send and `handleWrite` leave alone, and where they shut the write side.
use ssxrver.Prelude.{
  ℕ, zero, suc, ◌-◌, ◌≡◌, refl, sym, ap, ◌∙◌, ◌⊎◌, inl, inr, Bool, true, false, not, ◌&&◌, ◌||◌,
  none, some, List, [], ◌∷◌, ◌++◌, append-nil, arith, ltb, ◌==◌, if◌then◌else◌, Bool-cases,
  Option-cases, length, take, drop,
}
use mathlib.Core.Path.{subst}
use ssxrver.Net.Buffer.{append, retrieve, contents, readable_bytes}
use ssxrver.Net.Connection.{
  World, IoResult, error, count, Written, Effect, wrote, queued_write_complete, shut_write,
  logged_error, file_part, finish_send, send_in_loop, write_directly, nothing_written, emit,
  writing, is_disconnected, is_disconnecting, no_file_left, shutdown_in_loop, when, with_conn,
  is_logged,
}
use ssxrver.Net.Connection.Handlers.{handle_write, write_output, write_pending_file, all_sent}
use ssxrver.Net.Connection.Session.{is_shut, has_shut}

pub has_shut-append :
    (xs ys : List Effect) → has_shut ys ≡ false → has_shut (xs ++ ys) ≡ has_shut xs
unfolding has_shut
has_shut-append [] ys h = h
has_shut-append (e ∷ xs) ys h = ap (◌||◌ (is_shut e)) (has_shut-append xs ys h)

module _ {C : Type 0} where
  -- What a send leaves alone.
  pub record Steady (w w' : World C) : Type 0 where
    pub state : w'.conn.state ≡ w.conn.state
    pub notifies : w'.conn.notifies ≡ w.conn.notifies
    pub file : w'.conn.send_file ≡ w.conn.send_file
    pub shut : has_shut w'.effects ≡ has_shut w.effects

  direct-shut :
      (w : World C) (bytes : List ℕ) (r : IoResult)
      → has_shut (write_directly w bytes r).done ≡ false
  unfolding write_directly has_shut
  direct-shut w bytes (count n) =
      by_told (length bytes - n == 0 && w.conn.notifies && no_file_left w.conn.send_file)
    where
      by_told : (b : Bool) → has_shut (when b queued_write_complete) ≡ false
      by_told true = refl
      by_told false = refl
  direct-shut w bytes (error e) = by_logged (is_logged e)
    where
      by_logged : (b : Bool) → has_shut (when b logged_error) ≡ false
      by_logged true = refl
      by_logged false = refl

  finish_send-Steady :
      (w w' : World C) (bytes : List ℕ) (d : Written) (r : IoResult)
      → w.conn.send_file ≡ none
      → finish_send w bytes d r ≡ some w'
      → Steady w w'
  unfolding finish_send file_part
  finish_send-Steady w w' bytes d r n e =
      elim (Bool-cases (not d.fault && ltb 0 (length bytes - d.nwrote))) [
        | inr file ↦
            let same : some w ≡ some w' = simp (file, n) at e in
            subst (Steady w) {x = w} (cc same)
              (record { state = refl; notifies = refl; file = refl; shut = refl })
        | inl queue ↦
            elim (Option-cases (
              append w.conn.output_buffer (take (length bytes - d.nwrote) (drop d.nwrote bytes)))) [
                | inl stop ↦ absurd (ground (arith, queue, stop, e))
                | inr (out, go) ↦ record {
                  state = ground (arith, queue, go, e);
                  notifies = ground (arith, queue, go, e);
                  file = ground (arith, queue, go, e);
                  shut = ground (arith, queue, go, e);
                }
              ]
      ]

  pub send_in_loop-Steady :
      (w w' : World C) (bytes : List ℕ) (r f : IoResult)
      → w.conn.send_file ≡ none
      → is_disconnected w.conn.state ≡ false
      → send_in_loop w bytes r f ≡ some w'
      → Steady w w'
  unfolding send_in_loop
  send_in_loop-Steady w w' bytes r f n up e =
      elim (Bool-cases (not (writing w) && readable_bytes w.conn.output_buffer == 0)) [
        | inl direct ↦
            let d = write_directly w bytes r in
            let k =
              finish_send-Steady (emit w d.done) w' bytes d f n (ground (arith, direct, up, e)) in
            record {
              state = k.state;
              notifies = k.notifies;
              file = k.file;
              shut = k.shut ∙ has_shut-append w.effects d.done (direct-shut w bytes r);
            }
        | inr later ↦
            let k =
              finish_send-Steady (emit w []) w' bytes nothing_written f n
                (ground (arith, later, up, e)) in
            record {
              state = k.state;
              notifies = k.notifies;
              file = k.file;
              shut = k.shut ∙ ap has_shut (append-nil w.effects);
            }
      ]

  -- What `handleWrite` leaves alone, and that it shuts the write side only where that is asked for.
  pub record Drains (w w' : World C) : Type 0 where
    pub state : w'.conn.state ≡ w.conn.state
    pub notifies : w'.conn.notifies ≡ w.conn.notifies
    pub file : w'.conn.send_file ≡ w.conn.send_file
    pub shut :
        has_shut w'.effects ≡ true
        → (has_shut w.effects ≡ true)
          ⊎ ((is_disconnecting w.conn.state ≡ true) × (readable_bytes w'.conn.output_buffer ≡ 0))

  -- The write side is shut where the connection goes down, unless it is still watched for writing.
  shutdown-Drains :
      (w t : World C) (b : Bool)
      → (b ≡ true → is_disconnecting w.conn.state ≡ true)
      → readable_bytes t.conn.output_buffer ≡ 0
      → Steady w t
      → Drains w (if b then shutdown_in_loop t else t)
  unfolding shutdown_in_loop
  shutdown-Drains w t false down empty k = record {
    state = k.state;
    notifies = k.notifies;
    file = k.file;
    shut = λ e. inl (sym k.shut ∙ e);
  }
  shutdown-Drains w t true down empty k = by_mask (writing t)
    where
      by_mask : (m : Bool) → Drains w (if m then t else emit t (shut_write t.conn.sock_fd ∷ []))
      by_mask true = record {
        state = k.state;
        notifies = k.notifies;
        file = k.file;
        shut = λ e. inl (sym k.shut ∙ e);
      }
      by_mask false = record {
        state = k.state;
        notifies = k.notifies;
        file = k.file;
        shut = λ e. inr (down refl, empty);
      }

  all_sent-Drains :
      (w u : World C)
      → u.conn.notifies ≡ false
      → readable_bytes u.conn.output_buffer ≡ 0
      → Steady w u
      → Drains w (all_sent u)
  unfolding all_sent
  all_sent-Drains w u quiet empty k =
      shutdown-Drains w _ (is_disconnecting u.conn.state)
        (λ e. sym (ap is_disconnecting k.state) ∙ e) empty
        (record {
          state = k.state;
          notifies = k.notifies;
          file = k.file;
          shut = has_shut-append u.effects _ (nothing_told u.conn.notifies quiet) ∙ k.shut;
        })
    where
      nothing_told : (b : Bool) → b ≡ false → has_shut (when b queued_write_complete) ≡ false
      nothing_told b e =
          ap (λ c. has_shut (when c queued_write_complete)) e ∙ (unfold has_shut in refl)

  Steady-Drains : (w w' : World C) → Steady w w' → Drains w w'
  Steady-Drains w w' k = record {
    state = k.state;
    notifies = k.notifies;
    file = k.file;
    shut = λ e. inl (sym k.shut ∙ e);
  }

  -- Effects that do not shut.
  emit-Steady : (w : World C) (es : List Effect) → has_shut es ≡ false → Steady w (emit w es)
  emit-Steady w es h = record {
    state = refl;
    notifies = refl;
    file = refl;
    shut = has_shut-append w.effects es h;
  }

  write_output-Drains :
      (w w' : World C) (r : IoResult)
      → w.conn.notifies ≡ false
      → write_output w r ≡ some w'
      → Drains w w'
  unfolding write_output has_shut
  write_output-Drains w w' (error x) quiet e =
      subst (Drains w) {x = emit w (logged_error ∷ [])} (cc e)
        (Steady-Drains w _ (emit-Steady w (logged_error ∷ []) refl))
  write_output-Drains w w' (count zero) quiet e =
      subst (Drains w) {x = emit w (wrote [] ∷ logged_error ∷ [])} (cc e)
        (Steady-Drains w _ (emit-Steady w (wrote [] ∷ logged_error ∷ []) refl))
  write_output-Drains w w' (count (suc n)) quiet e =
      elim (Option-cases (retrieve w.conn.output_buffer (suc n))) [
        | inl short ↦ absurd (ground (arith, short, e))
        | inr (out, got) ↦
            let taken = take (suc n) (contents w.conn.output_buffer) in
            let next =
              emit (with_conn w (record w.conn { output_buffer = out })) (wrote taken ∷ []) in
            let k : Steady w next = record {
              state = refl;
              notifies = refl;
              file = refl;
              shut = has_shut-append w.effects (wrote taken ∷ []) refl;
            } in
            elim (Bool-cases (readable_bytes out == 0)) [
              | inl all ↦
                  let done : some (all_sent next) ≡ some w' = simp (got, all) at e in
                  subst (Drains w) {x = all_sent next} (cc done)
                    (all_sent-Drains w next quiet (ground (arith, all)) k)
              | inr more ↦
                  let done : some next ≡ some w' = simp (got, more) at e in
                  subst (Drains w) {x = next} (cc done) (Steady-Drains w next k)
            ]
      ]

  pub handle_write-Drains :
      (w w' : World C) (r f : IoResult)
      → w.conn.notifies ≡ false
      → w.conn.send_file ≡ none
      → handle_write w r f ≡ some w'
      → Drains w w'
  unfolding handle_write write_pending_file
  handle_write-Drains w w' r f quiet n e = elim (Bool-cases (writing w)) [
    | inr idle ↦
        let same : some w ≡ some w' = simp idle at e in
        subst (Drains w) {x = w} (cc same) (Steady-Drains w w nothing)
    | inl on ↦ elim (Bool-cases (ltb 0 (readable_bytes w.conn.output_buffer))) [
      | inl more ↦ write_output-Drains w w' r quiet (simp (on, more) at e)
      | inr empty ↦
          let same : some w ≡ some w' = simp (on, empty, n) at e in
          subst (Drains w) {x = w} (cc same) (Steady-Drains w w nothing)
    ]
  ]
    where
      nothing : Steady w w
      nothing = record { state = refl; notifies = refl; file = refl; shut = refl }

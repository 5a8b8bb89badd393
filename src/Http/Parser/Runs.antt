-- ===== src/Http/Parser/Runs.antt =====
-- What runs of the request parser leave: the unread bytes, and the error number.
use ssxrver.Prelude.{
  ℕ, ◌+◌, ◌≤◌, ◌≡◌, refl, ◌≢◌, inl, inr, true, some, List, [], ◌∷◌, arith, Bool-cases, Option-cases,
  length, drop, same,
}
use ssxrver.Net.Buffer.{Buffer, contents, retrieve_until}
use ssxrver.Net.Buffer.Views.{IsValid, length-contents}
use ssxrver.Net.Buffer.Fifo.{retrieve_lem, retrieve_until_lem}
use ssxrver.Http.Parser.{
  Event, request_method, uri, fragment, request_path, query_string, http_version, header_done,
  http_field, Engine, RequestParser, unfinished, is_unfinished, call_back, call_all, has_error,
  execute, reset, on_request_method, on_request_version, on_request_http_field, is_finished,
}

module _ {P : Type 0} where
  call_back-error :
      (p p' : RequestParser P) (e : Event) → call_back p e ≡ some p' → p.error ≢ 0 → p'.error ≢ 0
  unfolding call_back on_request_method on_request_version on_request_http_field
  call_back-error p p' (request_method at) h k = ground arith
  call_back-error p p' (uri at) h k = ground arith
  call_back-error p p' (fragment at) h k = ground arith
  call_back-error p p' (request_path at) h k = ground arith
  call_back-error p p' (query_string at) h k = ground arith
  call_back-error p p' (http_version at) h k = ground arith
  call_back-error p p' (header_done at) h k = ground arith
  call_back-error p p' (http_field [] value) h k = ground arith
  call_back-error p p' (http_field (c ∷ field) value) h k = ground arith

  call_all-error :
      (p p' : RequestParser P) (es : List Event)
      → call_all p es ≡ some p'
      → p.error ≢ 0
      → p'.error ≢ 0
  unfolding call_all
  call_all-error p p' [] h k = ground arith
  call_all-error p p' (e ∷ es) h k = elim (Option-cases (call_back p e)) [
    | inl stop ↦ absurd (ground (arith, stop, h))
    | inr (q, go) ↦ call_all-error q p' es (ground (arith, go, h)) (call_back-error p q e go k)
  ]

module _ {P : Type 0} (engine : Engine P) where
  -- A parser whose error number was set reports an error ever after: neither a further run nor the
  -- reset between two requests, or between two connections, clears it.
  pub execute_reset-has_error :
      (p p' : RequestParser P) (data' rest : Buffer) (n : ℕ)
      → p.error ≢ 0
      → execute engine p data' ≡ some (p', rest, n)
      → (has_error engine p' ≡ true) × (has_error engine (reset engine p') ≡ true)
  unfolding execute has_error reset
  execute_reset-has_error p p' data' rest n k e = let k' = kept in (ground arith, ground arith)
    where
      q : P × ℕ × List Event
      q = engine.execute p.parser (contents data')

      kept : p'.error ≢ 0
      kept = elim (Bool-cases (is_unfinished (is_finished engine p))) [
        | inr idle ↦ ground (arith, idle, e, k)
        | inl busy ↦ elim (Option-cases (call_all (record p { parser = q.0 }) q.2)) [
          | inl stop ↦ absurd (ground (arith, busy, stop, e))
          | inr (r, go) ↦ elim (Option-cases (retrieve_until data' (data'.reader_index + q.1))) [
            | inl stop ↦ absurd (ground (arith, busy, go, stop, e))
            | inr (b, on) ↦
                let k'' = call_all-error (record p { parser = q.0 }) r q.2 go k in
                ground (arith, busy, go, on, e, k'')
          ]
        ]
      ]

  -- Where the automaton has not finished and uses no more bytes than it is given, a run whose
  -- callbacks pass their assertions takes just the bytes used off a valid buffer.
  pub execute_lem :
      (p p' : RequestParser P) (data' : Buffer)
      → IsValid data'
      → let (parser, offset, events) = engine.execute p.parser (contents data') in
        (offset ≤ length (contents data'))
        → engine.finish p.parser ≡ unfinished
        → call_all (record p { parser = parser }) events ≡ some p'
        → (rest : Buffer) × (execute engine p data' ≡ some (p', rest, offset))
          × IsValid rest
          × (contents rest ≡ drop offset (contents data'))
  unfolding execute
  execute_lem p p' data' v h f go =
      let n = (engine.execute p.parser (contents data')).1 in
      let (rest, e, ok, same) =
        retrieve_lem data' n v (omega (arith, h, length-contents data' v)) in
      (
        rest,
        rw (f, go, retrieve_until_lem data' n v (omega (arith, h, length-contents data' v)), e)
            refl,
        ok,
        same,
      )

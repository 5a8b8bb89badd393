-- ===== src/Http/Response/Framing.antt =====
-- The bytes of a response, in one piece.
use mathlib.Core.Path.{subst}
use ssxrver.Net.Connection.{SendFile}
use ssxrver.Prelude.{
  ℕ, ◌≡◌, refl, sym, ap, ◌∙◌, Bool, true, false, Option, some, List, [], ◌∷◌, ◌++◌, append-nil,
  append_assoc, if◌then◌else◌, ◌>>=◌, codes, length, decimal, take, ◌+◌, ◌-◌, ◌^◌, ◌%◌, ltb, none,
}
use ssxrver.Http.Response.Headers.{IsAscending, add_all, add_all-IsAscending}
use ssxrver.Net.Buffer.{Buffer, append, contents}
use ssxrver.Net.Buffer.Views.{IsValid}
use ssxrver.Net.Buffer.Fifo.{append_lem}
use ssxrver.Http.Response.{
  Response, crlf, status_start, length_line, append_headers, append_connection, append_to_buffer,
  file_length,
}

-- A step that never aborts on a valid buffer, and puts `piece` behind the bytes held.
Puts : (Buffer → Option Buffer) → List ℕ → Type 0
Puts f piece =
    (b : Buffer)
    → IsValid b
    → (b' : Buffer) × (f b ≡ some b') × IsValid b' × (contents b' ≡ contents b ++ piece)

append-Puts : (piece : List ℕ) → Puts (λ b. append b piece) piece
unfolding Puts
append-Puts piece b v = append_lem b piece v

then-Puts :
    (f g : Buffer → Option Buffer) (piece more : List ℕ)
    → Puts f piece
    → Puts g more
    → Puts (λ b. f b >>= g) (piece ++ more)
unfolding Puts
then-Puts f g piece more h k b v =
    let (b1, e, v1, s) = h b v in
    let (b2, e', v2, s') = k b1 v1 in
    (b2, rw e e', v2, s' ∙ ap (λ t. t ++ more) s ∙ append_assoc (contents b) piece more)

abbrev pub header_lines : List (List ℕ × List ℕ) → List ℕ
header_lines [] = []
header_lines ((key, value) ∷ hs) = key ++ (codes ": " ++ (value ++ (crlf ++ header_lines hs)))

append_headers-Puts :
    (hs : List (List ℕ × List ℕ)) → Puts (λ b. append_headers b hs) (header_lines hs)
unfolding append_headers Puts
append_headers-Puts [] = skip
  where
    skip : Puts some []
    skip b v = (b, refl, v, sym (append-nil (contents b)))
append_headers-Puts ((key, value) ∷ hs) = then-Puts _ _ key _ (append-Puts key) (
    then-Puts _ _ (codes ": ") _ (append-Puts (codes ": ")) (
      then-Puts _ _ value _ (append-Puts value)
        (then-Puts _ _ crlf _ (append-Puts crlf) (append_headers-Puts hs))))

abbrev pub connection_lines : Response → List ℕ
connection_lines r =
    if r.close_connection
    then codes "Connection: close" ++ crlf
    else length_line r ++ (codes "Connection: Keep-Alive" ++ crlf)

append_connection-Puts : (r : Response) → Puts (append_connection r) (connection_lines r)
unfolding append_connection
append_connection-Puts r = by_flag r.close_connection
  where
    by_flag :
        (close : Bool)
        → Puts
            (λ out.
              if close
              then append out (codes "Connection: close" ++ crlf)
              else (append out (length_line r) >>= λ out1.
                  append out1 (codes "Connection: Keep-Alive" ++ crlf)))
            (if close
              then codes "Connection: close" ++ crlf
              else length_line r ++ (codes "Connection: Keep-Alive" ++ crlf))
    by_flag true = append-Puts (codes "Connection: close" ++ crlf)
    by_flag false =
        then-Puts _ _ (length_line r) _ (append-Puts (length_line r))
          (append-Puts (codes "Connection: Keep-Alive" ++ crlf))

-- The length of the body and the file, as a 64-bit number that is read with a sign.
abbrev pub length_text : Response → List ℕ
length_text r =
    let n = (length r.body + elim r.file [ none ↦ 0 | some f ↦ f.send_len ]) % 2 ^ 64 in
    if ltb n (2 ^ 63) then decimal n else codes "-" ++ decimal (2 ^ 64 - n)

abbrev pub connection_text : Response → List ℕ
connection_text r =
    if r.close_connection
    then codes "Connection: close" ++ crlf
    else take 31 (codes "Content-Length: " ++ length_text r ++ crlf)
      ++ (codes "Connection: Keep-Alive" ++ crlf)

length_line_lem :
    (r : Response) → length_line r ≡ take 31 (codes "Content-Length: " ++ length_text r ++ crlf)
unfolding length_line
length_line_lem r = by_file r.file
  where
    line : ℕ → List ℕ
    line k =
        let n = (length r.body + k) % 2 ^ 64 in
        take 31 (
          codes "Content-Length: "
          ++ (if ltb n (2 ^ 63) then decimal n else codes "-" ++ decimal (2 ^ 64 - n))
          ++ crlf)

    by_file :
        (o : Option SendFile)
        → line (file_length o) ≡ line (elim o [ none ↦ 0 | some f ↦ f.send_len ])
    by_file none = refl
    by_file (some f) = refl

connection_text_lem : (r : Response) → connection_lines r ≡ connection_text r
connection_text_lem r =
    ap
      (λ l.
        if r.close_connection
        then codes "Connection: close" ++ crlf
        else l ++ (codes "Connection: Keep-Alive" ++ crlf))
      (length_line_lem r)

pub appended :
    (r : Response) (out : Buffer)
    → IsValid out
    → (out' : Buffer) × (append_to_buffer r out ≡ some out')
      × IsValid out'
      × (contents out'
          ≡ contents out
            ++ (status_start r
                ++ (r.status_message
                    ++ (crlf
                        ++ (connection_lines r ++ (header_lines r.headers ++ (crlf ++ r.body)))))))
unfolding append_to_buffer Puts
appended r = then-Puts _ _ (status_start r) _ (append-Puts (status_start r)) (
    then-Puts _ _ r.status_message _ (append-Puts r.status_message) (
      then-Puts _ _ crlf _ (append-Puts crlf) (
        then-Puts _ _ (connection_lines r) _ (append_connection-Puts r) (
          then-Puts _ _ (header_lines r.headers) _ (append_headers-Puts r.headers)
            (then-Puts _ _ crlf _ (append-Puts crlf) (append-Puts r.body))))))

-- On a valid buffer `appendToBuffer` of a response to which headers were added never aborts and puts
-- behind the bytes held: the status line, of which the part before the message is cut to 31 bytes;
-- the connection's line, and where it stays open the length of the body with the file before it;
-- each header, in the order of the keys' bytes and each key once; an empty line; and the body.
pub append_to_buffer_lem :
    (r : Response) (adds : List (List ℕ × List ℕ)) (out : Buffer)
    → r.headers ≡ []
    → IsValid out
    → let full = add_all r adds in
      IsAscending full.headers
      × (out' : Buffer) × (append_to_buffer full out ≡ some out')
      × IsValid out'
      × (contents out'
          ≡ contents out
            ++ (take 31 (codes "HTTP/1.1 " ++ decimal full.status_code ++ codes " ")
                ++ (full.status_message
                    ++ (crlf
                        ++ (connection_text full
                            ++ (header_lines full.headers ++ (crlf ++ full.body)))))))
unfolding status_start
append_to_buffer_lem r adds out fresh v =
    let full = add_all r adds in
    let (out', run, v', text) = appended full out v in
    (
      add_all-IsAscending r adds (subst IsAscending (sym fresh) tt),
      out',
      run,
      v',
      text
          ∙ ap
              (λ l.
                contents out
                ++ (status_start full
                    ++ (full.status_message
                        ++ (crlf ++ (l ++ (header_lines full.headers ++ (crlf ++ full.body)))))))
              (connection_text_lem full),
    )

-- ===== src/Http/Response.antt =====
-- http/HttpResponse.h and http/HttpResponse.cpp.
--
-- The file of a response is its `SendFile`, of which the length counts here. `none` is an abort.
pub mod Headers
pub mod Framing
use ssxrver.Prelude.{
  ℕ, zero, suc, ◌+◌, ◌-◌, ◌*◌, ◌/◌, ◌%◌, ◌^◌, ◌≤◌, ◌<◌, min, ◌≡◌, refl, sym, ap, ◌∙◌, ◌≢◌, ◌↔◌, ◌⊎◌,
  inl, inr, Bool, true, false, not, ◌&&◌, ◌||◌, Option, none, some, List, [], ◌∷◌, ◌++◌, map,
  append-nil, append_assoc, arith, ltb, leb, ◌==◌, if◌then◌else◌, ltb→lt, lt→ltb, leb→le, ==_iff,
  tests, Bool-cases, Option-cases, length, get_elem?, set, length-append, length-set,
  get_elem?-set_self, get_elem?-set_ne, get_or, take, drop, replicate, take-append-drop,
  length-take, length-drop, length-replicate, length-map, take-append, drop-append, take_all,
  drop_all, drop-drop, drop-take, take-take, select, All, All-append, All-map, ◌>>=◌, ◌>>◌, assert,
  codes, same, strncmp_equal, c_str, value_from, decimal_onto, decimal,
}
use ssxrver.Net.Buffer.{Buffer, append}
use ssxrver.Net.Connection.{SendFile}

pub record Response : Type 0 where
  pub file : Option SendFile
  pub headers : List (List ℕ × List ℕ)
  pub status_code : ℕ
  pub status_message : List ℕ
  pub close_connection : Bool
  pub body : List ℕ

abbrev pub empty_response : Response
empty_response = record {
  file = none;
  headers = [];
  status_code = 0;
  status_message = [];
  close_connection = false;
  body = [];
}

unfoldable pub swap : Response → Response → Response × Response
swap r that = (that, r)

abbrev is_empty : List ℕ → Bool
is_empty [] = true
is_empty (c ∷ cs) = false

unfoldable pub set_close : Response → List ℕ → Response
set_close r connection = record r {
  close_connection = same connection (codes "close") || is_empty connection;
}

unfoldable pub set_status_code : Response → ℕ → Response
set_status_code r code = record r { status_code = code }

unfoldable pub set_status_message : Response → List ℕ → Response
set_status_message r message = record r { status_message = message }

unfoldable pub set_close_connection : Response → Bool → Response
set_close_connection r on = record r { close_connection = on }

-- `std::less` on texts: the order of their bytes.
abbrev pub less : List ℕ → List ℕ → Bool
less xs [] = false
less [] (y ∷ ys) = true
less (x ∷ xs) (y ∷ ys) = ltb x y || x == y && less xs ys

-- `insert` of a `std::map`, which is a list in the order of the keys. A key that is there keeps its
-- value.
unfoldable pub insert : List (List ℕ × List ℕ) → List ℕ → List ℕ → List (List ℕ × List ℕ)
insert [] key value = (key, value) ∷ []
insert ((k, v) ∷ hs) key value =
    let rest = insert hs key value in
    if less key k
    then (key, value) ∷ (k, v) ∷ hs
    else if less k key
    then (k, v) ∷ rest
    else (k, v) ∷ hs

unfoldable pub add_header : Response → List ℕ → List ℕ → Response
unfolding insert
add_header r key value = record r { headers = insert r.headers (c_str key) (c_str value) }

unfoldable pub set_content_type : Response → List ℕ → Response
unfolding add_header
set_content_type r content_type = add_header r (codes "Content-Type") content_type

unfoldable pub set_body : Response → List ℕ → Response
set_body r body = record r { body = body }

-- The file as opened is an argument.
unfoldable pub set_file : Response → SendFile → Response
set_file r file = record r { file = some file }

-- `getFile` moves the file out.
unfoldable pub get_file : Response → Option SendFile × Response
get_file r = (r.file, record r { file = none })

abbrev pub crlf : List ℕ
crlf = 13 ∷ 10 ∷ []

-- What `snprintf` leaves in `char buf[32]`.
unfoldable pub status_start : Response → List ℕ
status_start r = take 31 (codes "HTTP/1.1 " ++ decimal r.status_code ++ codes " ")

abbrev pub file_length : Option SendFile → ℕ
file_length none = 0
file_length (some f) = f.send_len

-- `%zd` reads the 64 bits of a `size_t` with a sign.
abbrev pub signed_decimal : ℕ → List ℕ
signed_decimal n = if ltb n (2 ^ 63) then decimal n else codes "-" ++ decimal (2 ^ 64 - n)

-- The sum is a `size_t`.
unfoldable pub length_line : Response → List ℕ
length_line r = take 31 (
    codes "Content-Length: "
    ++ signed_decimal ((length r.body + file_length r.file) % 2 ^ 64)
    ++ crlf)

unfoldable pub append_headers : Buffer → List (List ℕ × List ℕ) → Option Buffer
append_headers out [] = some out
append_headers out ((key, value) ∷ hs) = do
  out1 ← append out key
  out2 ← append out1 (codes ": ")
  out3 ← append out2 value
  out4 ← append out3 crlf
  append_headers out4 hs

unfoldable pub append_connection : Response → Buffer → Option Buffer
unfolding length_line
append_connection r out =
    if r.close_connection then append out (codes "Connection: close" ++ crlf) else (do
      out1 ← append out (length_line r)
      append out1 (codes "Connection: Keep-Alive" ++ crlf))

unfoldable pub append_to_buffer : Response → Buffer → Option Buffer
unfolding status_start append_connection append_headers
append_to_buffer r out = do
  out1 ← append out (status_start r)
  out2 ← append out1 r.status_message
  out3 ← append out2 crlf
  out4 ← append_connection r out3
  out5 ← append_headers out4 r.headers
  out6 ← append out5 crlf
  append out6 r.body

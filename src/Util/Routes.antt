-- ===== src/Util/Routes.antt =====
-- util/Init.cpp: `message`, the answers of the server.
--
-- What `favicon.inc` includes, and the file that `./html/index.html` opens, are arguments.
use ssxrver.Prelude.{
  ℕ, ◌≡◌, refl, Bool, true, false, ◌||◌, none, List, [], ◌∷◌, ◌++◌, arith, if◌then◌else◌, codes,
  same,
}
use ssxrver.Net.Connection.{SendFile}
use ssxrver.Http.Request.{Request}
use ssxrver.Http.Response.{
  Response, empty_response, set_close, set_status_code, set_status_message, set_content_type,
  add_header, set_body, set_file, set_close_connection,
}

-- A page's status and headers; the icon has no header of the server.
abbrev ok_with : Response → List ℕ → Response
ok_with resp content_type =
    set_content_type (set_status_message (set_status_code resp 200) (codes "OK")) content_type

abbrev signed : Response → Response
signed resp = add_header resp (codes "Server") (codes "ssxrver")

abbrev pub hello_html : List ℕ
hello_html =
    codes "<html><head_><title>Fast HttpServer</title></head_>"
    ++ codes "<body><h1>Hello html</h1></body></html>"

unfoldable pub message : List ℕ → SendFile → Request → Response → Response
message favicon index req resp =
    if same req.path (codes "/")
    then set_body (signed (ok_with resp (codes "text/plain"))) (codes "Hello ssxrver!" ++ (10 ∷ []))
    else (if same req.path (codes "/html")
        then set_body (signed (ok_with resp (codes "text/html"))) hello_html
        else (if same req.path (codes "/index.html")
            then set_file (signed (ok_with resp (codes "text/plain"))) index
            else (if same req.path (codes "/favicon.ico")
                then set_body (ok_with resp (codes "image/png")) favicon
                else set_close_connection
                    (set_status_message (set_status_code resp 404) (codes "Not Found")) true)))

abbrev pub known : List ℕ → Bool
known path =
    same path (codes "/")
    || (same path (codes "/html")
        || (same path (codes "/index.html") || same path (codes "/favicon.ico")))

-- A request for a known path is answered 200, and its connection stays open unless its `Connection`
-- header is `close`, empty or missing; for any other path it is answered 404 without a header, a body or a
-- file, and the connection is closed.
pub message_lem :
    (favicon : List ℕ) (index : SendFile) (req : Request) (connection : List ℕ)
    → let r = message favicon index req (set_close empty_response connection) in
      ((known req.path ≡ true)
        → (r.status_code ≡ 200)
          × (r.close_connection ≡ (set_close empty_response connection).close_connection))
      × ((known req.path ≡ false)
          → (r.status_code ≡ 404)
            × (r.close_connection ≡ true)
            × (r.headers ≡ [])
            × (r.body ≡ [])
            × (r.file ≡ none))
unfolding message set_close set_status_code set_status_message set_content_type add_header set_body
    set_file set_close_connection
message_lem favicon index req connection =
    by_path (same req.path (codes "/")) (same req.path (codes "/html"))
      (same req.path (codes "/index.html")) (same req.path (codes "/favicon.ico"))
  where
    r0 : Response
    r0 = set_close empty_response connection

    routed : Bool → Bool → Bool → Bool → Response
    routed a b c d =
        if a
        then set_body (signed (ok_with r0 (codes "text/plain")))
            (codes "Hello ssxrver!" ++ (10 ∷ []))
        else (if b
            then set_body (signed (ok_with r0 (codes "text/html"))) hello_html
            else (if c
                then set_file (signed (ok_with r0 (codes "text/plain"))) index
                else (if d
                    then set_body (ok_with r0 (codes "image/png")) favicon
                    else set_close_connection
                        (set_status_message (set_status_code r0 404) (codes "Not Found")) true)))

    by_path :
        (a b c d : Bool)
        → ((a || (b || (c || d)) ≡ true)
            → ((routed a b c d).status_code ≡ 200)
              × ((routed a b c d).close_connection ≡ r0.close_connection))
          × ((a || (b || (c || d)) ≡ false)
              → ((routed a b c d).status_code ≡ 404)
                × ((routed a b c d).close_connection ≡ true)
                × ((routed a b c d).headers ≡ [])
                × ((routed a b c d).body ≡ [])
                × ((routed a b c d).file ≡ none))
    by_path true b c d = (λ _. (refl, refl), λ e. absurd (ground (arith, e)))
    by_path false true c d = (λ _. (refl, refl), λ e. absurd (ground (arith, e)))
    by_path false false true d = (λ _. (refl, refl), λ e. absurd (ground (arith, e)))
    by_path false false false true = (λ _. (refl, refl), λ e. absurd (ground (arith, e)))
    by_path false false false false =
        (λ e. absurd (ground (arith, e)), λ _. (refl, refl, refl, refl, refl))

-- ===== src/Http/Request.antt =====
-- http/HttpRequest.h.
--
-- Texts are lists of bytes. `std::map` is an association list in which the first entry of a key
-- counts, since `insert` never replaces. `none` is an abort by a failed assertion. What
-- `boost::lexical_cast` makes of a value is an argument of `get_header`.
use mathlib.Core.Path.{subst}
use ssxrver.Prelude.{
  ℕ, ◌≡◌, refl, sym, ap, ◌≢◌, ◌↔◌, ◌⊎◌, inl, inr, Bool, true, false, not, Option, none, some, List,
  [], ◌∷◌, ◌++◌, arith, ◌==◌, if◌then◌else◌, Bool-cases, All, ◌>>◌, assert, codes, same,
  strncmp_equal, c_str,
}

pub data Method : Type 0 where
  invalid get head post : Method

pub record Request : Type 0 where
  pub method : Method
  pub version : ℕ
  pub path : List ℕ
  pub query : List ℕ
  pub body : List ℕ
  pub headers : List (List ℕ × List ℕ)

abbrev pub empty_request : Request
empty_request = record {
  method = invalid;
  version = 0;
  path = [];
  query = [];
  body = [];
  headers = [];
}

abbrev pub is_invalid : Method → Bool
is_invalid invalid = true
is_invalid get = false
is_invalid head = false
is_invalid post = false

-- The method that `setMethod` makes of the bytes.
unfoldable pub method_of : List ℕ → Method
method_of start =
    if strncmp_equal start (codes "GET")
    then get
    else if strncmp_equal start (codes "HEAD")
    then head
    else if strncmp_equal start (codes "POST")
    then post
    else invalid

unfoldable pub set_method : Request → List ℕ → Option (Bool × Request)
unfolding method_of
set_method r start = do
  assert (is_invalid r.method)
  let m = method_of start
  some (not (is_invalid m), record r { method = m })

unfoldable pub version_of : List ℕ → ℕ
version_of start =
    if strncmp_equal start (codes "HTTP/1.1")
    then 17
    else if strncmp_equal start (codes "HTTP/1.0")
    then 16
    else 0

unfoldable pub set_version : Request → List ℕ → Option (Bool × Request)
unfolding version_of
set_version r start = do
  assert (r.version == 0)
  let v = version_of start
  some (not (v == 0), record r { version = v })

unfoldable pub method_string : Request → List ℕ
method_string r = elim r.method [
  | get ↦ codes "GET"
  | head ↦ codes "HEAD"
  | post ↦ codes "POST"
  | invalid ↦ codes "UNKNOWN"
]

unfoldable pub set_path : Request → List ℕ → Request
set_path r start = record r { path = start }

unfoldable pub set_query : Request → List ℕ → Request
set_query r start = record r { query = start }

unfoldable pub add_body : Request → List ℕ → Request
add_body r more = record r { body = r.body ++ more }

unfoldable pub find : List (List ℕ × List ℕ) → List ℕ → Option (List ℕ)
find [] key = none
find ((k, v) ∷ hs) key = if same k key then some v else find hs key

-- `map::insert`.
unfoldable pub insert : List (List ℕ × List ℕ) → List ℕ → List ℕ → List (List ℕ × List ℕ)
insert hs key value = elim (find hs key) [ none ↦ hs ++ ((key, value) ∷ []) | some v ↦ hs ]

-- `key.data()` and `value.data()` are read up to a NUL.
unfoldable pub set_header : Request → List ℕ → List ℕ → Request
unfolding insert
set_header r key value = record r { headers = insert r.headers (c_str key) (c_str value) }

-- A value that is there, read; the default where the text is not one of the type.
abbrev pub cast_or {ℓ} : {T : Type ℓ} → (List ℕ → Option T) → T → Option (List ℕ) → T
cast_or cast def none = def
cast_or cast def (some v) = elim (cast v) [ none ↦ def | some t ↦ t ]

unfoldable pub get_header {ℓ} : {T : Type ℓ} → (List ℕ → Option T) → Request → List ℕ → T → T
get_header cast r key def = cast_or cast def (find r.headers key)

unfoldable pub swap : Request → Request → Request × Request
swap r that = (that, r)

same_refl : (xs : List ℕ) → same xs xs ≡ true
same_refl [] = refl
same_refl (x ∷ xs) = ground (arith, same_refl xs)

find-append :
    (hs : List (List ℕ × List ℕ)) (key value : List ℕ)
    → find hs key ≡ none
    → find (hs ++ ((key, value) ∷ [])) key ≡ some value
unfolding find
find-append [] key value e = rw (same_refl key)
find-append ((k, v) ∷ hs) key value e = elim (Bool-cases (same k key)) [
  | inl here ↦ absurd (ground (arith, here, e))
  | inr there ↦ rw there (find-append hs key value (ground (arith, there, e)))
]

-- What is there already, or else the new value.
abbrev pub or_else : Option (List ℕ) → List ℕ → List ℕ
or_else none value = value
or_else (some v) value = v

find-insert :
    (hs : List (List ℕ × List ℕ)) (key value : List ℕ)
    → find (insert hs key value) key ≡ some (or_else (find hs key) value)
unfolding insert
find-insert hs key value = by_entry (find hs key) refl
  where
    by_entry :
        (o : Option (List ℕ))
        → find hs key ≡ o
        → find (elim o [ none ↦ hs ++ ((key, value) ∷ []) | some v ↦ hs ]) key
          ≡ some (or_else o value)
    by_entry none e = find-append hs key value e
    by_entry (some v) e = e

-- Behind `setHeader`, `getHeader` of the key reads the value set first: the one that was there, or
-- the new one where there was none.
pub get_header-set_header {ℓ} :
    {T : Type ℓ} (cast : List ℕ → Option T) (r : Request) (key value : List ℕ) (def : T)
    → get_header cast (set_header r key value) (c_str key) def
      ≡ cast_or cast def (some (or_else (find r.headers (c_str key)) (c_str value)))
unfolding get_header set_header
get_header-set_header cast r key value def =
    ap (cast_or cast def) (find-insert r.headers (c_str key) (c_str value))

abbrev pub IsPrefix : List ℕ → List ℕ → Type 0
IsPrefix xs ys = (rest : List ℕ) × (ys ≡ xs ++ rest)

strncmp-prefix :
    (xs ys : List ℕ) → All (λ x. x ≢ 0) xs → strncmp_equal xs ys ≡ true → IsPrefix xs ys
strncmp-prefix [] ys h e = (ys, refl)
strncmp-prefix (x ∷ xs) [] h e = absurd (h.0 (ground (arith, e)))
strncmp-prefix (x ∷ xs) (y ∷ ys) h e =
    let (eq, rest) = both in let (more, p) = strncmp-prefix xs ys h.1 rest in (more, cc (eq, p))
  where
    both : (x ≡ y) × (strncmp_equal xs ys ≡ true)
    both = (ground (arith, e), ground (arith, e))

prefix-strncmp : (xs more : List ℕ) → strncmp_equal xs (xs ++ more) ≡ true
prefix-strncmp [] more = refl
prefix-strncmp (x ∷ xs) more = ground (arith, prefix-strncmp xs more)

-- `setMethod` makes a method of bytes without a NUL exactly where they are a beginning of the name of
-- one, be it the whole name or not.
pub method_of-prefix :
    (start : List ℕ)
    → All (λ x. x ≢ 0) start
    → (is_invalid (method_of start) ≡ false) ↔ (
        IsPrefix start (codes "GET")
        ⊎ IsPrefix start (codes "HEAD")
        ⊎ IsPrefix start (codes "POST"))
unfolding method_of
method_of-prefix start h = (
  λ e. elim (Bool-cases (strncmp_equal start (codes "GET"))) [
    | inl a ↦ inl (strncmp-prefix start (codes "GET") h a)
    | inr a ↦ elim (Bool-cases (strncmp_equal start (codes "HEAD"))) [
      | inl b ↦ inr (inl (strncmp-prefix start (codes "HEAD") h b))
      | inr b ↦ elim (Bool-cases (strncmp_equal start (codes "POST"))) [
        | inl c ↦ inr (inr (strncmp-prefix start (codes "POST") h c))
        | inr c ↦ absurd (ground (arith, a, b, c, e))
      ]
    ]
  ],
  λ p. elim p [
    | inl (more, q) ↦ let e = matches (codes "GET") more q in ground (arith, e)
    | inr (inl (more, q)) ↦ let e = matches (codes "HEAD") more q in ground (arith, e)
    | inr (inr (more, q)) ↦ let e = matches (codes "POST") more q in ground (arith, e)
  ],
)
  where
    matches : (lit more : List ℕ) → lit ≡ start ++ more → strncmp_equal start lit ≡ true
    matches lit more q =
        subst (λ v. strncmp_equal start v ≡ true) (sym q) (prefix-strncmp start more)

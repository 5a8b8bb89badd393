-- ===== src/Http/Response/Headers.antt =====
-- http/HttpResponse.h: the map of the headers.
use ssxrver.Http.Response.{Response, add_header, insert, less}
use ssxrver.Prelude.{
  ℕ, ◌≡◌, refl, true, List, [], ◌∷◌, All, All-map, Bool-cases, inl, inr, arith, c_str,
}

-- The keys are in the order of their bytes, each once.
abbrev pub IsAscending : List (List ℕ × List ℕ) → Type 0
IsAscending [] = Unit
IsAscending (h ∷ hs) = All (λ g. less h.0 g.0 ≡ true) hs × IsAscending hs

less_trans : (xs ys zs : List ℕ) → less xs ys ≡ true → less ys zs ≡ true → less xs zs ≡ true
less_trans xs ys [] h k = k
less_trans xs [] (z ∷ zs) h k = absurd (ground (arith, h))
less_trans [] (y ∷ ys) (z ∷ zs) h k = refl
less_trans (x ∷ xs) (y ∷ ys) (z ∷ zs) h k =
    let rest = less_trans xs ys zs in ground (arith, h, k, rest)

insert-All :
    (P : List ℕ × List ℕ → Type 0) (hs : List (List ℕ × List ℕ)) (key value : List ℕ)
    → P (key, value)
    → All P hs
    → All P (insert hs key value)
unfolding insert
insert-All P [] key value h a = (h, tt)
insert-All P ((k, v) ∷ hs) key value h a = elim (Bool-cases (less key k)) [
  | inl before ↦ rw before (h, a)
  | inr later ↦ elim (Bool-cases (less k key)) [
    | inl on ↦ rw (later, on) (a.0, insert-All P hs key value h a.1)
    | inr there ↦ rw (later, there) a
  ]
]

insert-IsAscending :
    (hs : List (List ℕ × List ℕ)) (key value : List ℕ)
    → IsAscending hs
    → IsAscending (insert hs key value)
unfolding insert
insert-IsAscending [] key value a = (tt, tt)
insert-IsAscending ((k, v) ∷ hs) key value a = elim (Bool-cases (less key k)) [
  | inl before ↦ rw before ((before, All-map _ _ (λ g h. less_trans key k g.0 before h) hs a.0), a)
  | inr later ↦ elim (Bool-cases (less k key)) [
    | inl on ↦
        rw (later, on)
          (
            insert-All (λ g. less k g.0 ≡ true) hs key value on a.0,
            insert-IsAscending hs key value a.1,
          )
    | inr there ↦ rw (later, there) a
  ]
]

-- Calls of `addHeader`, one after the other.
unfoldable pub add_all : Response → List (List ℕ × List ℕ) → Response
add_all r [] = r
add_all r ((key, value) ∷ more) = add_all (add_header r key value) more

pub add_all-IsAscending :
    (r : Response) (adds : List (List ℕ × List ℕ))
    → IsAscending r.headers
    → IsAscending (add_all r adds).headers
unfolding add_all add_header
add_all-IsAscending r [] a = a
add_all-IsAscending r ((key, value) ∷ more) a =
    add_all-IsAscending (add_header r key value) more
      (insert-IsAscending r.headers (c_str key) (c_str value) a)

-- ===== src/Net/Buffer/Refinement.antt =====
-- net/Buffer.h as a queue of bytes: what a client sees of any run of its operations.
use ssxrver.Prelude.{
  ℕ, ◌≡◌, refl, sym, ap, ◌∙◌, inl, inr, Bool, true, false, Option, none, some, List, [], ◌∷◌, ◌++◌,
  arith, leb, if◌then◌else◌, Bool-cases, length, take, drop, drop_all, take-take, ◌>>=◌, same,
}
use mathlib.Core.Path.{subst}
use ssxrver.Net.Buffer.{
  Buffer, append, retrieve, retrieve_as_string, retrieve_all_as_string, contents, readable_bytes,
}
use ssxrver.Net.Buffer.Views.{IsValid, length-contents}
use ssxrver.Net.Buffer.Fifo.{append_lem, retrieve_lem}
use ssxrver.Net.Buffer.ReadFd.{ReadResult, read_fd, read_fd_lem, received_bytes}

pub data Operation : Type 0 where
  appends : List ℕ → Operation
  reads : ReadResult → Operation
  skips takes : ℕ → Operation
  takes_all : Operation

-- The operation on a buffer, with the text that it returns; `none` is an abort.
unfoldable pub perform : Buffer → Operation → Option (List ℕ × Buffer)
perform b (appends bs) = append b bs >>= λ b'. some ([], b')
perform b (reads r) = read_fd b r >>= λ b'. some ([], b')
perform b (skips n) = retrieve b n >>= λ b'. some ([], b')
perform b (takes n) = retrieve_as_string b n
perform b takes_all = retrieve_all_as_string b

-- The same on a queue of bytes.
unfoldable pub on_queue : List ℕ → Operation → Option (List ℕ × List ℕ)
on_queue xs (appends bs) = some ([], xs ++ bs)
on_queue xs (reads r) = some ([], xs ++ received_bytes r)
on_queue xs (skips n) = if leb n (length xs) then some ([], drop n xs) else none
on_queue xs (takes n) = if leb n (length xs) then some (take n xs, drop n xs) else none
on_queue xs takes_all = some (xs, [])

-- The texts that a run returns, and the state behind it.
unfoldable pub run :
    {S : Type 0}
    → (S → Operation → Option (List ℕ × S))
    → S
    → List Operation
    → Option (List (List ℕ) × S)
run step s [] = some ([], s)
run step s (o ∷ os) = do
  (text, s') ← step s o
  (texts, s'') ← run step s' os
  some (text ∷ texts, s'')

-- Both abort, or both return the same and leave the same bytes.
abbrev pub Matches : {T : Type 0} → Option (T × Buffer) → Option (T × List ℕ) → Type 0
Matches none none = Unit {0}
Matches none (some q) = true ≡ false
Matches (some p) none = true ≡ false
Matches (some (t, b)) (some (t', xs)) = (t ≡ t') × IsValid b × (contents b ≡ xs)

-- A length that is there, or is not, in the buffer as in the queue.
enough :
    (b : Buffer) (n : ℕ) (h : Bool)
    → IsValid b
    → leb n (readable_bytes b) ≡ h
    → leb n (length (contents b)) ≡ h
enough b n h v e = ap (leb n) (length-contents b v) ∙ e

retrieve_stops : (b : Buffer) (n : ℕ) → leb n (readable_bytes b) ≡ false → retrieve b n ≡ none
unfolding retrieve
retrieve_stops b n h = simp h refl

perform-Matches :
    (b : Buffer) (o : Operation) → IsValid b → Matches (perform b o) (on_queue (contents b) o)
unfolding perform on_queue retrieve_as_string retrieve_all_as_string
perform-Matches b (appends bs) v =
    let (b', e, ok, same) = append_lem b bs v in rw e (refl, ok, same)
perform-Matches b (reads r) v = let (b', e, ok, same) = read_fd_lem b r v in rw e (refl, ok, same)
perform-Matches b (skips n) v = elim (Bool-cases (leb n (readable_bytes b))) [
  | inl there ↦
      let (b', e, ok, same) = retrieve_lem b n v (ground (arith, there)) in
      rw (e, enough b n true v there) (refl, ok, same)
  | inr short ↦ rw (retrieve_stops b n short, enough b n false v short) tt
]
perform-Matches b (takes n) v = elim (Bool-cases (leb n (readable_bytes b))) [
  | inl there ↦
      let (b', e, ok, same) = retrieve_lem b n v (ground (arith, there)) in
      rw (there, e, enough b n true v there)
        (
          sym (
              take-take n (readable_bytes b) (drop b.reader_index b.bytes) (ground (arith, there))),
          ok,
          same,
        )
  | inr short ↦ rw (short, enough b n false v short) tt
]
perform-Matches b takes_all v =
    let whole : leb (readable_bytes b) (readable_bytes b) ≡ true = ground arith in
    let (b', e, ok, same) = retrieve_lem b (readable_bytes b) v (omega arith) in
    rw (whole, e)
      (
        refl,
        ok,
        same ∙ drop_all (readable_bytes b) (contents b) (omega (arith, length-contents b v)),
      )

-- What follows a first operation that matches.
follow :
    (t t' : List ℕ) (p : Option (List (List ℕ) × Buffer)) (q : Option (List (List ℕ) × List ℕ))
    → t ≡ t'
    → Matches p q
    → Matches (p >>= λ r. some (t ∷ r.0, r.1)) (q >>= λ r. some (t' ∷ r.0, r.1))
follow t t' none none e m = tt
follow t t' none (some q) e m = m
follow t t' (some p) none e m = m
follow t t' (some (ts, b)) (some (us, xs)) e (f, v, c) = (ap (λ x. x ∷ ts) e ∙ ap (◌∷◌ t') f, v, c)

after_first :
    (os : List Operation) (p : Option (List ℕ × Buffer)) (q : Option (List ℕ × List ℕ))
    → Matches p q
    → ((b : Buffer) → IsValid b → Matches (run perform b os) (run on_queue (contents b) os))
    → Matches
        (p >>= λ r. run perform r.1 os >>= λ s. some (r.0 ∷ s.0, s.1))
        (q >>= λ r. run on_queue r.1 os >>= λ s. some (r.0 ∷ s.0, s.1))
after_first os none none m next = tt
after_first os none (some q) m next = absurd (ground (arith, m))
after_first os (some p) none m next = absurd (ground (arith, m))
after_first os (some (t, b)) (some (t', xs)) (e, v, c) next =
    follow t t' (run perform b os) (run on_queue xs os) e
      (subst (λ ys. Matches (run perform b os) (run on_queue ys os)) c (next b v))

-- A valid buffer is a queue of bytes for any run of appends, reads from a descriptor and retrievals:
-- the run aborts just where it asks for more bytes than the queue holds, and otherwise returns the
-- same texts and ends with the same bytes, in a valid buffer.
pub run-Matches :
    (b : Buffer) (os : List Operation)
    → IsValid b
    → Matches (run perform b os) (run on_queue (contents b) os)
unfolding run
run-Matches b [] v = (refl, v, refl)
run-Matches b (o ∷ os) v =
    after_first os (perform b o) (on_queue (contents b) o) (perform-Matches b o v)
      (λ b' v'. run-Matches b' os v')

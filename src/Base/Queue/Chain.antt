-- ===== src/Base/Queue/Chain.antt =====
-- The nodes of a queue in order, each at its own address, and what the operations make of them.
use mathlib.Core.Path.{subst}
use ssxrver.Prelude.{
  ℕ, ◌≡◌, refl, sym, ap, ◌∙◌, ◌≢◌, ◌↔◌, inl, inr, true, false, Option, some, none, List, [], ◌∷◌,
  ◌++◌, map, arith, ◌==◌, Bool-cases, All,
}
use ssxrver.Base.Queue.{
  Node, Heap, write, blank, Queue, new_queue, push, empty, pop_head, try_pop, try_pop_into,
}

module _ {A : Type 0} where
  -- `Chain h p t cs`: from `p` on, the nodes stand at the addresses of `cs`, with its values, and
  -- behind them at `t` one without a value or a successor.
  abbrev pub Chain : Heap A → ℕ → ℕ → List (ℕ × A) → Type 0
  Chain h p t [] = (p ≡ t) × (h t ≡ some blank)
  Chain h p t (c ∷ cs) =
      (p ≡ c.0)
      × (c.0 ≢ t)
      × All (λ d. c.0 ≢ d.0) cs
      × ((q : ℕ) × (h p ≡ some (record { val = some c.1; next = some q })) × Chain h q t cs)

  last_blank : (h : Heap A) (p t : ℕ) (cs : List (ℕ × A)) → Chain h p t cs → h t ≡ some blank
  last_blank h p t [] c = c.1
  last_blank h p t (d ∷ cs) c = last_blank h c.3.0 t cs c.3.2

  -- A write elsewhere leaves a chain.
  Chain-write :
      (h : Heap A) (p t : ℕ) (cs : List (ℕ × A)) (a : ℕ) (v : Option (Node A))
      → a ≢ t
      → All (λ d. a ≢ d.0) cs
      → Chain h p t cs
      → Chain (write h a v) p t cs
  Chain-write h p t [] a v away all c = (c.0, ground (arith, c.1))
  Chain-write h p t (d ∷ cs) a v away all c = (
    c.0,
    c.1,
    c.2,
    (c.3.0, ground (arith, c.3.1, c.0, all.0), Chain-write h c.3.0 t cs a v away all.1 c.3.2),
  )

  -- A free address is none of a chain's.
  free_ne : (h : Heap A) (a b : ℕ) (n : Node A) → h a ≡ none → h b ≡ some n → a ≢ b
  free_ne h a b n f e k = absurd (cc (f, e, ap h k))

  free-All :
      (h : Heap A) (p t : ℕ) (cs : List (ℕ × A)) (a : ℕ)
      → h a ≡ none
      → Chain h p t cs
      → All (λ d. a ≢ d.0) cs
  free-All h p t [] a f c = tt
  free-All h p t (d ∷ cs) a f c =
      (free_ne h a d.0 _ f (ap h (sym c.0) ∙ c.3.1), free-All h c.3.0 t cs a f c.3.2)

  All-snoc :
      (P : ℕ × A → Type 0) (cs : List (ℕ × A)) (d : ℕ × A) → All P cs → P d → All P (cs ++ (d ∷ []))
  All-snoc P [] d a p = (p, tt)
  All-snoc P (c ∷ cs) d a p = (a.0, All-snoc P cs d a.1 p)

  -- The node at `t` is filled and a blank one stands at `p`.
  pub Chain-fill :
      (h : Heap A) (a t p : ℕ) (cs : List (ℕ × A)) (x : A)
      → h p ≡ none
      → Chain h a t cs
      → Chain
          (write (write h p (some blank)) t (some (record { val = some x; next = some p })))
          a
          p
          (cs ++ ((t, x) ∷ []))
  Chain-fill h a t p [] x f c =
      let p_ne_t : p ≢ t = free_ne h p t _ f c.1 in
      (c.0, (λ e. p_ne_t (sym e)), tt, (p, ground (arith, c.0), (refl, ground (arith, p_ne_t))))
  Chain-fill h a t p (d ∷ cs) x f c =
      let p_ne_d : p ≢ d.0 = free_ne h p d.0 _ f (ap h (sym c.0) ∙ c.3.1) in
      (
        c.0,
        (λ e. p_ne_d (sym e)),
        All-snoc _ cs (t, x) c.2 c.1,
        (c.3.0, ground (arith, c.3.1, c.0, c.1, p_ne_d), Chain-fill h c.3.0 t p cs x f c.3.2),
      )

  -- The queue holds the values `xs`, the oldest first.
  pub record Holds (q : Queue A) (xs : List A) : Type 0 where
    pub cells : List (ℕ × A)
    pub chain : Chain q.nodes q.head q.tail cells
    pub values : map (λ c. c.1) cells ≡ xs

  map-snoc :
      (cs : List (ℕ × A)) (a : ℕ) (x : A)
      → map (λ c. c.1) (cs ++ ((a, x) ∷ [])) ≡ map (λ c. c.1) cs ++ (x ∷ [])
  map-snoc [] a x = refl
  map-snoc (c ∷ cs) a x = ap (◌∷◌ c.1) (map-snoc cs a x)

  pub new_queue-Holds : (p : ℕ) → Holds (new_queue p) []
  unfolding new_queue
  new_queue-Holds p = record { cells = []; chain = (refl, ground arith); values = refl }

  -- A queue is empty just when it holds nothing.
  pub empty_lem : (q : Queue A) (xs : List A) → Holds q xs → (empty q ≡ true) ↔ (xs ≡ [])
  unfolding empty
  empty_lem q xs v = by_cells v.cells v.chain v.values
    where
      by_cells :
          (cs : List (ℕ × A))
          → Chain q.nodes q.head q.tail cs
          → map (λ c. c.1) cs ≡ xs
          → ((q.head == q.tail) ≡ true) ↔ (xs ≡ [])
      by_cells [] c e = (λ _. sym e, λ _. ground (arith, c.0))
      by_cells (d ∷ cs) c e =
          (λ k. absurd (c.1 (ground (arith, c.0, k))), λ k. absurd (ground (arith, e, k)))

  pub push-Holds :
      (q : Queue A) (p : ℕ) (x : A) (xs : List A)
      → q.nodes p ≡ none
      → Holds q xs
      → (q' : Queue A) × (push q p x ≡ some q') × Holds q' (xs ++ (x ∷ []))
  unfolding push
  push-Holds q p x xs f v = (
    _,
    simp (last_blank q.nodes q.head q.tail v.cells v.chain) refl,
    record {
      cells = v.cells ++ ((q.tail, x) ∷ []);
      chain = Chain-fill q.nodes q.head q.tail p v.cells x f v.chain;
      values = map-snoc v.cells q.tail x ∙ ap (λ l. l ++ (x ∷ [])) v.values;
    },
  )

  pub pop_head-Holds :
      (q : Queue A) (x : A) (xs : List A)
      → Holds q (x ∷ xs)
      → (q' : Queue A) × (pop_head q ≡ some (some x, q')) × Holds q' xs × (q'.tail ≡ q.tail)
  unfolding pop_head
  pop_head-Holds q x xs v = by_cells v.cells v.chain v.values
    where
      by_cells :
          (cs : List (ℕ × A))
          → Chain q.nodes q.head q.tail cs
          → map (λ c. c.1) cs ≡ x ∷ xs
          → (q' : Queue A) × (pop_head q ≡ some (some x, q')) × Holds q' xs × (q'.tail ≡ q.tail)
      by_cells [] c e = absurd (ground (arith, e))
      by_cells (d ∷ cs) c e = (
        record { nodes = write q.nodes q.head none; head = c.3.0; tail = q.tail },
        simp c.3.1 (
            ap
              (λ y.
                some (
                  some y,
                  record { nodes = write q.nodes q.head none; head = c.3.0; tail = q.tail },
                ))
              (cc e)),
        record {
          cells = cs;
          chain =
              Chain-write q.nodes c.3.0 q.tail cs q.head none
                (subst (λ a. a ≢ q.tail) (sym c.0) c.1)
                (subst (λ a. All (λ k. a ≢ k.0) cs) (sym c.0) c.2) c.3.2;
          values = cc e;
        },
        refl,
      )

  -- The node that is taken out has the value.
  pub head_value :
      (q : Queue A) (x : A) (xs : List A)
      → Holds q (x ∷ xs)
      → (n : Node A) × (q.nodes q.head ≡ some n) × (n.val ≡ some x)
  head_value q x xs v = by_cells v.cells v.chain v.values
    where
      by_cells :
          (cs : List (ℕ × A))
          → Chain q.nodes q.head q.tail cs
          → map (λ c. c.1) cs ≡ x ∷ xs
          → (n : Node A) × (q.nodes q.head ≡ some n) × (n.val ≡ some x)
      by_cells [] c e = absurd (ground (arith, e))
      by_cells (d ∷ cs) c e = (_, c.3.1, cc e)

  pub not_empty : (q : Queue A) (x : A) (xs : List A) → Holds q (x ∷ xs) → empty q ≡ false
  not_empty q x xs v = elim (Bool-cases (empty q)) [
    | inl e ↦ absurd (ground (arith, (empty_lem q (x ∷ xs) v).0 e))
    | inr e ↦ e
  ]

  abbrev pub first_of : List A → Option A
  first_of [] = none
  first_of (x ∷ xs) = some x

  abbrev pub rest_of : List A → List A
  rest_of [] = []
  rest_of (x ∷ xs) = xs

  -- `tryPop`, in both its forms, never reads a node that is not there: it takes the oldest value
  -- out, and says that there is none and leaves the queue where it holds nothing.
  pub try_pop_lem :
      (q : Queue A) (xs : List A)
      → Holds q xs
      → (q' : Queue A) × (try_pop q ≡ some (first_of xs, q'))
        × (try_pop_into q ≡ some (first_of xs, q'))
        × Holds q' (rest_of xs)
  unfolding try_pop try_pop_into
  try_pop_lem q [] v = let e = (empty_lem q [] v).1 refl in (q, rw e, rw e, v)
  try_pop_lem q (x ∷ xs) v =
      let full : empty q ≡ false = not_empty q x xs v in
      let (q', e, v', _) = pop_head-Holds q x xs v in
      let (n, here, value) = head_value q x xs v in
      (q', simp (full, e) refl, simp (full, here, value, e) refl, v')

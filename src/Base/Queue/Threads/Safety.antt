-- ===== src/Base/Queue/Threads/Safety.antt =====
-- base/ThreadSafeQueue.hpp: what holds of the queue in every schedule.
use mathlib.Core.Path.{subst}
use ssxrver.Prelude.{
  ℕ, ◌-◌, ◌≡◌, refl, sym, ap, ◌∙◌, ◌≢◌, Bool, true, false, Option, some, none, List, [], ◌∷◌, ◌++◌,
  arith, ◌==◌, if◌then◌else◌, append_assoc,
}
use ssxrver.Base.Queue.{empty}
use ssxrver.Base.Queue.Chain.{Holds, new_queue-Holds, empty_lem, push-Holds, pop_head-Holds}
use ssxrver.Base.Queue.Threads.{
  Place, outside, testing, taking, dozing, asleep, woken, System, move, push_in, test, take_out,
  Step, pushing, notifying, notifying_nobody, calling, deciding, popping, falling_asleep, waking,
  relocking, Reaches, at_start, after,
}

-- The consumer has the mutex.
abbrev pub holding : Place → Bool
holding (testing _) = true
holding taking = true
holding dozing = true
holding outside = false
holding asleep = false
holding woken = false

module _ {A : Type 0} where
  pub record Kept (s : System A) : Type 0 where
    pub inside : List A
    pub models : Holds s.queue inside
    pub order : s.popped ++ inside ≡ s.pushed
    pub sound : s.faulted ≡ false
    pub alone : (i : ℕ) → holding (s.place i) ≡ true → s.owner ≡ some i
    pub full : (i : ℕ) → s.place i ≡ taking → inside ≢ []

  -- A consumer that moves, where the mutex is then with the one that is to have it.
  move-Kept :
      (s : System A) (i : ℕ) (o : Option ℕ) (a : Place) (k : Kept s)
      → ((j : ℕ) → j ≢ i → holding (s.place j) ≡ true → o ≡ some j)
      → (holding a ≡ true → o ≡ some i)
      → (a ≡ taking → k.inside ≢ [])
      → Kept (move s i o a)
  move-Kept s i o a k others own room = record {
    inside = k.inside;
    models = k.models;
    order = k.order;
    sound = k.sound;
    alone = λ j h. by_test j (j == i) refl h;
    full = λ j h. by_place j (j == i) refl h;
  }
    where
      by_test :
          (j : ℕ) (b : Bool)
          → (j == i) ≡ b
          → holding (if b then a else s.place j) ≡ true
          → o ≡ some j
      by_test j true e h = ground (arith, own h, e)
      by_test j false e h = others j (λ k. ground (arith, k, e)) h

      by_place :
          (j : ℕ) (b : Bool) → (j == i) ≡ b → (if b then a else s.place j) ≡ taking → k.inside ≢ []
      by_place j true e h = room h
      by_place j false e h = k.full j h

  leave-Kept :
      (s : System A) (i : ℕ) (o : Option ℕ) (a : Place) (k : Kept s)
      → holding a ≡ false
      → ((j : ℕ) → j ≢ i → holding (s.place j) ≡ true → o ≡ some j)
      → Kept (move s i o a)
  leave-Kept s i o a k e others =
      move-Kept s i o a k others (λ c. absurd (ground (arith, c, e)))
        (λ c. absurd (ground (arith, ap holding c, e)))

  notices-Kept : (s : System A) (n : ℕ) → Kept s → Kept (record s { notices = n })
  notices-Kept s n k = record {
    inside = k.inside;
    models = k.models;
    order = k.order;
    sound = k.sound;
    alone = k.alone;
    full = k.full;
  }

  -- A consumer that has the mutex is the only one.
  others_free :
      (s : System A) (i : ℕ) (a : Place) (o : Option ℕ)
      → Kept s
      → s.place i ≡ a
      → holding a ≡ true
      → (j : ℕ) → j ≢ i
      → holding (s.place j) ≡ true
      → o ≡ some j
  others_free s i a o k e h j ne hj =
      absurd (ne (ground (arith, k.alone i (ap holding e ∙ h), k.alone j hj)))

  nobody :
      (s : System A) (i : ℕ) (o : Option ℕ)
      → Kept s
      → s.owner ≡ none
      → (j : ℕ) → j ≢ i
      → holding (s.place j) ≡ true
      → o ≡ some j
  nobody s i o k e j ne hj = absurd (ground (arith, k.alone j hj, e))

  push_in-Kept :
      (s : System A) (p : ℕ) (x : A) → s.queue.nodes p ≡ none → Kept s → Kept (push_in s p x)
  unfolding push_in
  push_in-Kept s p x f k =
      let (q, e, v) = push-Holds s.queue p x k.inside f k.models in
      rw e (record {
        inside = k.inside ++ (x ∷ []);
        models = v;
        order = sym (append_assoc s.popped k.inside (x ∷ [])) ∙ ap (λ l. l ++ (x ∷ [])) k.order;
        sound = k.sound;
        alone = k.alone;
        full = λ i h. snoc_ne k.inside x;
      })
    where
      snoc_ne : (xs : List A) (x : A) → xs ++ (x ∷ []) ≢ []
      snoc_ne [] x h = ground (arith, h)
      snoc_ne (y ∷ xs) x h = ground (arith, h)

  test-Kept :
      (s : System A) (i : ℕ) (wait : Bool)
      → s.place i ≡ testing wait
      → Kept s
      → Kept (test s i wait)
  unfolding test
  test-Kept s i wait e k = by_test (empty s.queue) refl wait e
    where
      own : (w : Bool) → s.place i ≡ testing w → s.owner ≡ some i
      own w h = k.alone i (ap holding h)

      by_test :
          (b : Bool)
          → empty s.queue ≡ b
          → (w : Bool) → s.place i ≡ testing w
          → Kept (
              if b
              then (if w then move s i s.owner dozing else move s i none outside)
              else move s i s.owner taking)
      by_test true d true h =
          move-Kept s i s.owner dozing k (others_free s i _ _ k h refl) (λ _. own true h)
            (λ c. absurd (ground (arith, c)))
      by_test true d false h = leave-Kept s i none outside k refl (others_free s i _ _ k h refl)
      by_test false d w h =
          move-Kept s i s.owner taking k (others_free s i _ _ k h refl) (λ _. own w h)
            (λ _ none_in.
              absurd (ground (arith, d, (empty_lem s.queue k.inside k.models).1 none_in)))

  take_out-Kept : (s : System A) (i : ℕ) → s.place i ≡ taking → Kept s → Kept (take_out s i)
  unfolding take_out
  take_out-Kept s i e k = by_inside k.inside refl
    where
      nobody_takes :
          {xs : List A} (j : ℕ) (b : Bool)
          → (j == i) ≡ b
          → (if b then outside else s.place j) ≡ taking
          → xs ≢ []
      nobody_takes j true d c = absurd (ground (arith, c))
      nobody_takes j false d c =
          absurd (ground (arith, d, k.alone i (ap holding e), k.alone j (ap holding c)))

      by_inside : (xs : List A) → k.inside ≡ xs → Kept (take_out s i)
      by_inside [] h = absurd (k.full i e h)
      by_inside (x ∷ xs) h =
          let (q, run, v, _) = pop_head-Holds s.queue x xs (subst (Holds s.queue) h k.models) in
          let freed = leave-Kept s i none outside k refl (others_free s i _ _ k e refl) in
          rw run (record {
            inside = xs;
            models = v;
            order = append_assoc s.popped (x ∷ []) xs ∙ ap (λ l. s.popped ++ l) (sym h) ∙ k.order;
            sound = k.sound;
            alone = freed.alone;
            full = λ j c. nobody_takes j (j == i) refl c;
          })

  Step-Kept : (s s' : System A) → Step s s' → Kept s → Kept s'
  Step-Kept s _ (pushing _ p x f) k = push_in-Kept s p x f k
  Step-Kept s _ (notifying _ i n e) k =
      notices-Kept _ (s.notices - 1) (leave-Kept s i s.owner woken k refl (λ j _ h. k.alone j h))
  Step-Kept s _ (notifying_nobody _ n e) k = notices-Kept s (s.notices - 1) k
  Step-Kept s _ (calling _ i w o e) k =
      move-Kept s i (some i) (testing w) k (nobody s i _ k o) (λ _. refl)
        (λ c. absurd (ground (arith, c)))
  Step-Kept s _ (deciding _ i w e) k = test-Kept s i w e k
  Step-Kept s _ (popping _ i e) k = take_out-Kept s i e k
  Step-Kept s _ (falling_asleep _ i e) k =
      leave-Kept s i none asleep k refl (others_free s i _ _ k e refl)
  Step-Kept s _ (waking _ i e) k = leave-Kept s i s.owner woken k refl (λ j _ h. k.alone j h)
  Step-Kept s _ (relocking _ i o e) k =
      move-Kept s i (some i) (testing true) k (nobody s i _ k o) (λ _. refl)
        (λ c. absurd (ground (arith, c)))

  pub Reaches-Kept : {p : ℕ} (s : System A) → Reaches p s → Kept s
  Reaches-Kept {p} _ at_start = record {
    inside = [];
    models = new_queue-Holds p;
    order = refl;
    sound = refl;
    alone = λ i h. absurd (ground (arith, h));
    full = λ i h. absurd (ground (arith, h));
  }
  Reaches-Kept _ (after {s} {s'} r t) = Step-Kept s s' t (Reaches-Kept s r)

  -- In every schedule of producers and consumers no call reads a node that is not there, and the
  -- queue is first in first out: what it holds, behind what came out, is what went in, in order.
  pub Reaches-Fifo :
      {p : ℕ} (s : System A)
      → Reaches p s
      → (s.faulted ≡ false)
        × ((inside : List A) × Holds s.queue inside × (s.popped ++ inside ≡ s.pushed))
  Reaches-Fifo s r = let k = Reaches-Kept s r in (k.sound, (k.inside, k.models, k.order))

  -- Two consumers never have the mutex together.
  pub Reaches-owner :
      {p : ℕ} (s : System A) (i j : ℕ)
      → Reaches p s
      → holding (s.place i) ≡ true
      → holding (s.place j) ≡ true
      → i ≡ j
  Reaches-owner s i j r a b = let k = Reaches-Kept s r in ground (arith, k.alone i a, k.alone j b)

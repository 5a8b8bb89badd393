-- ===== src/Net/LoopPool.antt =====
-- net/EventLoopThreadPool.cpp: the choice of the loop for a new connection.
--
-- `L` is the type of loops. `none` is a failed assertion, or an element out of range.
use native.Mathlib.Nat.{mod-lt, mod-eq_of_lt, mod-add-mod, add-zero}
use ssxrver.Prelude.{
  ℕ, zero, suc, ◌+◌, ap, sym, ◌∙◌, ◌%◌, ◌<◌, ◌≡◌, refl, sym, ap, ◌∙◌, Bool, true, false, not,
  Option, some, List, [], ◌∷◌, ◌++◌, arith, ◌==◌, if◌then◌else◌, length, get_elem?, ◌>>=◌, ◌>>◌,
  assert,
}

pub record LoopPool (L : Type 0) : Type 0 where
  pub base_loop : L
  pub started : Bool
  pub num_threads : ℕ
  pub next : ℕ
  pub loops : List L

module _ {L : Type 0} where
  unfoldable pub new_pool : L → ℕ → LoopPool L
  new_pool base num = record {
    base_loop = base;
    started = false;
    num_threads = num;
    next = 0;
    loops = [];
  }

  -- The loops of the threads that `start` makes are an argument, one for each thread.
  unfoldable pub start : LoopPool L → (ℕ → L) → Option (LoopPool L)
  start p make = do
    assert (not p.started)
    some (record p { started = true; loops = p.loops ++ made make p.num_threads })
    where
      made : (ℕ → L) → ℕ → List L
      made make zero = []
      made make (suc n) = made make n ++ (make n ∷ [])

  unfoldable pub get_next_loop : LoopPool L → Option (L × LoopPool L)
  get_next_loop p = do
    assert p.started
    if length p.loops == 0
        then some (p.base_loop, p)
        else (get_elem? p.loops p.next >>= λ loop.
            some (loop, record p { next = (p.next + 1) % p.num_threads }))

  -- The loops of `k` new connections.
  unfoldable pub pick : ℕ → LoopPool L → Option (List L × LoopPool L)
  unfolding get_next_loop
  pick zero p = some ([], p)
  pick (suc k) p = do (loop, p') ← get_next_loop p; (rest, p'') ← pick k p'; some (loop ∷ rest, p'')

-- A pool that was started with at least one thread: a loop for each, and the next one of them.
pub record IsStarted {L : Type 0} (p : LoopPool L) : Type 0 where
  pub running : p.started ≡ true
  pub every : length p.loops ≡ p.num_threads
  pub some_loop : 0 < p.num_threads
  pub in_range : p.next < p.num_threads

module _ {L : Type 0} where
  in_range_some : (xs : List L) (i : ℕ) → i < length xs → (x : L) × (get_elem? xs i ≡ some x)
  in_range_some [] i h = absurd (omega (arith, h))
  in_range_some (x ∷ xs) zero h = (x, refl)
  in_range_some (x ∷ xs) (suc i) h = in_range_some xs i (omega (arith, h))

  pub get_next_loop-IsStarted :
      (p : LoopPool L)
      → IsStarted p
      → let p' = record p { next = (p.next + 1) % p.num_threads } in
        IsStarted p'
        × ((loop : L) × (get_elem? p.loops p.next ≡ some loop)
            × (get_next_loop p ≡ some (loop, p')))
  unfolding get_next_loop
  get_next_loop-IsStarted p v =
      let (loop, e) = in_range_some p.loops p.next (omega (arith, v.every, v.in_range)) in
      let busy : (length p.loops == 0) ≡ false = ground (arith, v.every, v.some_loop) in
      (
        record {
          running = v.running;
          every = v.every;
          some_loop = v.some_loop;
          in_range = mod-lt (p.next + 1) v.some_loop;
        },
        (loop, e, simp (v.running, busy, e) refl),
      )

  -- Each pick of a started pool is a loop of the pool, in turn: the pick behind `k` others is the
  -- loop that stands `k` places on, round the list.
  pub pick_lem :
      (k : ℕ) (p : LoopPool L)
      → IsStarted p
      → (ls : List L) × (p' : LoopPool L) × (loop : L) × (q : LoopPool L) × (pick k p
          ≡ some (ls, p'))
        × (length ls ≡ k)
        × (get_next_loop p' ≡ some (loop, q))
        × (get_elem? p.loops ((p.next + k) % p.num_threads) ≡ some loop)
  unfolding pick
  pick_lem zero p v =
      let (v', (loop, e, go)) = get_next_loop-IsStarted p v in
      (
        [],
        p,
        loop,
        record p { next = (p.next + 1) % p.num_threads },
        refl,
        refl,
        go,
        ap (get_elem? p.loops)
              (ap (λ n. n % p.num_threads) (add-zero p.next) ∙ mod-eq_of_lt v.in_range)
            ∙ e,
      )
  pick_lem (suc k) p v =
      let (v', (loop, e, go)) = get_next_loop-IsStarted p v in
      let (ls, p', last, q, run, size, next, place) =
        pick_lem k (record p { next = (p.next + 1) % p.num_threads }) v' in
      (
        loop ∷ ls,
        p',
        last,
        q,
        simp (go, run) refl,
        ap suc size,
        next,
        ap (get_elem? p.loops) (
              sym (
                mod-add-mod (p.next + 1) p.num_threads k
                ∙ ap (λ n. n % p.num_threads) (omega arith)))
            ∙ place,
      )

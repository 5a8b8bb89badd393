-- ===== src/Base/Pool.antt =====
-- base/ThreadPool.h and base/ThreadPool.cpp: the threads that run the tasks of a queue.
--
-- A task is a number, and says whether it stops the pool. `none` is an empty function. What a
-- worker's calls of `waitAndPop` give it is an argument; where that ends the next call waits.
use ssxrver.Prelude.{
  ℕ, ◌+◌, ◌≡◌, refl, sym, ap, ◌∙◌, Bool, true, false, not, ◌&&◌, Option, none, some, List, [], ◌∷◌,
  ◌++◌, append-nil, ◌==◌, if◌then◌else◌, All,
}

pub record Task : Type 0 where
  pub name : ℕ
  -- The task calls `stop`.
  pub stops : Bool

pub record ThreadPool : Type 0 where
  pub running : Bool
  pub threads : ℕ
  -- Whether `threadInitCallback_` is set, and how often `start` itself has called it.
  pub has_init : Bool
  pub init_calls : ℕ

unfoldable pub new_pool : Bool → ThreadPool
new_pool has_init = record { running = false; threads = 0; has_init = has_init; init_calls = 0 }

unfoldable pub stop : ThreadPool → ThreadPool
stop p = record p { running = false }

unfoldable pub start : ThreadPool → ℕ → ThreadPool
start p num_threads =
    let p' = record p { running = true; threads = p.threads + num_threads } in
    if num_threads == 0 && p.has_init then record p' { init_calls = p.init_calls + 1 } else p'

-- A worker: the tasks it has run, and what it came to.
pub record Worker : Type 0 where
  pub inits : ℕ
  pub ran : List ℕ
  -- It waits for a task; otherwise it has returned.
  pub waits : Bool
  -- Tasks that it left.
  pub left : List (Option Task)

abbrev with_ran : ℕ → Worker → Worker
with_ran n w = record w { ran = n ∷ w.ran }

-- The loop of `runInThread`, with `running_` as it is when the loop tests it.
unfoldable pub work : Bool → List (Option Task) → Worker
work false tasks = record { inits = 0; ran = []; waits = false; left = tasks }
work true [] = record { inits = 0; ran = []; waits = true; left = [] }
work true (none ∷ tasks) = work true tasks
work true (some t ∷ tasks) = with_ran t.name (work (not t.stops) tasks)

unfoldable pub run_in_thread : ThreadPool → List (Option Task) → Worker
run_in_thread p tasks =
    let w = work p.running tasks in if p.has_init then record w { inits = w.inits + 1 } else w

abbrev pub names : List (Option Task) → List ℕ
names [] = []
names (none ∷ tasks) = names tasks
names (some t ∷ tasks) = t.name ∷ names tasks

abbrev pub Harmless : Option Task → Type 0
Harmless none = Unit {0}
Harmless (some t) = t.stops ≡ false

work-Harmless :
    (tasks rest : List (Option Task))
    → All Harmless tasks
    → work true (tasks ++ rest)
      ≡ record (work true rest) { ran = names tasks ++ (work true rest).ran }
unfolding work
work-Harmless [] rest h = refl
work-Harmless (none ∷ tasks) rest h = work-Harmless tasks rest h.1
work-Harmless (some t ∷ tasks) rest h =
    ap (λ b. with_ran t.name (work (not b) (tasks ++ rest))) h.0
    ∙ ap (with_ran t.name) (work-Harmless tasks rest h.1)

abbrev pub calls_of : ThreadPool → ℕ
calls_of p = if p.has_init then 1 else 0

run-ran :
    (p : ThreadPool) (tasks : List (Option Task)) (ran : List ℕ) (waits : Bool)
    (rest : List (Option Task))
    → work p.running tasks ≡ record { inits = 0; ran = ran; waits = waits; left = rest }
    → run_in_thread p tasks ≡ record { inits = calls_of p; ran = ran; waits = waits; left = rest }
unfolding run_in_thread
run-ran p tasks ran waits rest e = by_init p.has_init (work p.running tasks) e
  where
    by_init :
        (b : Bool) (w : Worker)
        → w ≡ record { inits = 0; ran = ran; waits = waits; left = rest }
        → (if b then record w { inits = w.inits + 1 } else w)
          ≡ record { inits = if b then 1 else 0; ran = ran; waits = waits; left = rest }
    by_init true w h = ap {A = Worker} (λ x. record x { inits = x.inits + 1 }) h
    by_init false w h = h

-- A worker of a pool that runs takes the tasks in order up to the first that stops the pool, runs
-- each that is not empty, and then returns, with the tasks behind it left.
pub run_in_thread_stops :
    (p : ThreadPool) (tasks rest : List (Option Task)) (t : Task)
    → p.running ≡ true
    → All Harmless tasks
    → t.stops ≡ true
    → run_in_thread p (tasks ++ (some t ∷ rest)) ≡ record {
      inits = calls_of p;
      ran = names tasks ++ (t.name ∷ []);
      waits = false;
      left = rest;
    }
unfolding work
run_in_thread_stops p tasks rest t r h s = run-ran p (tasks ++ (some t ∷ rest)) _ _ _ (
    ap (λ b. work b (tasks ++ (some t ∷ rest))) r
    ∙ work-Harmless tasks (some t ∷ rest) h
    ∙ ap
        (λ b. record (with_ran t.name (work (not b) rest)) {
          ran = names tasks ++ (t.name ∷ (work (not b) rest).ran);
        })
        s)

-- A worker whose tasks do not stop the pool runs each that is not empty, in order, and then waits
-- for another.
pub run_in_thread_waits :
    (p : ThreadPool) (tasks : List (Option Task))
    → p.running ≡ true
    → All Harmless tasks
    → run_in_thread p tasks
      ≡ record { inits = calls_of p; ran = names tasks; waits = true; left = [] }
unfolding work
run_in_thread_waits p tasks r h = run-ran p tasks _ _ _ (
    ap (λ b. work b tasks) r
    ∙ ap (work true) (sym (append-nil tasks))
    ∙ work-Harmless tasks [] h
    ∙ ap (λ l. record { inits = 0; ran = l; waits = true; left = [] }) (append-nil (names tasks)))

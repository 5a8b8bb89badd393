-- ===== src/Base/Thread.antt =====
-- base/Thread.h, base/Thread.cpp and base/CurrentThread.h: a thread, and how it is started.
--
-- A step is a part of `start` in the thread that calls it, or of `runInThread` in the new one. What
-- the function that is run does at its end is an argument of its last step; the number of the thread
-- is the kernel's. Schedules go on where an exception would have ended the process.
use mathlib.Core.Path.{subst}
use ssxrver.Prelude.{
  ℕ, ◌-◌, ◌<◌, ◌≡◌, refl, sym, ap, ◌∙◌, ◌≢◌, ◌⊎◌, inl, inr, Bool, true, false, not, ◌&&◌, Option,
  none, some, List, [], ◌∷◌, arith, ltb, ◌==◌, if◌then◌else◌, Bool-cases,
}

-- How a thread's function ends: it returns, or throws an `Exception` of the program, another
-- `std::exception`, or anything else.
pub data Ending : Type 0 where
  returns throws_exception throws_std throws_other : Ending

-- `std::terminate` is what a rethrown exception leads to.
pub data Fate : Type 0 where
  ended aborted terminated : Fate

-- The lines on the standard error.
pub data Line : Type 0 where
  caught_in_thread reason stack_trace unknown_caught_in_thread : Line

-- The `try` of `runInThread`.
unfoldable pub run_func : Ending → List Line × Fate
run_func returns = ([], ended)
run_func throws_exception = (caught_in_thread ∷ reason ∷ stack_trace ∷ [], aborted)
run_func throws_std = (caught_in_thread ∷ reason ∷ [], aborted)
run_func throws_other = (unknown_caught_in_thread ∷ [], terminated)

-- `tid` of CurrentThread, with the cached number.
unfoldable pub cached_tid : ℕ → ℕ → ℕ
cached_tid gettid cached = if cached == 0 then gettid else cached

-- Where the thread that calls `start` is.
pub data Starter : Type 0 where
  idle waiting done failed : Starter

-- Where the new thread is.
pub data Runner : Type 0 where
  unborn born numbered running : Runner
  over : Fate → Runner

pub record Thread : Type 0 where
  pub started : Bool
  -- `thread_` is set, and its thread was not joined.
  pub joinable : Bool
  pub tid : ℕ
  pub latch : ℕ
  pub starter : Starter
  pub runner : Runner

unfoldable pub new_thread : Thread
new_thread = record {
  started = false;
  joinable = false;
  tid = 0;
  latch = 1;
  starter = idle;
  runner = unborn;
}

-- `start`, to the wait; the assertion fails where the thread was started.
unfoldable pub start : Thread → Thread
start t =
    if not t.started
    then record t { started = true; joinable = true; starter = waiting; runner = born }
    else record t { starter = failed }

-- The rest of `start`, with its assertion.
unfoldable pub check_tid : Thread → Thread
check_tid t = record t { starter = if ltb 0 t.tid then done else failed }

unfoldable pub store_tid : Thread → ℕ → Thread
store_tid t gettid = record t { tid = cached_tid gettid 0; runner = numbered }

unfoldable pub count_down : Thread → Thread
count_down t = record t { latch = t.latch - 1; runner = running }

unfoldable pub end_thread : Thread → Ending → Thread
end_thread t e = record t { runner = over (run_func e).1 }

pub data Step : Thread → Thread → Type 0 where
  starting : (t : Thread) → t.starter ≡ idle → Step t (start t)
  numbering : (t : Thread) (gettid : ℕ) → 0 < gettid → t.runner ≡ born → Step t (store_tid t gettid)
  counting : (t : Thread) → t.runner ≡ numbered → Step t (count_down t)
  released : (t : Thread) → t.starter ≡ waiting → t.latch ≡ 0 → Step t (check_tid t)
  ending : (t : Thread) (e : Ending) → t.runner ≡ running → Step t (end_thread t e)

pub data Reaches : Thread → Type 0 where
  at_start : Reaches new_thread
  after : {t t' : Thread} → Reaches t → Step t t' → Reaches t'

-- The destructor: `join` throws on a thread that is not joinable, and then that of `std::thread`
-- ends the process where it is joinable. `none` is the end of the process.
unfoldable pub destroy : Thread → Option (Unit {0})
destroy t = if t.started && not t.joinable then none else if t.joinable then none else some tt

abbrev is_unborn : Runner → Bool
is_unborn unborn = true
is_unborn born = false
is_unborn numbered = false
is_unborn running = false
is_unborn (over f) = false

-- The thread is behind `count_down`.
abbrev counted : Runner → Bool
counted unborn = false
counted born = false
counted numbered = false
counted running = true
counted (over f) = true

abbrev HasNumber : Runner → ℕ → Type 0
HasNumber unborn n = Unit {0}
HasNumber born n = Unit {0}
HasNumber numbered n = 0 < n
HasNumber running n = 0 < n
HasNumber (over f) n = 0 < n

abbrev Fits : Starter → Runner → Type 0
Fits idle r = is_unborn r ≡ true
Fits waiting r = is_unborn r ≡ false
Fits done r = counted r ≡ true
Fits failed r = true ≡ false

record Kept (t : Thread) : Type 0 where
  spawned : t.started ≡ not (is_unborn t.runner)
  joins : t.joinable ≡ t.started
  closed : t.latch ≡ (if counted t.runner then 0 else 1)
  number : HasNumber t.runner t.tid
  fits : Fits t.starter t.runner

-- The new thread moves on, and the other stays where it was.
moves-Fits :
    (p : Starter) (r r' : Runner)
    → is_unborn r ≡ false
    → is_unborn r' ≡ false
    → (counted r ≡ true → counted r' ≡ true)
    → Fits p r
    → Fits p r'
moves-Fits idle r r' h h' k f = absurd (ground (arith, h, f))
moves-Fits waiting r r' h h' k f = h'
moves-Fits done r r' h h' k f = k f
moves-Fits failed r r' h h' k f = f

counted-HasNumber : (r : Runner) (n : ℕ) → counted r ≡ true → HasNumber r n → 0 < n
counted-HasNumber unborn n c h = absurd (ground (arith, c))
counted-HasNumber born n c h = absurd (ground (arith, c))
counted-HasNumber numbered n c h = h
counted-HasNumber running n c h = h
counted-HasNumber (over f) n c h = h

open_latch : (b : Bool) (n : ℕ) → n ≡ 0 → n ≡ (if b then 0 else 1) → b ≡ true
open_latch true n e h = refl
open_latch false n e h = absurd (ground (arith, e, h))

not_counted : (r : Runner) → is_unborn r ≡ true → counted r ≡ false
not_counted unborn h = refl
not_counted born h = absurd (ground (arith, h))
not_counted numbered h = refl
not_counted running h = absurd (ground (arith, h))
not_counted (over f) h = absurd (ground (arith, h))

Step-Kept : (t t' : Thread) → Step t t' → Kept t → Kept t'
unfolding start check_tid store_tid count_down end_thread cached_tid run_func
Step-Kept t _ (starting _ e) k =
    let u : is_unborn t.runner ≡ true = subst (λ p. Fits p t.runner) e k.fits in
    let off : t.started ≡ false = k.spawned ∙ ap not u in
    subst Kept (sym (ap (λ b. if not b then up else record t { starter = failed }) off)) (record {
      spawned = refl;
      joins = refl;
      closed = k.closed ∙ ap (λ b. if b then 0 else 1) (not_counted t.runner u);
      number = tt;
      fits = refl;
    })
  where
    up : Thread
    up = record t { started = true; joinable = true; starter = waiting; runner = born }
Step-Kept t _ (numbering _ n h e) k = record {
  spawned = k.spawned ∙ ap (λ r. not (is_unborn r)) e;
  joins = k.joins;
  closed = k.closed ∙ ap (λ r. if counted r then 0 else 1) e;
  number = h;
  fits = moves-Fits t.starter born numbered refl refl (λ c. c) (subst (Fits t.starter) e k.fits);
}
Step-Kept t _ (counting _ e) k = record {
  spawned = k.spawned ∙ ap (λ r. not (is_unborn r)) e;
  joins = k.joins;
  closed = ap (λ n. n - 1) (k.closed ∙ ap (λ r. if counted r then 0 else 1) e);
  number = subst (λ r. HasNumber r t.tid) e k.number;
  fits =
      moves-Fits t.starter numbered running refl refl (λ c. refl) (subst (Fits t.starter) e k.fits);
}
Step-Kept t _ (released _ e z) k =
    let c = open_latch (counted t.runner) t.latch z k.closed in
    let h = counted-HasNumber t.runner t.tid c k.number in
    let full : ltb 0 t.tid ≡ true = ground (arith, h) in
    subst Kept (ap (λ b. record t { starter = if b then done else failed }) (sym full)) (record {
      spawned = k.spawned;
      joins = k.joins;
      closed = k.closed;
      number = k.number;
      fits = c;
    })
Step-Kept t _ (ending _ x e) k = record {
  spawned = k.spawned ∙ ap (λ r. not (is_unborn r)) e;
  joins = k.joins;
  closed = k.closed ∙ ap (λ r. if counted r then 0 else 1) e;
  number = subst (λ r. HasNumber r t.tid) e k.number;
  fits =
      moves-Fits t.starter running (over (run_func x).1) refl refl (λ c. refl)
        (subst (Fits t.starter) e k.fits);
}

Reaches-Kept : (t : Thread) → Reaches t → Kept t
unfolding new_thread
Reaches-Kept _ at_start = record {
  spawned = refl;
  joins = refl;
  closed = refl;
  number = tt;
  fits = refl;
}
Reaches-Kept _ (after {t} {t'} r s) = Step-Kept t t' s (Reaches-Kept t r)

-- In every schedule `start` fails no assertion, and where it has returned the number of the thread is
-- stored, the new thread is past its count-down, and the latch is open.
pub Reaches-done :
    (t : Thread)
    → Reaches t
    → (t.starter ≢ failed)
      × ((t.starter ≢ done)
          ⊎ ((0 < t.tid)
              × (t.latch ≡ 0)
              × ((t.runner ≡ running) ⊎ ((f : Fate) × (t.runner ≡ over f)))))
Reaches-done t r =
    let k = Reaches-Kept t r in
    (λ e. absurd (ground (arith, subst (λ p. Fits p t.runner) e k.fits)), by_place t.starter refl)
  where
    past : (s : Runner) → counted s ≡ true → (s ≡ running) ⊎ ((f : Fate) × (s ≡ over f))
    past unborn c = absurd (ground (arith, c))
    past born c = absurd (ground (arith, c))
    past numbered c = absurd (ground (arith, c))
    past running c = inl refl
    past (over f) c = inr (f, refl)

    by_place :
        (p : Starter)
        → t.starter ≡ p
        → (p ≢ done)
          ⊎ ((0 < t.tid)
              × (t.latch ≡ 0)
              × ((t.runner ≡ running) ⊎ ((f : Fate) × (t.runner ≡ over f))))
    by_place idle e = inl (λ h. ground (arith, h))
    by_place waiting e = inl (λ h. ground (arith, h))
    by_place failed e = inl (λ h. ground (arith, h))
    by_place done e =
        let k = Reaches-Kept t r in
        let c : counted t.runner ≡ true = subst (λ p. Fits p t.runner) e k.fits in
        inr (
          counted-HasNumber t.runner t.tid c k.number,
          k.closed ∙ ap (λ b. if b then 0 else 1) c,
          past t.runner c,
        )

-- In every schedule the destructor of a thread that was started ends the process, whether its function
-- has ended or not, and that of any other does nothing.
pub Reaches-destroy :
    (t : Thread)
    → Reaches t
    → ((t.started ≡ true) × (destroy t ≡ none)) ⊎ ((t.started ≡ false) × (destroy t ≡ some tt))
unfolding destroy
Reaches-destroy t r =
    let k = Reaches-Kept t r in
    let j = k.joins in
    elim (Bool-cases t.started) [
      | inl on ↦ inl (on, simp (on, j) refl)
      | inr off ↦ inr (off, simp (off, j) refl)
    ]

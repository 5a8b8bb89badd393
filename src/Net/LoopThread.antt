-- ===== src/Net/LoopThread.antt =====
-- net/EventLoopThread.h and net/EventLoopThread.cpp: the start of a loop in a thread of its own.
--
-- A step is a critical section, or a part of a thread's code between two accesses of what both
-- share. `loop_` is whether the pointer is set.
mod Tests
use mathlib.Core.Path.{subst}
use ssxrver.Prelude.{
  ℕ, zero, suc, ◌+◌, ◌-◌, ◌*◌, ◌/◌, ◌%◌, ◌^◌, ◌≤◌, ◌<◌, min, ◌≡◌, refl, sym, ap, ◌∙◌, ◌≢◌, ◌↔◌, ◌⊎◌,
  inl, inr, Bool, true, false, not, ◌&&◌, ◌||◌, Option, none, some, List, [], ◌∷◌, ◌++◌, map,
  append-nil, append_assoc, arith, ltb, leb, ◌==◌, if◌then◌else◌, ltb→lt, lt→ltb, leb→le, ==_iff,
  tests, Bool-cases, Option-cases, length, get_elem?, set, length-append, length-set,
  get_elem?-set_self, get_elem?-set_ne, get_or, take, drop, replicate, take-append-drop,
  length-take, length-drop, length-replicate, length-map, take-append, drop-append, take_all,
  drop_all, take-append_past, drop-drop, drop-take, take-take, select, All, All-append, All-map,
  ◌>>=◌, ◌>>◌, assert, codes, same, strncmp_equal, c_str, value_from, decimal_onto, decimal,
}

-- Where `startLoop` is: not called, before its lock, asleep in `wait`, behind the wait, and
-- returned, with whether the pointer was set.
pub data Starter : Type 0 where
  idle locking asleep leaving : Starter
  returned : Bool → Starter

-- Where `threadFunc` is: not started, before its first critical section, in `loop` or just before
-- it, behind it, and over.
pub data Stage : Type 0 where
  unborn starting looping stopping over : Stage

pub record LoopThread : Type 0 where
  pub starter : Starter
  pub stage : Stage
  pub loop_ : Bool
  -- How often `callback_` was called.
  pub inits : ℕ

abbrev pub new_thread : LoopThread
new_thread = record { starter = idle; stage = unborn; loop_ = false; inits = 0 }

started_from : LoopThread → Stage → Option LoopThread
started_from t unborn = some (record t { starter = locking; stage = starting })
started_from t _ = none

-- `thread_.start()`, with the assertion that it was not started.
unfoldable pub start_loop : LoopThread → Option LoopThread
unfolding started_from
start_loop t = started_from t t.stage

-- The test of `wait` under the lock.
unfoldable pub test_loop : LoopThread → LoopThread
test_loop t = record t { starter = if t.loop_ then leaving else asleep }

-- `notify_one`.
wake : Starter → Starter
wake idle = idle
wake locking = locking
wake asleep = locking
wake leaving = leaving
wake (returned b) = returned b

-- The call of `callback_` and the first critical section.
unfoldable pub publish : Bool → LoopThread → LoopThread
unfolding wake
publish has_callback t = record t {
  starter = wake t.starter;
  stage = looping;
  loop_ = true;
  inits = if has_callback then t.inits + 1 else t.inits;
}

pub data Step : LoopThread → LoopThread → Type 0 where
  starting_up : (t t' : LoopThread) → t.starter ≡ idle → start_loop t ≡ some t' → Step t t'
  testing : (t : LoopThread) → t.starter ≡ locking → Step t (test_loop t)
  -- `wait` returns for no reason as well.
  waking : (t : LoopThread) → t.starter ≡ asleep → Step t (record t { starter = locking })
  -- The pointer is read behind the lock.
  returning :
      (t : LoopThread) → t.starter ≡ leaving → Step t (record t { starter = returned t.loop_ })
  publishing :
      (t : LoopThread) (has_callback : Bool) → t.stage ≡ starting → Step t (publish has_callback t)
  loop_returns : (t : LoopThread) → t.stage ≡ looping → Step t (record t { stage = stopping })
  clearing :
      (t : LoopThread) → t.stage ≡ stopping → Step t (record t { stage = over; loop_ = false })

pub data Reaches : LoopThread → Type 0 where
  at_start : Reaches new_thread
  after : {t t' : LoopThread} → Reaches t → Step t t' → Reaches t'

-- The pointer is set from the first critical section to the second.
abbrev is_set : Stage → Bool
is_set unborn = false
is_set starting = false
is_set looping = true
is_set stopping = true
is_set over = false

-- What the place of `startLoop` says of the thread.
abbrev Fits : Starter → Stage → Type 0
Fits idle s = s ≡ unborn
Fits locking s = s ≢ unborn
Fits asleep s = (s ≡ starting) ⊎ (s ≡ over)
Fits leaving s = (is_set s ≡ true) ⊎ (s ≡ over)
Fits (returned b) s = (b ≡ true) ⊎ (s ≡ over)

record Kept (t : LoopThread) : Type 0 where
  set_now : t.loop_ ≡ is_set t.stage
  fits : Fits t.starter t.stage

at_place : (t : LoopThread) (p : Starter) → t.starter ≡ p → Kept t → Fits p t.stage
at_place t p e k = subst (λ x. Fits x t.stage) e k.fits

test-Fits : (s : Stage) → s ≢ unborn → Fits (if is_set s then leaving else asleep) s
test-Fits unborn h = absurd (h refl)
test-Fits starting h = inl refl
test-Fits looping h = inl refl
test-Fits stopping h = inl refl
test-Fits over h = inr refl

publish-Fits : (p : Starter) → Fits p starting → Fits (wake p) looping
unfolding wake
publish-Fits idle h = absurd (ground (arith, h))
publish-Fits locking h = λ c. ground (arith, c)
publish-Fits asleep h = λ c. ground (arith, c)
publish-Fits leaving h = inl refl
publish-Fits (returned b) (inl h) = inl h
publish-Fits (returned b) (inr h) = absurd (ground (arith, h))

stop-Fits : (p : Starter) → Fits p looping → Fits p stopping
stop-Fits idle h = absurd (ground (arith, h))
stop-Fits locking h = λ c. ground (arith, c)
stop-Fits asleep h = elim h [
  | inl c ↦ absurd (ground (arith, c))
  | inr c ↦ absurd (ground (arith, c))
]
stop-Fits leaving h = inl refl
stop-Fits (returned b) (inl h) = inl h
stop-Fits (returned b) (inr h) = absurd (ground (arith, h))

clear-Fits : (p : Starter) → Fits p stopping → Fits p over
clear-Fits idle h = absurd (ground (arith, h))
clear-Fits locking h = λ c. ground (arith, c)
clear-Fits asleep h = inr refl
clear-Fits leaving h = inr refl
clear-Fits (returned b) h = inr refl

not_unborn : (s : Stage) → (s ≡ starting) ⊎ (s ≡ over) → s ≢ unborn
not_unborn s (inl h) c = ground (arith, h, c)
not_unborn s (inr h) c = ground (arith, h, c)

started_up :
    (t t' : LoopThread) (s : Stage) → t.stage ≡ s → Kept t → started_from t s ≡ some t' → Kept t'
unfolding started_from
started_up t t' unborn e k h =
    subst Kept {x = record t { starter = locking; stage = starting }} (cc h)
      (record { set_now = k.set_now ∙ ap is_set e; fits = λ c. ground (arith, c) })
started_up t t' starting e k h = absurd (ground (arith, h))
started_up t t' looping e k h = absurd (ground (arith, h))
started_up t t' stopping e k h = absurd (ground (arith, h))
started_up t t' over e k h = absurd (ground (arith, h))

Step-Kept : (t t' : LoopThread) → Step t t' → Kept t → Kept t'
unfolding start_loop test_loop publish
Step-Kept t t' (starting_up _ _ e h) k = started_up t t' t.stage refl k h
Step-Kept t _ (testing _ e) k = record {
  set_now = k.set_now;
  fits =
      subst (λ b. Fits (if b then leaving else asleep) t.stage) (sym k.set_now)
        (test-Fits t.stage (at_place t locking e k));
}
Step-Kept t _ (waking _ e) k = record {
  set_now = k.set_now;
  fits = not_unborn t.stage (at_place t asleep e k);
}
Step-Kept t _ (returning _ e) k = record {
  set_now = k.set_now;
  fits = subst (λ b. Fits (returned b) t.stage) (sym k.set_now) (at_place t leaving e k);
}
Step-Kept t _ (publishing _ has e) k = record {
  set_now = refl;
  fits = publish-Fits t.starter (subst (Fits t.starter) e k.fits);
}
Step-Kept t _ (loop_returns _ e) k = record {
  set_now = k.set_now ∙ ap is_set e;
  fits = stop-Fits t.starter (subst (Fits t.starter) e k.fits);
}
Step-Kept t _ (clearing _ e) k = record {
  set_now = refl;
  fits = clear-Fits t.starter (subst (Fits t.starter) e k.fits);
}

Reaches-Kept : (t : LoopThread) → Reaches t → Kept t
Reaches-Kept _ at_start = record { set_now = refl; fits = refl }
Reaches-Kept _ (after {t} {t'} r s) = Step-Kept t t' s (Reaches-Kept t r)

-- In every schedule, while the loop's thread has not ended its loop and cleared the pointer,
-- `startLoop` sleeps only where the notice is still to come, and what it returns is a pointer that was set.
pub Reaches-returned :
    (t : LoopThread) (b : Bool)
    → Reaches t
    → t.stage ≢ over
    → (t.starter ≡ asleep) ⊎ (t.starter ≡ returned b)
    → ((t.starter ≡ asleep) × (t.stage ≡ starting)) ⊎ ((t.starter ≡ returned b) × (b ≡ true))
Reaches-returned t b r on (inl e) = elim (at_place t asleep e (Reaches-Kept t r)) [
  | inl h ↦ inl (e, h)
  | inr h ↦ absurd (on h)
]
Reaches-returned t b r on (inr e) = elim (at_place t (returned b) e (Reaches-Kept t r)) [
  | inl h ↦ inr (e, h)
  | inr h ↦ absurd (on h)
]

-- ===== src/Net/Timers.antt =====
-- net/Timer.h, net/TimerManager.h and net/TimerManager.cpp, with the timers of net/EventLoop.cpp, in
-- the thread of the loop.
--
-- Times are nanoseconds of the steady clock as numbers. The priority queue is the list of its
-- timers, the top first: `TimerCmp` orders them by expiration and then by number, and no two have
-- one number. `Timer` objects are shared by the queue and the vector of `handleRead`, and their
-- number stands for the object. What a callback does to timers is an argument: the numbers that it
-- cancels. `none` is an abort.
mod Tests
pub mod Queue
pub mod Batch
pub mod Descriptor
use ssxrver.Prelude.{
  ℕ, zero, suc, ◌+◌, ◌-◌, ◌*◌, ◌/◌, ◌%◌, ◌^◌, ◌≤◌, ◌<◌, min, ◌≡◌, refl, sym, ap, ◌∙◌, ◌≢◌, ◌↔◌, ◌⊎◌,
  inl, inr, Bool, true, false, not, ◌&&◌, ◌||◌, Option, none, some, List, [], ◌∷◌, ◌++◌, map,
  append-nil, append_assoc, arith, ltb, leb, ◌==◌, if◌then◌else◌, ltb→lt, lt→ltb, leb→le, ==_iff,
  tests, Bool-cases, Option-cases, length, get_elem?, set, length-append, length-set,
  get_elem?-set_self, get_elem?-set_ne, get_or, take, drop, replicate, take-append-drop,
  length-take, length-drop, length-replicate, length-map, take-append, drop-append, take_all,
  drop_all, drop-drop, drop-take, take-take, select, All, All-append, All-map, ◌>>=◌, ◌>>◌, assert,
}

pub record Timer : Type 0 where
  pub expiration : ℕ
  pub interval : ℕ
  pub is_repeat : Bool
  pub is_delete : Bool
  pub seq : ℕ

-- The constructor; `next` is `sTimerNum_`.
unfoldable pub new_timer : ℕ → ℕ → ℕ → Timer
new_timer when interval next = record {
  expiration = when;
  interval = interval;
  is_repeat = ltb 0 interval;
  is_delete = false;
  seq = next;
}

abbrev pub restart : Timer → ℕ → Timer
restart t now = record t { expiration = now + t.interval }

-- `TimerCmp` with its arguments swapped: `a` comes out of the queue before `b`.
abbrev pub before : Timer → Timer → Bool
before a b = if a.expiration == b.expiration then ltb a.seq b.seq else ltb a.expiration b.expiration

-- `timers_`, and the times that the timer descriptor was set to, newest first.
pub record Manager : Type 0 where
  pub timers : List Timer
  pub armed : List ℕ

-- `priority_queue::push`.
unfoldable pub push : List Timer → Timer → List Timer
push [] t = t ∷ []
push (u ∷ q) t = if before t u then t ∷ u ∷ q else u ∷ push q t

-- Whether the new timer is the earliest, by the top of the queue.
earliest_changed : List Timer → Timer → Bool
earliest_changed [] t = true
earliest_changed (top ∷ q) t = ltb t.expiration top.expiration

unfoldable pub insert : List Timer → Timer → Bool × List Timer
unfolding earliest_changed
insert q t = (earliest_changed q t, push q t)

unfoldable pub add_timer_in_loop : Manager → Timer → Manager
add_timer_in_loop m t =
    let (changed, q) = insert m.timers t in
    record { timers = q; armed = if changed then t.expiration ∷ m.armed else m.armed }

-- A pointer to a timer that was made is not null.
is_null : Option Timer → Bool
is_null none = true
is_null (some t) = false

-- `addTimer` in the loop's thread: `runInLoop` calls at once, then the assertion is checked.
unfoldable pub add_timer : Manager → ℕ → ℕ → ℕ → Option (Timer × Manager)
unfolding is_null
add_timer m when interval next = do
  let timer = new_timer when interval next
  let m' = add_timer_in_loop m timer
  assert (is_null (some timer))
  some (timer, m')

-- `EventLoop::runAt`, `runEvery` and `runAfter`; `now` is what the clock says.
unfoldable pub run_at : Manager → ℕ → ℕ → Option (Timer × Manager)
run_at m time next = add_timer m time 0 next

unfoldable pub run_every : Manager → ℕ → ℕ → ℕ → Option (Timer × Manager)
run_every m interval now next = add_timer m (now + interval) interval next

unfoldable pub run_after : Manager → ℕ → ℕ → ℕ → Option (Timer × Manager)
run_after m delay now next = add_timer m (now + delay) 0 next

-- `cancelInLoop`, on every place that holds the timer.
unfoldable pub cancel_in_loop : ℕ → List Timer → List Timer
cancel_in_loop seq = map λ t. if t.seq == seq then record t { is_delete = true } else t

unfoldable pub get_expired : List Timer → ℕ → List Timer × List Timer
get_expired [] now = ([], [])
get_expired (top ∷ q) now =
    let (expired, rest) = get_expired q now in
    if leb top.expiration now
    then (if top.is_delete then expired else top ∷ expired, rest)
    else ([], top ∷ q)

unfoldable pub member : ℕ → List ℕ → Bool
member n [] = false
member n (k ∷ ks) = k == n || member n ks

-- The timer as the cancellations made so far leave it.
unfoldable pub cancelled_by : List ℕ → Timer → Timer
unfolding member
cancelled_by cs t = record t { is_delete = t.is_delete || member t.seq cs }

-- The loop of `handleRead` over the expired timers: the numbers of those run, in order, and all the
-- cancellations, newest last.
unfoldable pub run_expired : (ℕ → List ℕ) → List Timer → List ℕ → List ℕ × List ℕ
run_expired callback [] cs = ([], cs)
run_expired callback (t ∷ ts) cs =
    let gone = (cancelled_by cs t).is_delete in
    let (ran, cs') = run_expired callback ts (if gone then cs else cs ++ callback t.seq) in
    (if gone then ran else t.seq ∷ ran, cs')

-- The first loop of `reset`.
unfoldable pub requeue : List Timer → ℕ → List Timer → List Timer
requeue [] now q = q
requeue (t ∷ ts) now q =
    requeue ts now (if t.is_repeat && not t.is_delete then (insert q (restart t now)).1 else q)

-- The second: deleted timers leave the top, and the descriptor is set for the one below.
unfoldable pub settle : List Timer → List ℕ → Manager
settle [] armed = record { timers = []; armed = armed }
settle (top ∷ q) armed =
    let rest = settle q armed in
    if top.is_delete then rest else record { timers = top ∷ q; armed = top.expiration ∷ armed }

unfoldable pub reset : Manager → List Timer → ℕ → Manager
reset m expired now = settle (requeue expired now m.timers) m.armed

-- `handleRead`: the numbers of the timers that were run, and the manager behind it.
unfoldable pub handle_read : (ℕ → List ℕ) → Manager → ℕ → List ℕ × Manager
handle_read callback m now =
    let (expired, rest) = get_expired m.timers now in
    let (ran, cs) = run_expired callback expired [] in
    (
      ran,
      reset (record m { timers = map (cancelled_by cs) rest }) (map (cancelled_by cs) expired) now,
    )

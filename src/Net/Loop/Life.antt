-- ===== src/Net/Loop/Life.antt =====
-- net/EventLoop.cpp: making and ending loops, `runInLoop`, and the guard of the loop's thread. With
-- them the constructors and destructors of net/TimerManager.cpp and net/Channel.cpp.
--
-- A thread is its number. `Loops` is the living loops of all threads, by address, and
-- `t_loopInThisThread` of each thread. The two descriptors of a loop are what the kernel answers.
mod Tests
pub mod Outcomes
pub mod Threads
use ssxrver.Prelude.{
  ℕ, zero, suc, ◌+◌, ◌-◌, ◌*◌, ◌/◌, ◌%◌, ◌^◌, ◌≤◌, ◌<◌, min, ◌≡◌, refl, sym, ap, ◌∙◌, ◌≢◌, ◌↔◌, ◌⊎◌,
  inl, inr, Bool, true, false, not, ◌&&◌, ◌||◌, Option, none, some, List, [], ◌∷◌, ◌++◌, map,
  append-nil, append_assoc, arith, ltb, leb, ◌==◌, if◌then◌else◌, ltb→lt, lt→ltb, leb→le, ==_iff,
  tests, Bool-cases, Option-cases, length, get_elem?, set, length-append, length-set,
  get_elem?-set_self, get_elem?-set_ne, get_or, take, drop, replicate, take-append-drop,
  length-take, length-drop, length-replicate, length-map, take-append, drop-append, take_all,
  drop_all, take-append_past, drop-drop, drop-take, take-take, select, All, All-append, All-map,
  ◌>>=◌, ◌>>◌, assert, codes, same, strncmp_equal, c_str, value_from, decimal_onto, decimal,
}
use ssxrver.Net.Events.{read_event_lt}
use ssxrver.Net.Poller.{
  Poller, Channel, record_call, new_channel, closed, enable_events, disable_all, remove,
}
use ssxrver.Net.LoopQueue.{LoopQueue, push_elsewhere}

pub record Loop : Type 0 where
  pub thread_id : ℕ
  pub poller : Poller
  pub timer_channel : Channel
  pub wakeup_channel : Channel

pub record Loops : Type 0 where
  pub in_this_thread : ℕ → Option ℕ
  pub living : ℕ → Option Loop

abbrev pub no_loops : Loops
no_loops = record { in_this_thread = λ tid. none; living = λ name. none }

unfoldable pub put : {A : Type 0} → ℕ → A → (ℕ → A) → ℕ → A
put k v f i = if i == k then v else f i

abbrev pub is_free : Option ℕ → Bool
is_free none = true
is_free (some _) = false

unfoldable pub is_in_loop_thread : ℕ → Loop → Bool
is_in_loop_thread tid l = l.thread_id == tid

-- `assertInLoopThread`, where the log of a fatal error aborts.
unfoldable pub assert_in_loop_thread : ℕ → Loop → Option (Unit {0})
unfolding is_in_loop_thread
assert_in_loop_thread tid l = assert (is_in_loop_thread tid l)

-- `updateChannel` of the loop. The channel that calls it is one of the loop's own, so its test of
-- the owner passes.
unfoldable pub updated : ℕ → Loop → Poller × Channel → Option (Poller × Channel)
updated tid l result = assert_in_loop_thread tid l >> some result

-- `TimerManager::TimerManager` and the last line of `EventLoop::EventLoop` enable a channel.
unfoldable pub enabled : ℕ → Loop → Channel → Option (Poller × Channel)
enabled tid l c = updated tid l (enable_events l.poller c read_event_lt)

-- `~Channel`.
unfoldable pub end_channel : Poller → Channel → Option Poller
end_channel p c = do
  assert (not c.event_handling)
  assert (not c.added_to_loop)
  some (record_call p (closed c.fd))

-- `disableAll`, `remove` and `close`, as in both destructors.
unfoldable pub unwatch : ℕ → Loop → Channel → Option (Poller × Channel)
unwatch tid l c = do
  off ← updated tid l (disable_all l.poller c)
  gone ← remove off.0 off.1
  assert_in_loop_thread tid l
  some (record_call gone.0 (closed c.fd), gone.1)

-- `EventLoop::EventLoop` at an address: `none` for a descriptor is the kernel's refusal.
unfoldable pub new_loop : ℕ → ℕ → Option ℕ → Option ℕ → Loops → Option Loops
new_loop tid name timer wakeup s = do
  timer_fd ← timer
  wakeup_fd ← wakeup
  let l : Loop = record {
    thread_id = tid;
    poller = record { channels = []; calls = [] };
    timer_channel = new_channel timer_fd;
    wakeup_channel = new_channel wakeup_fd;
  }
  timed ← enabled tid l l.timer_channel
  assert (is_free (s.in_this_thread tid))
  let l' : Loop = record l { poller = timed.0; timer_channel = timed.1 }
  woken ← enabled tid l' l'.wakeup_channel
  some (record {
    in_this_thread = put tid (some name) s.in_this_thread;
    living = put name (some (record l' { poller = woken.0; wakeup_channel = woken.1 })) s.living;
  })

-- `~EventLoop` with the destructors of its members: the poller behind them.
unfoldable pub end_loop : ℕ → Loop → Option Poller
end_loop tid l = do
  woken ← unwatch tid l l.wakeup_channel
  p ← end_channel woken.0 woken.1
  timed ← unwatch tid (record l { poller = p }) l.timer_channel
  end_channel timed.0 timed.1

unfoldable pub destroy : ℕ → ℕ → Loop → Loops → Option Loops
destroy tid name l s = do
  p ← end_loop tid l
  some (record { in_this_thread = put tid none s.in_this_thread; living = put name none s.living })

-- `runInLoop` up to the end of a critical section: the queue behind it, and what was called at once.
unfoldable pub run_in_loop : ℕ → Loop → LoopQueue → ℕ → LoopQueue × List ℕ
run_in_loop tid l q cb = if is_in_loop_thread tid l then (q, cb ∷ []) else (push_elsewhere q cb, [])

pub data Step : Loops → Loops → Type 0 where
  made :
      (tid name : ℕ) (timer wakeup : Option ℕ) (s s' : Loops)
      → s.living name ≡ none
      → new_loop tid name timer wakeup s ≡ some s'
      → Step s s'
  ended :
      (tid name : ℕ) (l : Loop) (s s' : Loops)
      → s.living name ≡ some l
      → destroy tid name l s ≡ some s'
      → Step s s'

pub data Reaches : Loops → Type 0 where
  at_start : Reaches no_loops
  after : {s s' : Loops} → Reaches s → Step s s' → Reaches s'

-- ===== src/Net/Loop.antt =====
-- net/EventLoop.cpp: `loop`, its turns and `quit`.
--
-- A turn is what `poll` gave it to do: the handlers of the active channels, then the functions that
-- were queued. Each is a number, and says whether it calls `quit`. `trace` is what was called, with
-- `eventHandling_` and `callingFunctors_` at the time.
mod Tests
pub mod Turns
pub mod Life
use ssxrver.Prelude.{
  ℕ, zero, suc, ◌+◌, ◌-◌, ◌*◌, ◌/◌, ◌%◌, ◌^◌, ◌≤◌, ◌<◌, min, ◌≡◌, refl, sym, ap, ◌∙◌, ◌≢◌, ◌↔◌, ◌⊎◌,
  inl, inr, Bool, true, false, not, ◌&&◌, ◌||◌, Option, none, some, List, [], ◌∷◌, ◌++◌, map,
  append-nil, append_assoc, arith, ltb, leb, ◌==◌, if◌then◌else◌, ltb→lt, lt→ltb, leb→le, ==_iff,
  tests, Bool-cases, Option-cases, length, get_elem?, set, length-append, length-set,
  get_elem?-set_self, get_elem?-set_ne, get_or, take, drop, replicate, take-append-drop,
  length-take, length-drop, length-replicate, length-map, take-append, drop-append, take_all,
  drop_all, take-append_past, drop-drop, drop-take, take-take, select, All, All-append, All-map,
  ◌>>=◌, ◌>>◌, assert, codes, same, strncmp_equal, c_str, value_from, decimal_onto, decimal,
}

pub record Action : Type 0 where
  pub name : ℕ
  pub quits : Bool

pub record Turn : Type 0 where
  pub handlers : List Action
  pub functors : List Action

pub record Call : Type 0 where
  pub name : ℕ
  pub event_handling : Bool
  pub calling_functors : Bool

pub record EventLoop : Type 0 where
  pub looping : Bool
  pub quit : Bool
  pub event_handling : Bool
  pub calling_functors : Bool
  pub trace : List Call

abbrev pub new_loop : EventLoop
new_loop = record {
  looping = false;
  quit = false;
  event_handling = false;
  calling_functors = false;
  trace = [];
}

-- `quit` in the thread of the loop; from another it wakes the loop as well.
unfoldable pub quit : EventLoop → EventLoop
quit l = record l { quit = true }

call_one : EventLoop → Action → EventLoop
call_one l a =
    let c : Call = record {
      name = a.name;
      event_handling = l.event_handling;
      calling_functors = l.calling_functors;
    } in
    record l { quit = a.quits || l.quit; trace = l.trace ++ (c ∷ []) }

call_all : EventLoop → List Action → EventLoop
unfolding call_one
call_all l [] = l
call_all l (a ∷ as') = call_all (call_one l a) as'

-- `runFunctors`.
unfoldable pub run_functors : EventLoop → List Action → EventLoop
unfolding call_all
run_functors l fs = record (call_all (record l { calling_functors = true }) fs) {
  calling_functors = false;
}

-- The body of the loop of `loop`.
unfoldable pub turn : EventLoop → Turn → EventLoop
unfolding run_functors call_all
turn l t =
    let handled = call_all (record l { event_handling = true }) t.handlers in
    run_functors (record handled { event_handling = false }) t.functors

pub data Outcome : Type 0 where
  returned : EventLoop → Outcome
  -- In `epoll_wait`.
  polling : EventLoop → Outcome

unfoldable pub turns : EventLoop → List Turn → Outcome
turns l [] = if not l.quit then polling l else returned l
turns l (t ∷ ts) = let more = turns (turn l t) ts in if not l.quit then more else returned l

stopped : Outcome → Outcome
stopped (returned l) = returned (record l { looping = false })
stopped (polling l) = polling l

-- `loop`. `none` is a failed assertion.
unfoldable pub loop : EventLoop → List Turn → Option Outcome
unfolding stopped
loop l ts = do
  assert (not l.looping)
  some (stopped (turns (record l { looping = true; quit = false }) ts))

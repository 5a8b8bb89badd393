-- ===== src/Net/Loop/Turns.antt =====
-- net/EventLoop.cpp: a whole run of `loop`.
use ssxrver.Prelude.{
  ◌≡◌, refl, sym, ap, ◌∙◌, Bool, true, false, ◌||◌, some, List, [], ◌∷◌, ◌++◌, append-nil,
  append_assoc, All,
}
use ssxrver.Net.Loop.{
  Action, Turn, Call, EventLoop, call_one, call_all, run_functors, turn, turns, stopped, loop,
  returned,
}

-- The calls of a turn: the handlers, then the queued functions, each with the flags of its kind.
abbrev pub calls_of : Bool → Bool → List Action → List Call
calls_of handling functors [] = []
calls_of handling functors (a ∷ as') =
    record { name = a.name; event_handling = handling; calling_functors = functors }
    ∷ calls_of handling functors as'

abbrev pub turn_calls : Turn → List Call
turn_calls t = calls_of true false t.handlers ++ calls_of false true t.functors

abbrev pub all_calls : List Turn → List Call
all_calls [] = []
all_calls (t ∷ ts) = turn_calls t ++ all_calls ts

abbrev pub any_quits : List Action → Bool
any_quits [] = false
any_quits (a ∷ as') = a.quits || any_quits as'

abbrev pub turn_quits : Turn → Bool
turn_quits t = any_quits t.functors || any_quits t.handlers

or_regroup : (a b c : Bool) → b || (a || c) ≡ (a || b) || c
or_regroup true true c = refl
or_regroup true false c = refl
or_regroup false b c = refl

call_all_lem :
    (l : EventLoop) (as' : List Action)
    → call_all l as' ≡ record l {
      quit = any_quits as' || l.quit;
      trace = l.trace ++ calls_of l.event_handling l.calling_functors as';
    }
unfolding call_all
call_all_lem l [] = ap (λ t. record l { trace = t }) (sym (append-nil l.trace))
call_all_lem l (a ∷ as') =
    call_all_lem (call_one l a) as'
    ∙ ap (λ t. record l { quit = any_quits as' || (a.quits || l.quit); trace = t })
        (append_assoc l.trace (first ∷ []) (calls_of l.event_handling l.calling_functors as'))
    ∙ ap
        (λ b. record l {
          quit = b;
          trace = l.trace ++ (first ∷ calls_of l.event_handling l.calling_functors as');
        })
        (or_regroup a.quits (any_quits as') l.quit)
  where
    first : Call
    first = record {
      name = a.name;
      event_handling = l.event_handling;
      calling_functors = l.calling_functors;
    }

-- A loop that handles no event and calls no function.
abbrev pub at_rest : Bool → Bool → List Call → EventLoop
at_rest on q calls = record {
  looping = on;
  quit = q;
  event_handling = false;
  calling_functors = false;
  trace = calls;
}

turn-at_rest :
    (on q : Bool) (calls : List Call) (t : Turn)
    → turn (at_rest on q calls) t ≡ at_rest on (turn_quits t || q) (calls ++ turn_calls t)
unfolding turn run_functors
turn-at_rest on q calls t =
    ap {A = EventLoop}
      (λ l.
        record (call_all (record l { event_handling = false; calling_functors = true })
          t.functors) { calling_functors = false })
      (call_all_lem (record (at_rest on q calls) { event_handling = true }) t.handlers)
    ∙ ap {A = EventLoop} (λ l. record l { calling_functors = false })
        (call_all_lem
          (record (at_rest on (any_quits t.handlers || q)
            (calls ++ calls_of true false t.handlers)) { calling_functors = true })
          t.functors)
    ∙ ap (λ c. at_rest on (any_quits t.functors || (any_quits t.handlers || q)) c)
        (append_assoc calls (calls_of true false t.handlers) (calls_of false true t.functors))
    ∙ ap (λ b. at_rest on b (calls ++ turn_calls t))
        (or_assoc (any_quits t.functors) (any_quits t.handlers) q)
  where
    or_assoc : (a b c : Bool) → a || (b || c) ≡ (a || b) || c
    or_assoc true b c = refl
    or_assoc false b c = refl

turns_quit :
    (calls : List Call) (ts rest : List Turn) (t : Turn)
    → All (λ u. turn_quits u ≡ false) ts
    → turn_quits t ≡ true
    → turns (at_rest true false calls) (ts ++ (t ∷ rest))
      ≡ returned (at_rest true true (calls ++ (all_calls ts ++ turn_calls t)))
unfolding turns
turns_quit calls [] rest t h e =
    ap (λ l. turns l rest)
      (turn-at_rest true false calls t
        ∙ ap (λ b. at_rest true (b || false) (calls ++ turn_calls t)) e)
    ∙ by_rest rest
  where
    by_rest :
        (rs : List Turn)
        → turns (at_rest true true (calls ++ turn_calls t)) rs
          ≡ returned (at_rest true true (calls ++ turn_calls t))
    by_rest [] = refl
    by_rest (r ∷ rs) = refl
turns_quit calls (u ∷ ts) rest t h e =
    ap (λ l. turns l (ts ++ (t ∷ rest)))
      (turn-at_rest true false calls u
        ∙ ap (λ b. at_rest true (b || false) (calls ++ turn_calls u)) h.0)
    ∙ turns_quit (calls ++ turn_calls u) ts rest t h.1 e
    ∙ ap (λ c. returned (at_rest true true c))
        (append_assoc calls (turn_calls u) (all_calls ts ++ turn_calls t)
          ∙ ap (◌++◌ calls) (sym (append_assoc (turn_calls u) (all_calls ts) (turn_calls t))))

-- A loop that is started, whether `quit` was called before or not, returns behind the first turn in
-- which something calls `quit`, and not before the end of that turn. In each turn the handlers were
-- called in order with `eventHandling_` set, then the queued functions with `callingFunctors_` set.
pub loop_lem :
    (before : Bool) (calls : List Call) (ts rest : List Turn) (t : Turn)
    → All (λ u. turn_quits u ≡ false) ts
    → turn_quits t ≡ true
    → loop (at_rest false before calls) (ts ++ (t ∷ rest))
      ≡ some (returned (at_rest false true (calls ++ (all_calls ts ++ turn_calls t))))
unfolding loop
loop_lem before calls ts rest t h e = ap (λ o. some (stopped o)) (turns_quit calls ts rest t h e)

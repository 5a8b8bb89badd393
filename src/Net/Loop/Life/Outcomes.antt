-- ===== src/Net/Loop/Life/Outcomes.antt =====
-- What `new_loop`, `destroy` and their parts do on each branch.
use ssxrver.Prelude.{
  ℕ, ◌≡◌, refl, ◌≢◌, ◌⊎◌, inl, inr, true, false, Option, none, some, List, [], ◌∷◌, arith, ◌==◌,
  ==_iff, Bool-cases, Option-cases,
}
use ssxrver.Net.Poller.{
  Poller, Channel, new_channel, closed, ctl_add, ctl_del, enable_events, disable_all, remove,
  update, update_channel, remove_channel,
}
use ssxrver.Net.Events.{read_event_lt}
use ssxrver.Net.Loop.Life.{
  Loop, Loops, put, is_in_loop_thread, assert_in_loop_thread, updated, enabled, end_channel,
  unwatch, new_loop, end_loop, destroy,
}

-- The loop that `new_loop` makes.
abbrev pub made_loop : ℕ → ℕ → ℕ → Loop
made_loop tid t w = record {
  thread_id = tid;
  poller = record {
    channels = w ∷ t ∷ [];
    calls = ctl_add w read_event_lt ∷ ctl_add t read_event_lt ∷ [];
  };
  timer_channel =
      (enable_events (record { channels = []; calls = [] }) (new_channel t) read_event_lt).1;
  wakeup_channel =
      (enable_events (record { channels = []; calls = [] }) (new_channel w) read_event_lt).1;
}

pub ==_self : (n : ℕ) → (n == n) ≡ true
==_self n = ground arith

abbrev pub with_loop : ℕ → ℕ → Loop → Loops → Loops
with_loop tid name l s = record {
  in_this_thread = put tid (some name) s.in_this_thread;
  living = put name (some l) s.living;
}

pub new_loop_free :
    (tid name t w : ℕ) (s : Loops)
    → s.in_this_thread tid ≡ none
    → new_loop tid name (some t) (some w) s ≡ some (with_loop tid name (made_loop tid t w) s)
unfolding new_loop enabled updated assert_in_loop_thread is_in_loop_thread enable_events update
    update_channel new_channel
new_loop_free tid name t w s h = simp (==_self tid, h)

pub new_loop_taken :
    (tid name other : ℕ) (timer wakeup : Option ℕ) (s : Loops)
    → s.in_this_thread tid ≡ some other
    → new_loop tid name timer wakeup s ≡ none
unfolding new_loop enabled updated assert_in_loop_thread is_in_loop_thread enable_events update
    update_channel new_channel
new_loop_taken tid name other none wakeup s h = refl
new_loop_taken tid name other (some t) none s h = refl
new_loop_taken tid name other (some t) (some w) s h = simp (==_self tid, h)

abbrev pub without_loop : ℕ → ℕ → Loops → Loops
without_loop tid name s = record {
  in_this_thread = put tid none s.in_this_thread;
  living = put name none s.living;
}

-- What the two descriptors go through when the loop ends: each is closed by `removeChannel`, by the
-- destructor that removes its channel, and by `~Channel`.
abbrev pub end_calls : ℕ → ℕ → List ssxrver.Net.Poller.Call
end_calls t w =
    closed t
    ∷ closed t
    ∷ closed t
    ∷ ctl_del t
    ∷ closed w
    ∷ closed w
    ∷ closed w
    ∷ ctl_del w
    ∷ ctl_add w read_event_lt
    ∷ ctl_add t read_event_lt
    ∷ []

end_loop_there :
    (tid t w : ℕ)
    → end_loop tid (made_loop tid t w)
      ≡ some (record { channels = w ∷ t ∷ []; calls = end_calls t w })
unfolding end_loop unwatch end_channel updated assert_in_loop_thread is_in_loop_thread disable_all
    enable_events update update_channel new_channel remove remove_channel
end_loop_there tid t w = simp (==_self tid)

end_loop_elsewhere : (tid : ℕ) (l : Loop) → (l.thread_id == tid) ≡ false → end_loop tid l ≡ none
unfolding end_loop unwatch updated assert_in_loop_thread is_in_loop_thread
end_loop_elsewhere tid l h = simp (h)

pub destroy-thread_id :
    (tid name : ℕ) (l : Loop) (s s' : Loops)
    → destroy tid name l s ≡ some s'
    → (l.thread_id ≡ tid) × (s' ≡ without_loop tid name s)
unfolding destroy
destroy-thread_id tid name l s s' h = elim (Option-cases (end_loop tid l)) [
  | inl gone ↦ let refused : none ≡ some s' = simp (gone) at h in cc refused
  | inr (p, there) ↦
      let done : some (without_loop tid name s) ≡ some s' = simp (there) at h in
      elim (Bool-cases (l.thread_id == tid)) [
        | inr e ↦ absurd (cc (there, end_loop_elsewhere tid l e))
        | inl e ↦ ((==_iff l.thread_id tid).0 e, cc done)
      ]
]

new_loop_refused :
    (tid name : ℕ) (timer wakeup : Option ℕ) (s : Loops)
    → (timer ≡ none) ⊎ (wakeup ≡ none)
    → new_loop tid name timer wakeup s ≡ none
unfolding new_loop
new_loop_refused tid name none wakeup s e = refl
new_loop_refused tid name (some t) none s e = refl
new_loop_refused tid name (some t) (some w) s (inl e) = absurd (cc e)
new_loop_refused tid name (some t) (some w) s (inr e) = absurd (cc e)

pub new_loop-in_this_thread :
    (tid name : ℕ) (timer wakeup : Option ℕ) (s s' : Loops)
    → new_loop tid name timer wakeup s ≡ some s'
    → (l : Loop) × (l.thread_id ≡ tid)
      × ((s.in_this_thread tid ≡ none) × (s' ≡ with_loop tid name l s))
new_loop-in_this_thread tid name none wakeup s s' h =
    absurd (cc (h, new_loop_refused tid name none wakeup s (inl refl)))
new_loop-in_this_thread tid name (some t) none s s' h =
    absurd (cc (h, new_loop_refused tid name (some t) none s (inr refl)))
new_loop-in_this_thread tid name (some t) (some w) s s' h =
    elim (Option-cases (s.in_this_thread tid)) [
      | inr (other, e) ↦ absurd (cc (h, new_loop_taken tid name other (some t) (some w) s e))
      | inl e ↦ (made_loop tid t w, refl, (e, cc (h, new_loop_free tid name t w s e)))
    ]

pub destroy_elsewhere :
    (tid name : ℕ) (l : Loop) (s : Loops) → l.thread_id ≢ tid → destroy tid name l s ≡ none
unfolding destroy
destroy_elsewhere tid name l s d =
    let apart : (l.thread_id == tid) ≡ false = ground (arith, d) in
    simp (end_loop_elsewhere tid l apart)

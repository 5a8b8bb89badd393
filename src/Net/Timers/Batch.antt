-- ===== src/Net/Timers/Batch.antt =====
-- One `handleRead`: which timers are queued again, and what the descriptor is set to.
use ssxrver.Prelude.{
  ℕ, ◌≤◌, ◌≡◌, refl, inl, inr, Bool, true, false, not, ◌&&◌, List, [], ◌∷◌, ◌++◌, map, append-nil,
  arith, if◌then◌else◌, Bool-cases, select, All, All-map, ◌||◌, ◌⊎◌,
}
use mathlib.Core.List.{Perm, perm_middle}
use mathlib.Core.List.Perm
use mathlib.Core.List.{Mem, mem-cons_self, mem-cons_of_mem}
use ssxrver.Net.Timers.{
  Timer, Manager, before, push, insert, get_expired, cancelled_by, run_expired, requeue, settle,
  reset, restart, handle_read, member,
}
use ssxrver.Net.Timers.Queue.{IsSorted, live, push-perm}

-- The queue is empty behind deleted timers, or a timer that is live is on top, the descriptor is set
-- to its time, and no live timer of `q` is due before it.
pub data Settled (q : List Timer) (armed : List ℕ) (m : Manager) : Type 0 where
  emptied : m.timers ≡ [] → m.armed ≡ armed → All (λ u. live u ≡ false) q → Settled q armed m
  armed_for :
      (top : Timer) (rest : List Timer)
      → m.timers ≡ top ∷ rest
      → live top ≡ true
      → m.armed ≡ top.expiration ∷ armed
      → All (λ u. live u ≡ true → top.expiration ≤ u.expiration) q
      → Settled q armed m

Settled-cons :
    (t : Timer) (q : List Timer) (armed : List ℕ) (m : Manager)
    → live t ≡ false
    → Settled q armed m
    → Settled (t ∷ q) armed m
Settled-cons t q armed m d (emptied e a l) = emptied e a (d, l)
Settled-cons t q armed m d (armed_for top rest e l a f) =
    armed_for top rest e l a ((λ alive. ground arith), f)

settle_top :
    (t : Timer) (q : List Timer) (armed : List ℕ) (gone : Bool)
    → t.is_delete ≡ gone
    → IsSorted (t ∷ q)
    → Settled q armed (settle q armed)
    → Settled
        (t ∷ q)
        armed
        (if gone then settle q armed else record { timers = t ∷ q; armed = t.expiration ∷ armed })
settle_top t q armed true e s rest = Settled-cons t q armed (settle q armed) (rw e) rest
settle_top t q armed false e s rest =
    armed_for t q refl (rw e) refl ((λ l. omega arith), All-map _ _ (λ u b l. ground arith) q s.0)

-- The loop at the end of `reset` on a sorted queue: it stops at a live timer that is due before every
-- live one and sets the descriptor to its time, or empties a queue in which all are deleted.
pub settle_lem : (q : List Timer) (armed : List ℕ) → IsSorted q → Settled q armed (settle q armed)
unfolding settle
settle_lem [] armed s = emptied refl refl tt
settle_lem (t ∷ q) armed s = settle_top t q armed t.is_delete refl s (settle_lem q armed s.1)

abbrev pub repeats : Timer → Bool
repeats t = t.is_repeat && not t.is_delete

-- The repeating timers of a batch that are still live go back to the queue, due one interval from
-- now; the queue loses none, and gains no other.
pub requeue-perm :
    (ts : List Timer) (now : ℕ) (q : List Timer)
    → Perm (map (λ t. restart t now) (select repeats ts) ++ q) (requeue ts now q)
unfolding requeue insert
requeue-perm [] now q = Perm.refl q
requeue-perm (t ∷ ts) now q = elim (Bool-cases (repeats t)) [
  | inl again ↦ rw again (
      Perm.trans (Perm.symm (perm_middle (map (λ u. restart u now) (select repeats ts)) q)) (
        Perm.trans
          (Perm.append (Perm.refl (map (λ u. restart u now) (select repeats ts)))
            (push-perm q (restart t now)))
          (requeue-perm ts now (push q (restart t now)))))
  | inr never ↦ rw never (requeue-perm ts now q)
]

-- No timer of the list was cancelled by the callback of one before it, nor is it among `cs`.
abbrev pub Obeys : (ℕ → List ℕ) → List ℕ → List ℕ → Type 0
Obeys callback cs [] = Unit
Obeys callback cs (n ∷ ns) = (member n cs ≡ false) × Obeys callback (cs ++ callback n) ns

run_expired-Obeys :
    (callback : ℕ → List ℕ) (ts : List Timer) (cs : List ℕ)
    → Obeys callback cs (run_expired callback ts cs).0
unfolding run_expired cancelled_by
run_expired-Obeys callback [] cs = tt
run_expired-Obeys callback (t ∷ ts) cs = elim (Bool-cases (t.is_delete || member t.seq cs)) [
  | inl gone ↦ rw gone (run_expired-Obeys callback ts cs)
  | inr alive ↦
      rw alive (ground (arith, alive), run_expired-Obeys callback ts (cs ++ callback t.seq))
]

-- A timer that was not cancelled, or a deleted one that has waited in the queue `q` all along.
abbrev pub Rightly : List ℕ → List Timer → Timer → Type 0
Rightly cs q t = (member t.seq cs ≡ false) ⊎ ((live t ≡ false) × Mem t q)

push-Rightly :
    (cs : List ℕ) (w q : List Timer) (t : Timer)
    → Rightly cs w t
    → All (Rightly cs w) q
    → All (Rightly cs w) (push q t)
unfolding push
push-Rightly cs w [] t h k = (h, tt)
push-Rightly cs w (u ∷ q) t h k = elim (Bool-cases (before t u)) [
  | inl first ↦ rw first (h, k)
  | inr later ↦ rw later (k.0, push-Rightly cs w q t h k.1)
]

-- The timers that wait, as the cancellations leave them.
waiting-Rightly :
    (cs : List ℕ) (q w : List Timer)
    → ((t : Timer) → Mem t (map (cancelled_by cs) q) → Mem t w)
    → All (Rightly cs w) (map (cancelled_by cs) q)
unfolding cancelled_by
waiting-Rightly cs [] w h = tt
waiting-Rightly cs (t ∷ q) w h = (
  elim (Bool-cases (member t.seq cs)) [
    | inr kept ↦ inl kept
    | inl gone ↦ inr (ground (arith, gone), h _ mem-cons_self)
  ],
  waiting-Rightly cs q w (λ u m. h u (mem-cons_of_mem (cancelled_by cs t) m)),
)

requeue-Rightly :
    (cs : List ℕ) (ts : List Timer) (now : ℕ) (w q : List Timer)
    → All (Rightly cs w) q
    → All (Rightly cs w) (requeue (map (cancelled_by cs) ts) now q)
unfolding requeue insert cancelled_by
requeue-Rightly cs [] now w q k = k
requeue-Rightly cs (t ∷ ts) now w q k =
    requeue-Rightly cs ts now w _
      (queued (t.is_repeat && not (t.is_delete || member t.seq cs)) refl)
  where
    queued :
        (b : Bool)
        → t.is_repeat && not (t.is_delete || member t.seq cs) ≡ b
        → All (Rightly cs w) (if b then push q (restart (cancelled_by cs t) now) else q)
    queued true again =
        push-Rightly cs w q (restart (cancelled_by cs t) now) (inl (ground (arith, again))) k
    queued false never = k

settle-Rightly :
    (cs : List ℕ) (w q : List Timer) (armed : List ℕ)
    → All (Rightly cs w) q
    → All (Rightly cs w) (settle q armed).timers
unfolding settle
settle-Rightly cs w [] armed k = tt
settle-Rightly cs w (t ∷ q) armed k =
    choose t.is_delete (settle q armed) _ (settle-Rightly cs w q armed k.1) k
  where
    choose :
        (gone : Bool) (m m' : Manager)
        → All (Rightly cs w) m.timers
        → All (Rightly cs w) m'.timers
        → All (Rightly cs w) (if gone then m else m').timers
    choose true m m' h h' = h
    choose false m m' h h' = h'

-- Whatever the callbacks of a batch cancel, their own timer and later ones of the batch included: no
-- timer is run behind its cancellation; and a cancelled timer is in the queue that `handleRead`
-- leaves only where it was there all along, not due, and it is deleted. So none of the batch is
-- queued again behind its cancellation.
pub handle_read-Uncancelled :
    (callback : ℕ → List ℕ) (m : Manager) (now : ℕ)
    → let (expired, rest) = get_expired m.timers now in
      let cs = (run_expired callback expired []).1 in
      Obeys callback [] (handle_read callback m now).0
      × All
          (λ t. (member t.seq cs ≡ false) ⊎ ((live t ≡ false) × Mem t (map (cancelled_by cs) rest)))
          (handle_read callback m now).1.timers
unfolding handle_read reset
handle_read-Uncancelled callback m now =
    let (expired, rest) = get_expired m.timers now in
    let cs = (run_expired callback expired []).1 in
    let w = map (cancelled_by cs) rest in
    (
      run_expired-Obeys callback expired [],
      settle-Rightly cs w _ m.armed
          (requeue-Rightly cs expired now w w (waiting-Rightly cs rest w (λ t h. h))),
    )

-- The timers of the batch that run, in their order, where no callback cancels any: all of them that
-- are not deleted.
run_expired_quiet :
    (ts : List Timer) (cs : List ℕ)
    → All (λ t. member t.seq cs ≡ false) ts
    → run_expired (λ n. []) ts cs ≡ (map (λ t. t.seq) (select live ts), cs)
unfolding run_expired cancelled_by
run_expired_quiet [] cs h = refl
run_expired_quiet (t ∷ ts) cs h = elim (Bool-cases t.is_delete) [
  | inl gone ↦ rw (h.0, gone) (run_expired_quiet ts cs h.1)
  | inr alive ↦ rw (h.0, alive, append-nil cs, run_expired_quiet ts cs h.1)
]

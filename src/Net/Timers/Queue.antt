-- ===== src/Net/Timers/Queue.antt =====
-- The order of the queue, and what taking the expired timers off it gives.
use ssxrver.Prelude.{
  ◌⊎◌, inl, inr, ℕ, ◌<◌, ◌≡◌, refl, ◌≢◌, inl, inr, Bool, true, false, not, ◌&&◌, none, List, [],
  ◌∷◌, arith, leb, Bool-cases, select, All,
}
use mathlib.Core.List.{Perm}
use mathlib.Core.List.Perm
use ssxrver.Net.Timers.{
  Timer, Manager, before, push, insert, earliest_changed, add_timer_in_loop, add_timer, run_at,
  run_every, run_after, get_expired,
}

-- The queue's order, with the number of each timer unlike those behind it.
abbrev pub IsSorted : List Timer → Type 0
IsSorted [] = Unit {0}
IsSorted (t ∷ q) = All (λ u. before t u ≡ true) q × IsSorted q

abbrev pub due : ℕ → Timer → Bool
due now t = leb t.expiration now

abbrev pub live : Timer → Bool
live t = not t.is_delete

later-none :
    (t : Timer) (now : ℕ) (q : List Timer)
    → now < t.expiration
    → All (λ u. before t u ≡ true) q
    → (select (λ u. due now u && live u) q ≡ []) × (select (λ u. not (due now u)) q ≡ q)
later-none t now [] h a = (refl, refl)
later-none t now (u ∷ q) h a = ground (arith, later-none t now q h a.1, a.0)

-- From a sorted queue `getExpired` takes just the timers that are due, in order, passes on those of
-- them that are not deleted, and leaves the others.
pub get_expired_lem :
    (q : List Timer) (now : ℕ)
    → IsSorted q
    → get_expired q now ≡ (select (λ t. due now t && live t) q, select (λ t. not (due now t)) q)
unfolding get_expired
get_expired_lem [] now s = refl
get_expired_lem (t ∷ q) now s = ground (arith, get_expired_lem q now s.1, later-none t now q)

push-before :
    (q : List Timer) (t u : Timer)
    → before u t ≡ true
    → All (λ v. before u v ≡ true) q
    → All (λ v. before u v ≡ true) (push q t)
unfolding push
push-before [] t u h a = (h, tt)
push-before (v ∷ q) t u h a = ground (arith, push-before q t u h a.1, a.0, a.1)

before_trans : (a b c : Timer) → before a b ≡ true → before b c ≡ true → before a c ≡ true
before_trans a b c h k = ground arith

before_total : (a b : Timer) → a.seq ≢ b.seq → before a b ≡ false → before b a ≡ true
before_total a b h k = ground arith

rest_later :
    (q : List Timer) (t u : Timer)
    → before t u ≡ true
    → All (λ v. before u v ≡ true) q
    → All (λ v. before t v ≡ true) q
rest_later [] t u h a = tt
rest_later (v ∷ q) t u h a = (before_trans t u v h a.0, rest_later q t u h a.1)

-- Pushing a timer whose number is new keeps the order, and adds just that timer.
push-IsSorted :
    (q : List Timer) (t : Timer) → IsSorted q → All (λ u. t.seq ≢ u.seq) q → IsSorted (push q t)
unfolding push
push-IsSorted [] t s n = (tt, tt)
push-IsSorted (u ∷ q) t s n = elim (Bool-cases (before t u)) [
  | inl first ↦ rw first ((first, rest_later q t u first s.0), s)
  | inr later ↦
      rw later (push-before q t u (before_total t u n.0 later) s.0, push-IsSorted q t s.1 n.1)
]

pub push-perm : (q : List Timer) (t : Timer) → Perm (t ∷ q) (push q t)
unfolding push
push-perm [] t = Perm.refl (t ∷ [])
push-perm (u ∷ q) t = elim (Bool-cases (before t u)) [
  | inl first ↦ rw first (Perm.refl (t ∷ u ∷ q))
  | inr later ↦ rw later (Perm.trans (Perm.swap u t q) (Perm.cons u (push-perm q t)))
]

abbrev pub Earlier : Timer → List Timer → Type 0
Earlier t q = All (λ u. t.expiration < u.expiration) q

rest_after :
    (q : List Timer) (t top : Timer)
    → t.expiration < top.expiration
    → All (λ u. before top u ≡ true) q
    → Earlier t q
rest_after [] t top h a = tt
rest_after (u ∷ q) t top h a = (ground (arith, a.0), rest_after q t top h a.1)

earliest_iff :
    (q : List Timer) (t : Timer)
    → IsSorted q
    → (Earlier t q → earliest_changed q t ≡ true) × (earliest_changed q t ≡ true → Earlier t q)
unfolding earliest_changed
earliest_iff [] t s = (λ e. refl, λ e. tt)
earliest_iff (top ∷ q) t s =
    (λ e. ground (arith, e.0), λ e. (ground arith, rest_after q t top (ground arith) s.0))

-- Adding a timer with a new number to a sorted queue keeps the order. The descriptor is set anew, to the time of the
-- new timer, where it is due before all others, and is left alone where it is not.
pub add_timer_in_loop_lem :
    (m : Manager) (t : Timer)
    → IsSorted m.timers
    → All (λ u. t.seq ≢ u.seq) m.timers
    → IsSorted (add_timer_in_loop m t).timers
      × ((Earlier t m.timers × ((add_timer_in_loop m t).armed ≡ t.expiration ∷ m.armed))
          ⊎ (¬ Earlier t m.timers × ((add_timer_in_loop m t).armed ≡ m.armed)))
unfolding add_timer_in_loop insert
add_timer_in_loop_lem m t s n =
    let (to, from) = earliest_iff m.timers t s in
    (
      push-IsSorted m.timers t s n,
      elim (Bool-cases (earliest_changed m.timers t)) [
        | inl changed ↦ inl (from changed, rw changed)
        | inr same ↦ inr (λ first. absurd (ground (arith, to first, same)), rw same)
      ],
    )

-- Whatever is asked for, `addTimer` aborts on its own assertion, since the pointer is never null, and
-- with it `runAt`, `runEvery` and `runAfter`, whatever the clock says.
pub add_timer_aborts :
    (m : Manager) (when interval now next : ℕ)
    → (add_timer m when interval next ≡ none)
      × ((run_at m when next ≡ none)
          × ((run_every m interval now next ≡ none) × (run_after m interval now next ≡ none)))
unfolding add_timer run_at run_every run_after
add_timer_aborts m when interval now next = (refl, (refl, (refl, refl)))

-- ===== src/Net/Loop/Life/Threads.antt =====
-- A thread has at most one loop, and a loop ends in its own thread.
use mathlib.Core.Path.{subst}
use ssxrver.Prelude.{
  ℕ, ◌≡◌, sym, ◌∙◌, ◌≢◌, ◌⊎◌, inl, inr, Option, none, some, arith, ◌==◌, ==_iff, Bool-cases,
}
use ssxrver.Net.Loop.Life.{
  Loop, Loops, put, new_loop, destroy, Step, made, ended, Reaches, at_start, after,
}
use ssxrver.Net.Loop.Life.Outcomes.{
  with_loop, without_loop, ==_self, new_loop_taken, destroy-thread_id, new_loop-in_this_thread,
  destroy_elsewhere,
}

put_self : {A : Type 0} (k : ℕ) (v : A) (f : ℕ → A) → put k v f k ≡ v
unfolding put
put_self k v f = simp (==_self k)

put_ne : {A : Type 0} (k i : ℕ) (v : A) (f : ℕ → A) → i ≢ k → put k v f i ≡ f i
unfolding put
put_ne k i v f d = ground (arith, d)

-- Each living loop is the one that its thread points to.
abbrev Filed : Loops → Type 0
Filed s = (name : ℕ) (l : Loop) → s.living name ≡ some l → s.in_this_thread l.thread_id ≡ some name

==_cases : (a b : ℕ) → (a ≡ b) ⊎ (a ≢ b)
==_cases a b = elim (Bool-cases (a == b)) [
  | inl e ↦ inl ((==_iff a b).0 e)
  | inr e ↦ inr (λ same_one. cc (e, (==_iff a b).1 same_one))
]

with_loop-Filed :
    (tid name : ℕ) (l : Loop) (s : Loops)
    → l.thread_id ≡ tid
    → s.in_this_thread tid ≡ none
    → Filed s
    → Filed (with_loop tid name l s)
with_loop-Filed tid name l s own free filed m k living = elim (==_cases m name) [
  | inl same_name ↦ cc (
    put_self name (some l) s.living,
    put_self tid (some name) s.in_this_thread,
    same_name,
    living,
    own,
  )
  | inr d ↦
      let old : s.living m ≡ some k = cc (put_ne name m (some l) s.living d, living) in
      let here = filed m k old in
      let apart : k.thread_id ≢ tid = λ e. cc (e, free, here) in
      put_ne tid k.thread_id (some name) s.in_this_thread apart ∙ here
]

without_loop-Filed :
    (tid name : ℕ) (l : Loop) (s : Loops)
    → l.thread_id ≡ tid
    → s.living name ≡ some l
    → Filed s
    → Filed (without_loop tid name s)
without_loop-Filed tid name l s own there filed m k living = elim (==_cases m name) [
  | inl same_name ↦ cc (put_self name none s.living, same_name, living)
  | inr d ↦
      let old : s.living m ≡ some k = cc (put_ne name m none s.living d, living) in
      let here = filed m k old in
      let apart : k.thread_id ≢ tid = λ e. d (cc (e, own, here, filed name l there)) in
      put_ne tid k.thread_id none s.in_this_thread apart ∙ here
]

Step-Filed : {s s' : Loops} → Step s s' → Filed s → Filed s'
Step-Filed (made tid name timer wakeup s s' fresh h) filed =
    let (l, own, (free, e)) = new_loop-in_this_thread tid name timer wakeup s s' h in
    subst Filed {x = with_loop tid name l s} (sym e) (with_loop-Filed tid name l s own free filed)
Step-Filed (ended tid name l s s' there h) filed =
    let (own, e) = destroy-thread_id tid name l s s' h in
    subst Filed {x = without_loop tid name s} (sym e)
      (without_loop-Filed tid name l s own there filed)

Reaches-Filed : {s : Loops} → Reaches s → Filed s
Reaches-Filed at_start = λ name l there. absurd (cc there)
Reaches-Filed (after r step) = Step-Filed step (Reaches-Filed r)

-- In every schedule of constructions and destructions, in any threads: the pointer of a living
-- loop's thread is to that loop, another loop that lives in its thread is the same one, the
-- construction of a further loop there ends the process, and so does the loop's destruction in
-- any other thread.
pub Reaches-one_loop :
    {s : Loops} (r : Reaches s) (n m : ℕ) (l k : Loop) (other name : ℕ) (timer wakeup : Option ℕ)
    → s.living n ≡ some l
    → s.living m ≡ some k
    → l.thread_id ≡ k.thread_id
    → l.thread_id ≢ other
    → (s.in_this_thread l.thread_id ≡ some n)
      × ((n ≡ m)
          × ((new_loop l.thread_id name timer wakeup s ≡ none) × (destroy other n l s ≡ none)))
Reaches-one_loop {s = s} r n m l k other name timer wakeup there also e d =
    let mine = Reaches-Filed r n l there in
    (
      mine,
      (
        cc (mine, Reaches-Filed r m k also, e),
        (new_loop_taken l.thread_id name n timer wakeup s mine, destroy_elsewhere other n l s d),
      ),
    )

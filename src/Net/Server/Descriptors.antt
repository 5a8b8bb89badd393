-- ===== src/Net/Server/Descriptors.antt =====
-- net/TcpServer.cpp: what becomes of the descriptors that the calls of the system give.
use ssxrver.Prelude.{
  ℕ, ◌+◌, ◌≡◌, refl, ◌⊎◌, inl, inr, Bool, true, false, not, ◌&&◌, ◌||◌, Option, none, some, List,
  [], ◌∷◌, ◌++◌, arith, ◌==◌, if◌then◌else◌, Bool-cases, Option-cases,
}
use ssxrver.Net.LoopPool.{get_next_loop}
use ssxrver.Net.Server.{
  Accepted, connected, failed, Round, accept, Server, Limits, admits, new_connection, make_room,
  handle, eagain, emfile,
}
use ssxrver.Net.Server.{expected_error}

abbrev pub count : ℕ → List ℕ → ℕ
count x [] = 0
count x (y ∷ ys) = (if x == y then 1 else 0) + count x ys

abbrev pub one_of : Option ℕ → List ℕ
one_of none = []
one_of (some fd) = fd ∷ []

-- The descriptors that a round's calls give: the connection's, and where there were too many also
-- the spare one and the one for the idle descriptor.
abbrev pub given : Accepted → Option ℕ → Option ℕ → List ℕ
given (connected fd ip) spare reopened = fd ∷ []
given (failed e) spare reopened = if e == emfile then one_of spare ++ one_of reopened else []

abbrev pub given_by : Round → List ℕ
given_by r = given r.first r.spare r.reopened

-- Those of all rounds up to the first that is answered `EAGAIN`.
abbrev pub ends : Accepted → Bool
ends (connected fd ip) = false
ends (failed e) = e == eagain

abbrev pub all_given : List Round → List ℕ
all_given [] = []
all_given (r ∷ rs) = let rest = all_given rs in if ends r.first then [] else given_by r ++ rest

-- `EAGAIN` comes, and no error that ends the process before it.
abbrev pub lasts : Accepted → Bool → Bool
lasts (connected fd ip) rest = rest
lasts (failed e) rest = e == eagain || (expected_error e && rest)

abbrev pub drains : List Round → Bool
drains [] = false
drains (r ∷ rs) = lasts r.first (drains rs)

pub accept-lasts :
    (a : Accepted) (b : Bool)
    → lasts a b ≡ true
    → (accept a ≡ some a) × ((ends a ≡ true) ⊎ (b ≡ true))
unfolding accept
accept-lasts (connected fd ip) b h = (refl, inr h)
accept-lasts (failed e) b h = by_test (e == eagain) (expected_error e) h
  where
    by_test :
        (x y : Bool)
        → x || (y && b) ≡ true
        → ((if not x then (if y then some (failed e) else none) else some (failed e))
            ≡ some (failed e))
          × ((x ≡ true) ⊎ (b ≡ true))
    by_test true y h = (refl, inl refl)
    by_test false true h = (refl, inr h)
    by_test false false h = absurd (ground (arith, h))

module _ {L : Type 0} where
  abbrev pub handed : List (L × ℕ) → List ℕ
  handed [] = []
  handed (c ∷ cs) = c.1 ∷ handed cs

  -- How often a descriptor was closed or given to a loop, or is the idle one.
  abbrev pub uses : ℕ → Server L → ℕ
  uses x s = count x s.closed + count x (handed s.created) + count x (one_of s.idle_fd)

  count-handed :
      (x fd : ℕ) (loop : L) (cs : List (L × ℕ))
      → count x (handed (cs ++ ((loop, fd) ∷ [])))
        ≡ count x (handed cs) + (if x == fd then 1 else 0)
  count-handed x fd loop [] = omega arith
  count-handed x fd loop (c ∷ cs) = omega (arith, count-handed x fd loop cs)

  pub handle-uses :
      (c : Limits) (s : Server L) (r : Round) (a : Accepted) (b : Bool) (s' : Server L) (x : ℕ)
      → handle c s r a ≡ some (b, s')
      → (uses x s' ≡ uses x s + (if ends a then 0 else count x (given a r.spare r.reopened)))
        × (b ≡ not (ends a))
  unfolding handle new_connection make_room
  handle-uses c s r (connected fd ip) b s' x h = elim (Bool-cases (admits c fd ip)) [
    | inl e ↦ elim (Option-cases (get_next_loop s.pool)) [
      | inl n ↦ absurd (ground (arith, n, e, h))
      | inr (p, n) ↦ ground (arith, e, n, h, count-handed x fd p.0 s.created)
    ]
    | inr e ↦ ground (arith, e, h)
  ]
  handle-uses c s r (failed e) b s' x h = ground (arith, h)

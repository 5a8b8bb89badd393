-- ===== src/Net/Server/Dispatch.antt =====
-- net/TcpServer.cpp: the whole of a call of `acceptHandRead`.
use ssxrver.Prelude.{ℕ, ◌+◌, ◌≡◌, some, List, [], ◌∷◌, ◌++◌, if◌then◌else◌, length}
use mathlib.Core.List.{zip}
use ssxrver.Net.LoopPool.{LoopPool, pick, IsStarted}
use ssxrver.Net.Server.{
  Accepted, connected, failed, Round, Server, Limits, admits, Outcome, drained, go_on,
}
use ssxrver.Net.Server.Descriptors.{count, ends, uses}
use ssxrver.Net.Server.{go_on}

-- The address is not blocked, and the number of the descriptor is at most `worker_connections` where
-- this is not -1.
abbrev admitted_one : Limits → Accepted → List ℕ
admitted_one c (connected fd ip) = if admits c fd ip then fd ∷ [] else []
admitted_one c (failed e) = []

-- The connections up to the first `EAGAIN` that the limits let in.
abbrev pub admitted : Limits → List Round → List ℕ
admitted c [] = []
admitted c (r ∷ rs) =
    let rest = admitted c rs in if ends r.first then [] else admitted_one c r.first ++ rest

module _ {L : Type 0} where
  -- What a call of the loop does with the rest of the rounds from `s`.
  abbrev Served : Limits → Server L → List ℕ → List ℕ → Outcome (Server L) → Type 0
  Served c s fds gave o =
      (s' : Server L) × (loops : List L) × (o ≡ drained s')
      × (pick (length fds) s.pool ≡ some (loops, s'.pool))
      × (s'.created ≡ s.created ++ zip loops fds)
      × ((x : ℕ) → uses x s' ≡ uses x s + count x gave)

  -- A round that lets the call go on with `s'`, with `now` the connections that it let in.
  abbrev Goes : Limits → Server L → List ℕ → Server L → Type 0
  Goes c s now s' =
      IsStarted s'.pool
      × ((rest : List ℕ) (loops : List L) (p : LoopPool L)
          → pick (length rest) s'.pool ≡ some (loops, p)
          → (all : List L) × (pick (length (now ++ rest)) s.pool ≡ some (all, p))
            × (s'.created ++ zip loops rest ≡ s.created ++ zip all (now ++ rest)))

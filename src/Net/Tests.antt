-- ===== src/Net/Tests.antt =====
-- The choice of loops, at a pool of three.
use ssxrver.Prelude.{ℕ, refl, true, [], ◌∷◌, arith}
use ssxrver.Net.LoopPool.{LoopPool, IsStarted}

abbrev three : LoopPool ℕ
three = record {
  base_loop = 0;
  started = true;
  num_threads = 3;
  next = 2;
  loops = 10 ∷ 11 ∷ 12 ∷ [];
}

three-IsStarted : IsStarted three
three-IsStarted = record {
  running = refl;
  every = refl;
  some_loop = omega arith;
  in_range = omega arith;
}

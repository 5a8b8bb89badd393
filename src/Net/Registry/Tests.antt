-- ===== src/Net/Registry/Tests.antt =====
-- The connections of a loop at inputs.
use ssxrver.Prelude.{ℕ, ◌≡◌, refl, Option, none, some, [], ◌∷◌, ◌>>=◌}
use ssxrver.Net.Registry.{Registry, new_registry, create_connection, remove_channel, poll, happened}
use ssxrver.Net.Registry.Filed.{IsFiled, at_start, Reaches-create_connection}

-- A connection on 7, closed, its object used again on 8, and a second one on 9.
abbrev after_all : Option (Registry × ℕ)
after_all = do
  a ← create_connection new_registry 7
  b ← create_connection (remove_channel a 7) 8
  c ← create_connection b 9
  some (c, c.made)

abbrev filed : Option (Registry × ℕ) → Option (Option ℕ × Option ℕ × Option ℕ × ℕ)
filed none = none
filed (some (r, n)) = some (r.connections 7, r.connections 8, r.connections 9, n)

after_all_test : filed after_all ≡ some (none, some 0, some 1, 2)
unfolding create_connection new_registry remove_channel
after_all_test = refl

-- Where a channel without a connection was removed, the next connection is a null pointer.
null_test : create_connection (remove_channel new_registry 5) 7 ≡ none
unfolding create_connection new_registry remove_channel
null_test = refl

poll_test : poll 2 (happened ((3, 1) ∷ (4, 5) ∷ [])) ≡ ((3, 1) ∷ (4, 5) ∷ [], 4)
unfolding poll
poll_test = refl

Reaches-create_connection_example :
    (r' : Registry) × (create_connection new_registry 7 ≡ some r')
    × IsFiled r'
    × ((c : ℕ) × (r'.connections 7 ≡ some c))
unfolding new_registry
Reaches-create_connection_example = Reaches-create_connection new_registry 7 at_start refl

-- ===== src/Net/Registry/Filed.antt =====
-- net/Epoll.cpp: each connection is in one place.
use ssxrver.Prelude.{
  ℕ, ◌+◌, ◌≤◌, ◌<◌, ◌≡◌, refl, sym, ap, ◌⊎◌, inl, inr, Option, none, some, List, [], ◌∷◌, arith,
  ◌==◌, if◌then◌else◌, Bool-cases, All, All-map,
}
use mathlib.Core.Path.{subst}
use ssxrver.Net.Registry.{
  Registry, new_registry, write, create_connection, remove_channel, taken_from, reuse,
}

abbrev pub count : ℕ → List (Option ℕ) → ℕ
count x [] = 0
count x (none ∷ cs) = count x cs
count x (some c ∷ cs) = (if x == c then 1 else 0) + count x cs

abbrev pub IsPointer : ℕ → Option ℕ → Type 0
IsPointer made none = ⊥
IsPointer made (some c) = c < made

-- A connection that was made is in the pool, once, or filed under its own descriptor.
pub record IsFiled (r : Registry) : Type 0 where
  pub own :
      (fd c : ℕ)
      → r.connections fd ≡ some c
      → (r.socket c ≡ fd) × (c < r.made) × (count c r.pool ≡ 0)
  pub pooled : All (IsPointer r.made) r.pool
  pub once : (c : ℕ) → c < r.made → (count c r.pool ≡ 1) ⊎ (r.connections (r.socket c) ≡ some c)

-- A step of the loop: a connection with a descriptor that has none, or the end of one.
pub data Step : Registry → Registry → Type 0 where
  creating :
      (r r' : Registry) (fd : ℕ)
      → r.connections fd ≡ none
      → create_connection r fd ≡ some r'
      → Step r r'
  removing : (r : Registry) (fd c : ℕ) → r.connections fd ≡ some c → Step r (remove_channel r fd)

pub data Reaches : Registry → Type 0 where
  at_start : Reaches new_registry
  after : {r r' : Registry} → Reaches r → Step r r' → Reaches r'

put_back : Registry → ℕ → Option ℕ → Registry
put_back r fd o = record r { connections = write r.connections fd none; pool = o ∷ r.pool }

put_back-IsFiled :
    (r : Registry) (fd c : ℕ)
    → r.connections fd ≡ some c
    → IsFiled r
    → IsFiled (put_back r fd (some c))
unfolding put_back
put_back-IsFiled r fd c e v = record {
  own = λ fd' c' h. ground (arith, h, e, v.own fd' c', v.own fd c);
  pooled = ((v.own fd c e).1, v.pooled);
  once = λ c' h. by_place c' (v.once c' h);
}
  where
    by_place :
        (c' : ℕ)
        → (count c' r.pool ≡ 1) ⊎ (r.connections (r.socket c') ≡ some c')
        → (count c' (some c ∷ r.pool) ≡ 1) ⊎ (write r.connections fd none (r.socket c') ≡ some c')
    by_place c' (inl p) = inl (ground (arith, p, v.own fd c e))
    by_place c' (inr p) = elim (Bool-cases (r.socket c' == fd)) [
      | inl same_fd ↦ inl (ground (arith, p, e, same_fd, v.own fd c e))
      | inr other ↦ inr (ground (arith, p, other))
    ]

remove_channel-IsFiled :
    (r : Registry) (fd c : ℕ)
    → r.connections fd ≡ some c
    → IsFiled r
    → IsFiled (remove_channel r fd)
unfolding remove_channel put_back
remove_channel-IsFiled r fd c e v =
    subst (λ o. IsFiled (put_back r fd o)) (sym e) (put_back-IsFiled r fd c e v)

count_none :
    (made : ℕ) (cs : List (Option ℕ)) (c : ℕ) → All (IsPointer made) cs → made ≤ c → count c cs ≡ 0
count_none made [] c a h = refl
count_none made (none ∷ cs) c a h = absurd a.0
count_none made (some d ∷ cs) c a h = ground (arith, a.0, h, count_none made cs c a.1 h)

wider : (made : ℕ) (cs : List (Option ℕ)) → All (IsPointer made) cs → All (IsPointer (made + 1)) cs
wider made cs a = All-map (IsPointer made) (IsPointer (made + 1)) one cs a
  where
    one : (o : Option ℕ) → IsPointer made o → IsPointer (made + 1) o
    one none h = h
    one (some c) h = omega (arith, h)

-- A new connection, where the pool is empty.
made_new :
    (r : Registry) (fd : ℕ)
    → r.connections fd ≡ none
    → r.pool ≡ []
    → IsFiled r
    → IsFiled (record r {
      connections = write r.connections fd (some r.made);
      made = r.made + 1;
      socket = write r.socket r.made fd;
    })
made_new r fd e none_in v = record {
  own = λ fd' c' h.
      ground (arith, h, e, v.own fd' c', count_none r.made r.pool r.made v.pooled (omega arith));
  pooled = wider r.made r.pool v.pooled;
  once = λ c' h. by_place c' h;
}
  where
    by_place :
        (c' : ℕ)
        → c' < r.made + 1
        → (count c' r.pool ≡ 1)
          ⊎ (write r.connections fd (some r.made) (write r.socket r.made fd c') ≡ some c')
    by_place c' h = elim (Bool-cases (c' == r.made)) [
      | inl newest ↦ inr (ground (arith, newest))
      | inr older ↦ elim (v.once c' (ground (arith, h, older))) [
        | inl p ↦ inl p
        | inr p ↦ inr (ground (arith, p, older, e))
      ]
    ]

reused :
    (r : Registry) (fd c : ℕ) (rest : List (Option ℕ))
    → r.connections fd ≡ none
    → r.pool ≡ some c ∷ rest
    → IsFiled r
    → IsFiled (record r {
      connections = write r.connections fd (some c);
      pool = rest;
      socket = write r.socket c fd;
    })
reused r fd c rest e full v = record {
  own = λ fd' c' h. ground (arith, h, e, v.own fd' c', counted c', last);
  pooled = ends.1;
  once = λ c' h. by_place c' h;
}
  where
    counted : (x : ℕ) → count x r.pool ≡ (if x == c then 1 else 0) + count x rest
    counted x = ap (count x) full

    ends : All (IsPointer r.made) (some c ∷ rest)
    ends = subst (All (IsPointer r.made)) full v.pooled

    last : count c rest ≡ 0
    last = elim (v.once c ends.0) [
      | inl p ↦ ground (arith, p, counted c)
      | inr p ↦ absurd (ground (arith, counted c, (v.own (r.socket c) c p).2))
    ]

    by_place :
        (c' : ℕ)
        → c' < r.made
        → (count c' rest ≡ 1) ⊎ (write r.connections fd (some c) (write r.socket c fd c') ≡ some c')
    by_place c' h = elim (Bool-cases (c' == c)) [
      | inl newest ↦ inr (ground (arith, newest))
      | inr older ↦ elim (v.once c' h) [
        | inl p ↦ inl (ground (arith, p, older, counted c'))
        | inr p ↦ inr (ground (arith, p, older, e))
      ]
    ]

-- The null pointer is not in the pool, so a new connection is always made.
create_connection-IsFiled :
    (r : Registry) (fd : ℕ)
    → r.connections fd ≡ none
    → IsFiled r
    → (r' : Registry) × (create_connection r fd ≡ some r')
      × IsFiled r'
      × ((c : ℕ) × (r'.connections fd ≡ some c))
unfolding create_connection taken_from reuse
create_connection-IsFiled r fd e v = by_pool r.pool refl
  where
    by_pool :
        (pool : List (Option ℕ))
        → r.pool ≡ pool
        → (r' : Registry) × (taken_from r fd pool ≡ some r')
          × IsFiled r'
          × ((c : ℕ) × (r'.connections fd ≡ some c))
    by_pool [] p = (_, refl, made_new r fd e p v, (r.made, ground arith))
    by_pool (none ∷ rest) p = absurd (subst (All (IsPointer r.made)) p v.pooled).0
    by_pool (some c ∷ rest) p = (_, refl, reused r fd c rest e p v, (c, ground arith))

Reaches-IsFiled : (r : Registry) → Reaches r → IsFiled r
unfolding new_registry
Reaches-IsFiled _ at_start = record {
  own = λ fd c h. absurd (ground (arith, h));
  pooled = tt;
  once = λ c h. absurd (omega (arith, h));
}
Reaches-IsFiled _ (after (p) (creating r r' fd e h)) =
    let (r1, run, v, _) = create_connection-IsFiled r fd e (Reaches-IsFiled r p) in
    subst IsFiled (cc (run, h)) v
Reaches-IsFiled _ (after (p) (removing r fd c e)) =
    remove_channel-IsFiled r fd c e (Reaches-IsFiled r p)

-- However connections come and go, with descriptors that are not in use, `createConnection` never
-- takes a null pointer from the pool; and then each connection that was made is in one place: once
-- in the pool, or filed under its own descriptor.
pub Reaches-create_connection :
    (r : Registry) (fd : ℕ)
    → Reaches r
    → r.connections fd ≡ none
    → (r' : Registry) × (create_connection r fd ≡ some r')
      × IsFiled r'
      × ((c : ℕ) × (r'.connections fd ≡ some c))
Reaches-create_connection r fd p e = create_connection-IsFiled r fd e (Reaches-IsFiled r p)

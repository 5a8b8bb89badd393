-- ===== src/Net/Poller/Interest.antt =====
-- The calls of `epoll_ctl` against the protocol of that call: a descriptor is added while it is not
-- in the interest list, and modified or deleted while it is.
use ssxrver.Prelude.{
  ℕ, ◌≡◌, refl, ap, Bool, true, false, Option, none, some, List, [], ◌∷◌, arith, ◌==◌,
  if◌then◌else◌,
}
use ssxrver.Net.Events.{Events, none_event, join, clear}
use ssxrver.Net.Poller.{
  Call, ctl_add, ctl_mod, ctl_del, closed, Poller, Status, fresh, added, deleted, Channel,
  update_channel, enable_events, disable_events, disable_all, remove,
}

-- The mask under which the calls, newest first, leave `fd` in the interest list.
-- A closed descriptor leaves it.
unfoldable pub interest : List Call → ℕ → Option Events
interest [] fd = none
interest (ctl_add f e ∷ cs) fd = if f == fd then some e else interest cs fd
interest (ctl_mod f e ∷ cs) fd = if f == fd then some e else interest cs fd
interest (ctl_del f ∷ cs) fd = if f == fd then none else interest cs fd
interest (closed f ∷ cs) fd = if f == fd then none else interest cs fd

abbrev pub is_some : Option Events → Bool
is_some none = false
is_some (some e) = true

-- Each call of `epoll_ctl` was in order when it was made.
abbrev pub InOrder : List Call → Type 0
InOrder [] = Unit {0}
InOrder (ctl_add f e ∷ cs) = (is_some (interest cs f) ≡ false) × InOrder cs
InOrder (ctl_mod f e ∷ cs) = (is_some (interest cs f) ≡ true) × InOrder cs
InOrder (ctl_del f ∷ cs) = (is_some (interest cs f) ≡ true) × InOrder cs
InOrder (closed f ∷ cs) = InOrder cs

-- The interest that the status of a channel stands for.
abbrev pub watched : Status → Events → Option Events
watched added e = some e
watched fresh e = none
watched deleted e = none

-- The poller and the channel agree on what the kernel watches.
pub record Synced (p : Poller) (c : Channel) : Type 0 where
  pub in_order : InOrder p.calls
  pub agrees : interest p.calls c.fd ≡ watched c.status c.events

-- A mask was given to the channel: what follows it in the code is a call of `update`.
pub record Stale (p : Poller) (c : Channel) : Type 0 where
  pub in_order : InOrder p.calls
  pub known : is_some (interest p.calls c.fd) ≡ is_some (watched c.status c.events)

update_channel-Synced :
    (p : Poller) (c : Channel) → Stale p c → Synced (update_channel p c).0 (update_channel p c).1
unfolding update_channel interest
update_channel-Synced p c v = by_status c.status refl
  where
    by_status : (s : Status) → c.status ≡ s → Synced (update_channel p c).0 (update_channel p c).1
    by_status fresh e = ground arith
    by_status added e = ground arith
    by_status deleted e = ground arith

Synced-Stale :
    (p : Poller) (c : Channel) (e : Events) (b : Bool)
    → Synced p c
    → Stale p (record c { events = e; added_to_loop = b })
Synced-Stale p c e b v = record { in_order = v.in_order; known = by_status c.status v.agrees }
  where
    by_status :
        (s : Status)
        → interest p.calls c.fd ≡ watched s c.events
        → is_some (interest p.calls c.fd) ≡ is_some (watched s e)
    by_status fresh h = ap is_some h
    by_status added h = ap is_some h
    by_status deleted h = ap is_some h

-- Every way in which a channel that agrees with the poller changes its mask keeps the kernel's interest list in step with the
-- channel, by calls that are all in order.
pub mask_changes-Synced :
    (p : Poller) (c : Channel) (e : Events)
    → Synced p c
    → Synced (enable_events p c e).0 (enable_events p c e).1
      × Synced (disable_events p c e).0 (disable_events p c e).1
      × Synced (disable_all p c).0 (disable_all p c).1
unfolding enable_events disable_events disable_all
mask_changes-Synced p c e v = (
  update_channel-Synced p _ (Synced-Stale p c (join c.events e) true v),
  update_channel-Synced p _ (Synced-Stale p c (clear c.events e) true v),
  update_channel-Synced p _ (Synced-Stale p c none_event true v),
)

-- Taking all events from a watched channel, and then the channel itself, leaves the descriptor
-- closed and unwatched, and no call is out of order.
pub disable_all-remove :
    (p : Poller) (c : Channel)
    → Synced p c
    → c.status ≡ added
    → (p' : Poller) × (c' : Channel) × (remove (disable_all p c).0 (disable_all p c).1
        ≡ some (p', c'))
      × InOrder p'.calls
      × (interest p'.calls c.fd ≡ none)
      × (c'.status ≡ fresh)
unfolding remove disable_all interest
disable_all-remove p c v e = (
  record p { calls = closed c.fd ∷ ctl_del c.fd ∷ p.calls },
  record c { events = none_event; added_to_loop = false; status = fresh },
  ground arith,
  ground arith,
  ground arith,
  refl,
)

-- Where the channel was already taken off the interest list (by `stopRead`), `disableAll` puts it
-- back with the empty mask, and `remove` then closes the descriptor and deletes it when it is
-- closed: these are the calls that both make, and the last is out of order.
pub disable_all-remove_stopped :
    (p : Poller) (c : Channel)
    → Synced p c
    → c.status ≡ deleted
    → (p' : Poller) × (c' : Channel) × (remove (disable_all p c).0 (disable_all p c).1
        ≡ some (p', c'))
      × ((disable_all p c).0.calls ≡ ctl_add c.fd none_event ∷ p.calls)
      × (p'.calls ≡ ctl_del c.fd ∷ closed c.fd ∷ ctl_add c.fd none_event ∷ p.calls)
      × ¬ InOrder p'.calls
unfolding remove disable_all interest
disable_all-remove_stopped p c v e = (
  record p { calls = ctl_del c.fd ∷ closed c.fd ∷ ctl_add c.fd none_event ∷ p.calls },
  record c { events = none_event; added_to_loop = false; status = fresh },
  ground arith,
  ground arith,
  refl,
  λ o. ground arith,
)

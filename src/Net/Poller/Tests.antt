-- ===== src/Net/Poller/Tests.antt =====
-- The theorems on the poller, at one channel.
use ssxrver.Prelude.{◌≡◌, refl, true, false, some, [], ◌∷◌}
use ssxrver.Net.Events.{read_event_lt, write_event, none_event}
use ssxrver.Net.Poller.{
  closed, Poller, Channel, ctl_add, added, deleted, ctl_del, enable_events, disable_events,
  disable_all, remove,
}
use ssxrver.Net.Poller.Interest.{
  interest, InOrder, Synced, mask_changes-Synced, disable_all-remove_stopped,
}

-- Descriptor 7, read.
abbrev reading : Channel
reading = record {
  fd = 7;
  events = read_event_lt;
  revents = none_event;
  status = added;
  event_handling = false;
  added_to_loop = true;
}

abbrev one : Poller
one = record { channels = 7 ∷ []; calls = ctl_add 7 read_event_lt ∷ [] }

one-Synced : Synced one reading
unfolding interest
one-Synced = record { in_order = (refl, tt); agrees = refl }

-- The same after `stopRead`.
abbrev stopped : Channel
stopped = record {
  fd = 7;
  events = none_event;
  revents = none_event;
  status = deleted;
  event_handling = false;
  added_to_loop = true;
}

abbrev left : Poller
left = record { channels = 7 ∷ []; calls = ctl_del 7 ∷ ctl_add 7 read_event_lt ∷ [] }

left-Synced : Synced left stopped
unfolding interest
left-Synced = record { in_order = (refl, (refl, tt)); agrees = refl }

mask_changes-Synced_example :
    Synced (enable_events one reading write_event).0 (enable_events one reading write_event).1
    × Synced (disable_events one reading write_event).0 (disable_events one reading write_event).1
    × Synced (disable_all one reading).0 (disable_all one reading).1
mask_changes-Synced_example = mask_changes-Synced one reading write_event one-Synced

disable_all-remove_stopped_example :
    (p' : Poller) × (c' : Channel) × (remove
        (disable_all left stopped).0
        (disable_all left stopped).1
      ≡ some (p', c'))
    × ((disable_all left stopped).0.calls ≡ ctl_add stopped.fd none_event ∷ left.calls)
    × (p'.calls
        ≡ ctl_del stopped.fd ∷ closed stopped.fd ∷ ctl_add stopped.fd none_event ∷ left.calls)
    × ¬ InOrder p'.calls
disable_all-remove_stopped_example = disable_all-remove_stopped left stopped left-Synced refl

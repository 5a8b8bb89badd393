-- ===== src/Net/Poller.antt =====
-- net/Channel.h, net/Channel.cpp and the channel half of net/Epoll.cpp.
--
-- `Poller` is what `Epoll` keeps of its channels, with the calls of `epoll_ctl` and `close` that it
-- has made, newest first: their effect is the kernel's. `Channel` is the class, with a Boolean for
-- each callback that is set. The checks for the loop's thread are taken as passed.
mod Tests
pub mod Interest
pub mod Dispatch
use ssxrver.Prelude.{
  ℕ, zero, suc, ◌+◌, ◌-◌, ◌*◌, ◌/◌, ◌%◌, ◌^◌, ◌≤◌, ◌<◌, min, ◌≡◌, refl, sym, ap, ◌∙◌, ◌≢◌, ◌↔◌, ◌⊎◌,
  inl, inr, Bool, true, false, not, ◌&&◌, ◌||◌, Option, none, some, List, [], ◌∷◌, ◌++◌, map,
  append-nil, append_assoc, arith, ltb, leb, ◌==◌, if◌then◌else◌, ltb→lt, lt→ltb, leb→le, ==_iff,
  tests, Bool-cases, Option-cases, length, get_elem?, set, length-append, length-set,
  get_elem?-set_self, get_elem?-set_ne, get_or, take, drop, replicate, take-append-drop,
  length-take, length-drop, length-replicate, length-map, take-append, drop-append, take_all,
  drop_all, drop-drop, drop-take, ◌>>=◌, ◌>>◌, assert,
}
use ssxrver.Net.Events.{Events, none_event, read_event_lt, write_event, join, clear, meets, is_none}

pub data Call : Type 0 where
  ctl_add ctl_mod : ℕ → Events → Call
  ctl_del closed : ℕ → Call

pub record Poller : Type 0 where
  -- The keys of `channels_`.
  pub channels : List ℕ
  pub calls : List Call

-- `kNew`, `kAdded` and `kDeleted`.
pub data Status : Type 0 where
  fresh added deleted : Status

pub record Channel : Type 0 where
  pub fd : ℕ
  pub events : Events
  pub revents : Events
  pub status : Status
  pub event_handling : Bool
  pub added_to_loop : Bool

unfoldable pub new_channel : ℕ → Channel
new_channel fd = record {
  fd = fd;
  events = none_event;
  revents = none_event;
  status = fresh;
  event_handling = false;
  added_to_loop = false;
}

abbrev pub is_writing : Channel → Bool
is_writing c = meets c.events write_event

abbrev pub is_reading : Channel → Bool
is_reading c = meets c.events read_event_lt

abbrev pub is_none_event : Channel → Bool
is_none_event c = is_none c.events

abbrev pub record_call : Poller → Call → Poller
record_call p call = record p { calls = call ∷ p.calls }

-- `Epoll::updateChannel`, by the status of the channel.
update_by_status : Status → Poller → Channel → Poller × Channel
update_by_status fresh p c = (
  record { channels = c.fd ∷ p.channels; calls = ctl_add c.fd c.events ∷ p.calls },
  record c { status = added },
)
update_by_status deleted p c = (record_call p (ctl_add c.fd c.events), record c { status = added })
update_by_status added p c =
    if is_none_event c
    then (record_call p (ctl_del c.fd), record c { status = deleted })
    else (record_call p (ctl_mod c.fd c.events), c)

unfoldable pub update_channel : Poller → Channel → Poller × Channel
unfolding update_by_status
update_channel p c = update_by_status c.status p c

-- `Channel::update`.
unfoldable pub update : Poller → Channel → Poller × Channel
unfolding update_channel
update p c = update_channel p (record c { added_to_loop = true })

unfoldable pub enable_events : Poller → Channel → Events → Poller × Channel
unfolding update
enable_events p c e = update p (record c { events = join c.events e })

unfoldable pub disable_events : Poller → Channel → Events → Poller × Channel
unfolding update
disable_events p c e = update p (record c { events = clear c.events e })

unfoldable pub disable_all : Poller → Channel → Poller × Channel
unfolding update
disable_all p c = update p (record c { events = none_event })

delete_if_added : Status → Poller → ℕ → Poller
delete_if_added added p fd = record_call p (ctl_del fd)
delete_if_added fresh p fd = p
delete_if_added deleted p fd = p

-- `Epoll::removeChannel`, but for the connection that it hands back to the pool.
unfoldable pub remove_channel : Poller → Channel → Poller × Channel
unfolding delete_if_added
remove_channel p c =
    (delete_if_added c.status (record_call p (closed c.fd)) c.fd, record c { status = fresh })

unfoldable pub remove : Poller → Channel → Option (Poller × Channel)
unfolding remove_channel
remove p c = do
  assert (is_none_event c)
  some (remove_channel p (record c { added_to_loop = false }))

unfoldable pub channel_reset : Channel → ℕ → Channel
channel_reset c fd = record {
  fd = fd;
  events = none_event;
  revents = none_event;
  status = fresh;
  event_handling = false;
  added_to_loop = false;
}

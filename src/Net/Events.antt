-- ===== src/Net/Events.antt =====
-- The event masks of net/Channel.cpp. A mask is the set of the flags of <sys/epoll.h> that it has;
-- the flags are distinct bits, so `|`, `& ~` and `&` act on each of them alone.
use ssxrver.Prelude.{Bool, true, false, not, ◌&&◌, ◌||◌}

pub record Events : Type 0 where
  pub epoll_in : Bool
  pub epoll_pri : Bool
  pub epoll_out : Bool
  pub epoll_err : Bool
  pub epoll_hup : Bool
  pub epoll_et : Bool

-- `kNoneEvent`.
abbrev pub none_event : Events
none_event = record {
  epoll_in = false;
  epoll_pri = false;
  epoll_out = false;
  epoll_err = false;
  epoll_hup = false;
  epoll_et = false;
}

-- `kReadEventLT`, `kReadEventET` and `kWriteEvent`.
abbrev pub read_event_lt : Events
read_event_lt = record none_event { epoll_in = true; epoll_pri = true }

abbrev pub read_event_et : Events
read_event_et = record none_event { epoll_in = true; epoll_pri = true; epoll_et = true }

abbrev pub write_event : Events
write_event = record none_event { epoll_out = true }

-- `a | b`.
abbrev pub join : Events → Events → Events
join a b = record {
  epoll_in = a.epoll_in || b.epoll_in;
  epoll_pri = a.epoll_pri || b.epoll_pri;
  epoll_out = a.epoll_out || b.epoll_out;
  epoll_err = a.epoll_err || b.epoll_err;
  epoll_hup = a.epoll_hup || b.epoll_hup;
  epoll_et = a.epoll_et || b.epoll_et;
}

-- `a & ~b`.
abbrev pub clear : Events → Events → Events
clear a b = record {
  epoll_in = a.epoll_in && not b.epoll_in;
  epoll_pri = a.epoll_pri && not b.epoll_pri;
  epoll_out = a.epoll_out && not b.epoll_out;
  epoll_err = a.epoll_err && not b.epoll_err;
  epoll_hup = a.epoll_hup && not b.epoll_hup;
  epoll_et = a.epoll_et && not b.epoll_et;
}

-- `a & b`, as a condition.
abbrev pub meets : Events → Events → Bool
meets a b =
    a.epoll_in && b.epoll_in
    || a.epoll_pri && b.epoll_pri
    || a.epoll_out && b.epoll_out
    || a.epoll_err && b.epoll_err
    || a.epoll_hup && b.epoll_hup
    || a.epoll_et && b.epoll_et

-- `a == kNoneEvent`.
abbrev pub is_none : Events → Bool
is_none a =
    not (a.epoll_in || a.epoll_pri || a.epoll_out || a.epoll_err || a.epoll_hup || a.epoll_et)

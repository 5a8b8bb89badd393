-- ===== src/Log/Front/Tests.antt =====
-- Statements of the log at inputs.
use ssxrver.Prelude.{◌+◌, ◌≤◌, ◌≡◌, refl, [], ◌∷◌, ◌++◌, arith, length, codes, ◌⊎◌, inl}
use ssxrver.Log.Stream.{
  new_buffer, append, put_string, put_c_string, put_char, format_integer, convert, convert_loop,
}
use ssxrver.Log.Front.{
  Site, log_sysfatal, enabled, put_errno, impl, put_func, put_all, finish, source_file, base_from,
  Sink, aborted, went_on, destroy, issue,
}
use ssxrver.Log.Front.Line.{line_text, put_out, Passes, IsHeld, issue_lem}

abbrev site : Site
site = record {
  tid_string = codes "77";
  file = codes "net/Epoll.cpp";
  line = 17;
  strerror = λ e. codes "Bad file";
}

abbrev sink : Sink
sink = record { written = []; flushes = 0 }

issue_test :
    issue site 1 (log_sysfatal 9) (codes "Epoll::" ∷ codes "Epoll" ∷ []) sink
    ≡ aborted (record {
      written = (codes "77 FATAL Bad file (errno=9) Epoll::Epoll - Epoll.cpp:17" ++ (10 ∷ [])) ∷ [];
      flushes = 1;
    })
unfolding issue new_buffer destroy impl put_errno put_func put_all finish source_file base_from
    append put_string put_c_string put_char format_integer convert convert_loop enabled
issue_test = refl

issue_lem_example :
    (Passes 1 (log_sysfatal 9)
      × (issue site 1 (log_sysfatal 9) (codes "Epoll" ∷ []) sink
          ≡ put_out site (log_sysfatal 9) (codes "Epoll" ∷ []) sink))
    ⊎ (IsHeld 1 (log_sysfatal 9)
        × (issue site 1 (log_sysfatal 9) (codes "Epoll" ∷ []) sink ≡ went_on sink))
unfolding convert source_file
issue_lem_example = issue_lem site 1 (log_sysfatal 9) (codes "Epoll" ∷ []) sink (inl short)
  where
    short : length (line_text site (log_sysfatal 9) (codes "Epoll" ∷ [])) + 21 ≤ 4000
    short = omega arith

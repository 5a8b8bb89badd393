-- ===== src/Log/File.antt =====
-- base/File.cpp and base/LogFile.cpp: the files of the log, and `ReadSmallFile`.
--
-- A file is the bytes that `fwrite_unlocked` took. What that answers is an argument, a list with an
-- entry for each call; `read_small` is given what `open` and `pread` answer. `checked` says whether
-- the build keeps `BOOST_ASSERT_MSG`, and `none` is one that fails.
pub mod Rolls
use ssxrver.Prelude.{
  ℕ, zero, suc, ◌+◌, ◌-◌, ◌*◌, ◌/◌, ◌%◌, ◌^◌, ◌≤◌, ◌<◌, min, ◌≡◌, refl, sym, ap, ◌∙◌, ◌≢◌, ◌↔◌, ◌⊎◌,
  inl, inr, Bool, true, false, not, ◌&&◌, ◌||◌, Option, none, some, List, [], ◌∷◌, ◌++◌, map,
  append-nil, append_assoc, arith, ltb, leb, ◌==◌, if◌then◌else◌, ltb→lt, lt→ltb, leb→le, ==_iff,
  tests, Bool-cases, Option-cases, length, get_elem?, set, length-append, length-set,
  get_elem?-set_self, get_elem?-set_ne, get_or, take, drop, replicate, take-append-drop,
  length-take, length-drop, length-replicate, length-map, take-append, drop-append, take_all,
  drop_all, take-append_past, drop-drop, drop-take, take-take, select, All, All-append, All-map,
  ◌>>=◌, ◌>>◌, assert, codes, same, strncmp_equal, c_str, value_from, decimal_onto, decimal,
}

pub record WriteFile : Type 0 where
  pub content : List ℕ
  pub write_len : ℕ

-- The constructor, with what `ferror` answers: its assertion is of an error.
unfoldable pub open_file : Bool → ℕ → Option WriteFile
open_file checked err =
    if checked && (err == 0) then none else some (record { content = []; write_len = 0 })

-- The loop of `WriteFile::append` over the bytes that remain: those that are taken, and whether it
-- ended with the answers that there are.
unfoldable pub write_loop : List ℕ → List ℕ → List ℕ × Bool
write_loop remain [] = ([], false)
write_loop remain (x ∷ xs) =
    let more = write_loop (drop x remain) xs in
    if x == 0
    then ([], true)
    else if ltb 0 (length (drop x remain))
    then (take x remain ++ more.0, more.1)
    else (take x remain, true)

-- `WriteFile::append`.
unfoldable pub append : WriteFile → List ℕ → List ℕ → WriteFile
append f log answers = record f {
  content = f.content ++ (write_loop log answers).0;
  write_len = f.write_len + length log;
}

pub record LogFile : Type 0 where
  pub roll_size : ℕ
  -- The files that were rolled off, the oldest first.
  pub closed : List WriteFile
  pub file : WriteFile

-- `rollFile`.
unfoldable pub roll_file : Bool → ℕ → LogFile → Option LogFile
unfolding open_file
roll_file checked err l = do
  fresh ← open_file checked err
  some (record l { closed = l.closed ++ (l.file ∷ []); file = fresh })

-- `append_unlocked`, with the answers to its writes and to the check of a new file.
unfoldable pub append_unlocked : Bool → ℕ → LogFile → List ℕ → List ℕ → Option LogFile
append_unlocked checked err l log answers =
    let l' = record l { file = append l.file log answers } in
    if leb l.roll_size l'.file.write_len then roll_file checked err l' else some l'

-- A text for the log with the answers of `fwrite_unlocked` to its writes.
pub record Entry : Type 0 where
  pub log : List ℕ
  pub answers : List ℕ

unfoldable pub append_all : Bool → ℕ → LogFile → List Entry → Option LogFile
append_all checked err l [] = some l
append_all checked err l (e ∷ es) = do
  l' ← append_unlocked checked err l e.log e.answers
  append_all checked err l' es

-- `buf_` of `ReadSmallFile` has 64 KiB, of which `pread` is given all but one byte.
abbrev pub file_buffer_size : ℕ
file_buffer_size = 64 * 1024

-- What `pread` answers on the bytes of a file: a count, or an error.
pub data Read : Type 0 where
  read : ℕ → Read
  failed : ℕ → Read

-- `readToBuffer` on a file that `open` gave or refused with an error: the error, with the text in
-- the buffer.
unfoldable pub read_to_buffer : Option ℕ → List ℕ → Read → ℕ × List ℕ
read_to_buffer (some err) bytes r = (err, [])
read_to_buffer none bytes (read n) = (0, c_str (take (min n (file_buffer_size - 1)) bytes))
read_to_buffer none bytes (failed e) = (e, [])

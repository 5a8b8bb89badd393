-- ===== src/Net/Buffer/Tests.antt =====
-- The theorems on the buffer, at small buffers.
use ssxrver.Prelude.{List, ◌≡◌, refl, some, [], ◌∷◌, ◌++◌, arith, replicate, codes}
use ssxrver.Net.Buffer.{Buffer, contents}
use ssxrver.Net.Buffer.Views.{IsValid}
use ssxrver.Net.Buffer.Refinement.{
  Operation, appends, skips, takes, takes_all, perform, on_queue, run, Matches, run-Matches,
}
use ssxrver.Net.Buffer.Ints.{
  Restores, append_int64, append_int32, append_int16, append_int8, read_int64, read_int32,
  read_int16, read_int8, read_int-append_int,
}
use ssxrver.Net.Buffer.Search.{find_crlf}

-- "hi", CR, LF and "!" behind the eight bytes kept free, and room for three more.
abbrev line_buffer : Buffer
line_buffer = record {
  bytes = replicate 8 0 ++ (codes "hi" ++ (13 ∷ 10 ∷ 33 ∷ 0 ∷ 0 ∷ 0 ∷ []));
  reader_index = 8;
  writer_index = 13;
}

line_buffer-IsValid : IsValid line_buffer
line_buffer-IsValid = record { ordered = omega arith; inside = omega arith; roomy = omega arith }

abbrev empty_buffer : Buffer
empty_buffer = record { bytes = replicate 16 0; reader_index = 8; writer_index = 8 }

empty_buffer-IsValid : IsValid empty_buffer
empty_buffer-IsValid = record { ordered = omega arith; inside = omega arith; roomy = omega arith }

abbrev operations : List Operation
operations = appends (codes "again") ∷ skips 4 ∷ takes 3 ∷ takes_all ∷ []

run-Matches_example :
    Matches (run perform line_buffer operations) (run on_queue (contents line_buffer) operations)
run-Matches_example = run-Matches line_buffer operations line_buffer-IsValid

run_test :
    run on_queue (contents line_buffer) operations
    ≡ some ([] ∷ [] ∷ codes "!ag" ∷ codes "ain" ∷ [], [])
unfolding run on_queue
run_test = refl

read_int-append_int_example :
    Restores append_int64 read_int64 empty_buffer 258
    × Restores append_int32 read_int32 empty_buffer 65537
    × Restores append_int16 read_int16 empty_buffer 513
    × Restores append_int8 read_int8 empty_buffer 255
read_int-append_int_example =
    read_int-append_int empty_buffer 258 65537 513 255 empty_buffer-IsValid refl (omega arith)
      (omega arith) (omega arith) (omega arith)

find_crlf_finds : find_crlf line_buffer ≡ some 10
unfolding find_crlf
find_crlf_finds = refl

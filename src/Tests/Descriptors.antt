-- ===== src/Tests/Descriptors.antt =====
-- Pipes, captured output, the error pipe and waiting.
use procstar.Prelude.{
  pos, ◌≡◌, ◌≤◌, refl, arith, true, String, List, [], ◌∷◌, none, some, ok, err, done, panicked, get,
  length, map, All, pair_key,
}
use procstar.Io.{Bytes, ErrorKind}
use procstar.Spec.{ProcId, RawFd}
use procstar.Fd.Pipes.{RwPair, Pipes}
use procstar.Fd.Handlers.{run_capture_memory, get_data}
use procstar.Fd.Capture.{captured}
use procstar.Fd.Paired.{Paired, write_then_read, read_then_write, spent, pipe-Paired}
use procstar.ErrPipe.{write_all, get_errors}
use procstar.ErrPipe.Laws.{get_errors-write_all}
use procstar.Sys.Wait.{Answer, Waited, wait}
use procstar.Tests.Data.{io_error, ended}

abbrev pipe : RwPair RawFd
pipe = record { read = pos 8; write = pos 9 }

-- A pipe of another process.
abbrev pipes : Pipes
pipes = (("b", pos 1), spent) ∷ []

not_yet : get {K = ProcId × RawFd} ("a", pos 1) pipes ≡ none
unfolding get
not_yet = refl

pipe-Paired_example :
    Paired pipe pipes "a" (pos 1) (write_then_read (ok pipe) (err io_error) pipes "a" (pos 1))
    × Paired pipe pipes "a" (pos 1) (read_then_write (ok pipe) (err io_error) pipes "a" (pos 1))
pipe-Paired_example = pipe-Paired pipe (err io_error) pipes "a" (pos 1) not_yet

abbrev chunks : List Bytes
chunks = (1 ∷ 2 ∷ []) ∷ (3 ∷ []) ∷ [] ∷ (4 ∷ []) ∷ []

abbrev buf : Bytes
buf = 7 ∷ 8 ∷ []

drains :
    run_capture_memory chunks (captured (pos 1) (pos 8) (pos 9) none true buf)
    ≡ done (captured (pos 1) (pos 8) (pos 9) none true (7 ∷ 8 ∷ 1 ∷ 2 ∷ 3 ∷ []))
unfolding run_capture_memory
drains = refl

-- A request beyond the captured output panics.
beyond_the_buffer :
    get_data [] (captured (pos 1) (pos 8) (pos 9) none true buf) 1 (some 5) ≡ panicked
unfolding get_data
beyond_the_buffer = refl

abbrev errors : List Bytes
errors = (104 ∷ 105 ∷ []) ∷ [] ∷ (33 ∷ []) ∷ []

abbrev lossy : Bytes → String
lossy b = "text"

errors_are_short : All (λ e. length e ≤ 65535) errors
errors_are_short = (omega arith, (omega arith, (omega arith, tt)))

get_errors-write_all_example :
    (bytes : Bytes) × (write_all errors ≡ done bytes)
    × (get_errors lossy "eof" (record { bytes = bytes; failure = none }) ≡ map lossy errors)
get_errors-write_all_example = get_errors-write_all lossy "eof" errors errors_are_short

abbrev waits : List Answer
waits = err (record { kind = ErrorKind.interrupted; text = "EINTR" }) ∷ ok (some ended) ∷ []

blocking_goes_on : wait (pos 7) true waits ≡ Waited.returned (some ended)
unfolding wait
blocking_goes_on = refl

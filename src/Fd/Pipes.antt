-- ===== src/Fd/Pipes.antt =====
-- `Pipes` of src/fd.rs: the pipes that connect the descriptors of processes. Whichever process is set
-- up first makes the pipe, takes its end and leaves the other.
use procstar.Prelude.{
  ℕ, ◌+◌, [], ◌∷◌, Option, none, some, Result, ok, err, Exec, done, panicked, and_then, map_err,
  BTreeMap, get, insert, pair_key,
}
use procstar.Io.{IoError}
use procstar.Err
use procstar.Spec.{ProcId, RawFd}

-- `sys::RWPair`.
pub record RwPair (A : Type 0) : Type 0 where
  pub read : A
  pub write : A

abbrev pub Pipes : Type 0
Pipes = BTreeMap (ProcId × RawFd) (RwPair (Option RawFd))

-- The answer of `sys::pipe()`.
abbrev pub PipeResult : Type 0
PipeResult = Result IoError (RwPair RawFd)

-- `read.take().unwrap()`: an end that is taken already is a panic.
abbrev pub take_read :
    ProcId × RawFd → Pipes → RwPair (Option RawFd) → Exec (Result Err.Error RawFd × Pipes)
take_read key pipes pair = elim pair.read [
  | none ↦ panicked
  | some fd ↦ done (ok fd, insert key (record { read = none; write = pair.write }) pipes)
]

abbrev pub take_write :
    ProcId × RawFd → Pipes → RwPair (Option RawFd) → Exec (Result Err.Error RawFd × Pipes)
take_write key pipes pair = elim pair.write [
  | none ↦ panicked
  | some fd ↦ done (ok fd, insert key (record { read = pair.read; write = none }) pipes)
]

abbrev pub make_read : ProcId × RawFd → Pipes → PipeResult → Exec (Result Err.Error RawFd × Pipes)
make_read key pipes (err e) = done (err (Err.Error.io e), pipes)
make_read key pipes (ok pipe) =
    done (ok pipe.read, insert key (record { read = none; write = some pipe.write }) pipes)

abbrev pub make_write : ProcId × RawFd → Pipes → PipeResult → Exec (Result Err.Error RawFd × Pipes)
make_write key pipes (err e) = done (err (Err.Error.io e), pipes)
make_write key pipes (ok pipe) =
    done (ok pipe.write, insert key (record { read = some pipe.read; write = none }) pipes)

unfoldable pub get_read_fd :
    PipeResult → Pipes → ProcId → RawFd → Exec (Result Err.Error RawFd × Pipes)
get_read_fd pipe pipes from_proc_id from_fd = elim (get (from_proc_id, from_fd) pipes) [
  | some pair ↦ take_read (from_proc_id, from_fd) pipes pair
  | none ↦ make_read (from_proc_id, from_fd) pipes pipe
]

unfoldable pub get_write_fd :
    PipeResult → Pipes → ProcId → RawFd → Exec (Result Err.Error RawFd × Pipes)
get_write_fd pipe pipes proc_id fd = elim (get (proc_id, fd) pipes) [
  | some pair ↦ take_write (proc_id, fd) pipes pair
  | none ↦ make_write (proc_id, fd) pipes pipe
]

-- Closes the end of a pipe, if it is still there, and counts it.
abbrev pub close_end : (RawFd → Result IoError (Unit {0})) → Option RawFd → ℕ → Result Err.Error ℕ
close_end sys_close none n = ok n
close_end sys_close (some fd) n = and_then (map_err Err.Error.io (sys_close fd)) λ _. ok (n + 1)

unfoldable pub close_from : (RawFd → Result IoError (Unit {0})) → Pipes → ℕ → Result Err.Error ℕ
close_from sys_close [] n = ok n
close_from sys_close ((_, pair) ∷ pipes) n =
    and_then (close_end sys_close pair.read n)
      λ m. and_then (close_end sys_close pair.write m) λ k. close_from sys_close pipes k

-- Closes all remaining ends, and returns how many they were.
unfoldable pub close : (RawFd → Result IoError (Unit {0})) → Pipes → Result Err.Error ℕ
unfolding close_from
close sys_close pipes = close_from sys_close pipes 0

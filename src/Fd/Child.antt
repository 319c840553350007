-- ===== src/Fd/Child.antt =====
-- `SharedFdHandler::in_child` of src/fd.rs: what a handler does in the child process, between fork and
-- exec. The system calls act on `W`, the state of the child's descriptors.
use procstar.Prelude.{String, ℤ, Result, ok, err, if◌then◌else◌, same, int_key}
use procstar.Io.{IoError}
use procstar.Spec.{RawFd}
use procstar.Err
use procstar.Fd.{FdHandler}

-- `sys::close`, `sys::dup2` and `sys::open`.
pub record Calls (W : Type 0) : Type 0 where
  pub close : RawFd → W → Result IoError (Unit {0}) × W
  pub dup2 : RawFd → RawFd → W → Result IoError (Unit {0}) × W
  pub open_file : String → ℤ → ℤ → W → Result IoError RawFd × W

module _ {W : Type 0} (calls : Calls W) where
  -- A call, and what follows it when it succeeds.
  abbrev pub then_call :
      {A : Type 0}
      → Result IoError A × W
      → (A → W → Result Err.Error (Unit {0}) × W)
      → Result Err.Error (Unit {0}) × W
  then_call (ok a, w) next = next a w
  then_call (err e, w) next = (err (Err.Error.io e), w)

  abbrev pub finish : Unit {0} → W → Result Err.Error (Unit {0}) × W
  finish _ w = (ok tt, w)

  -- Makes `fd` refer to what `from` does, and closes `from`.
  abbrev pub move : RawFd → RawFd → W → Result Err.Error (Unit {0}) × W
  move from fd w = then_call (calls.dup2 from fd w) λ _ w'. then_call (calls.close from w') finish

  -- The match of `in_child`.
  unfoldable pub set_up : FdHandler → W → Result Err.Error (Unit {0}) × W
  set_up FdHandler.inherit w = (ok tt, w)
  set_up (FdHandler.error e) w = (err e, w)
  set_up (FdHandler.close fd) w = then_call (calls.close fd w) finish
  set_up (FdHandler.dup fd dup_fd) w =
      if same dup_fd fd then (ok tt, w) else then_call (calls.dup2 dup_fd fd w) finish
  set_up (FdHandler.unmanaged_file fd path oflags mode) w =
      then_call (calls.open_file path oflags mode w)
        λ file_fd w'. if same file_fd fd then (ok tt, w') else move file_fd fd w'
  set_up (FdHandler.unlinked_file fd file_fd encoding attached) w =
      if same file_fd fd then (ok tt, w) else then_call (calls.dup2 file_fd fd w) finish
  set_up (FdHandler.capture_memory fd read_fd write_fd encoding buf attached) w =
      then_call (calls.close read_fd w) λ _ w'. move write_fd fd w'
  set_up (FdHandler.pipe_write fd pipe_write_fd) w = move pipe_write_fd fd w
  set_up (FdHandler.pipe_read fd pipe_read_fd) w = move pipe_read_fd fd w

  -- `FdHandler::drop`, which only logs a failure.
  unfoldable pub drop : FdHandler → W → W
  drop (FdHandler.unlinked_file _ file_fd _ _) w = (calls.close file_fd w).1
  drop _ w = w

  -- The handler is consumed, so that it is dropped at the end, also after an error.
  unfoldable pub in_child : FdHandler → W → Result Err.Error (Unit {0}) × W
  unfolding set_up drop
  in_child h w = let (result, w') = set_up h w in (result, drop h w')

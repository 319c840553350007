-- ===== src/Fd/Handlers.antt =====
-- `SharedFdHandler` of src/fd.rs: making a handler from its spec, its part in the parent process, and
-- the captured output.
use procstar.Prelude.{
  ℕ, ◌-◌, suc, Bool, true, false, String, List, [], ◌∷◌, ◌++◌, Option, none, some, ℤ, pos, Result,
  ok, err, Exec, done, panicked, bind_exec, map_err, and_then, length, take, drop, ltb,
  if◌then◌else◌, ◌||◌, unwrap_or,
}
use procstar.Io.{IoError, Bytes}
use procstar.Spec
use procstar.Spec.{ProcId, FdName, RawFd, CaptureEncoding}
use procstar.Spec.Fds.{parse_fd}
use procstar.Err
use procstar.Res.{FdRes, Codec, from_bytes, new_detached}
use procstar.Sys.Files.{OpenFiles, read_from_file, get_file_length}
use procstar.Fd.{FdHandler, OpenFlags, get_oflags, FdData}
use procstar.Fd.Pipes.{Pipes, PipeResult, get_read_fd, get_write_fd}

-- What the system calls answer that the making of one handler may need.
pub record FdOs : Type 0 where
  pub pipe : PipeResult
  pub mkstemp : Result IoError (String × RawFd)
  pub remove_file : String → Result IoError (Unit {0})

abbrev pub path_dev_null : String
path_dev_null = "/dev/null"

abbrev pub Made : Type 0
Made = Result Err.Error FdHandler × Pipes

unfoldable pub new_unmanaged_file : OpenFlags → RawFd → String → Spec.OpenFlag → ℤ → FdHandler
new_unmanaged_file f fd path flags mode =
    FdHandler.unmanaged_file fd path (get_oflags f flags fd) mode

unfoldable pub open_unlinked_temp_file :
    FdOs → RawFd → Option CaptureEncoding → Bool → Result Err.Error FdHandler
open_unlinked_temp_file os fd encoding attached = and_then (map_err Err.Error.io os.mkstemp) λ tmp.
    and_then (map_err Err.Error.io (os.remove_file tmp.0))
      λ _. ok (FdHandler.unlinked_file fd tmp.1 encoding attached)

unfoldable pub new_capture_memory :
    FdOs → RawFd → Option CaptureEncoding → Bool → Result Err.Error FdHandler
new_capture_memory os fd encoding attached =
    and_then (map_err Err.Error.io os.pipe)
      λ pipe_fds. ok (FdHandler.capture_memory fd pipe_fds.read pipe_fds.write encoding [] attached)

abbrev pub connect : (RawFd → FdHandler) → Result Err.Error RawFd × Pipes → Exec Made
connect make (ok fd, pipes) = done (ok (make fd), pipes)
connect make (err e, pipes) = done (err e, pipes)

-- The argument of `get_read_fd` is read before the call.
abbrev pub read_from : FdOs → Pipes → RawFd → ProcId → Result Spec.Error RawFd → Exec Made
read_from os pipes fd from_proc_id (err e) = done (err (Err.Error.spec e), pipes)
read_from os pipes fd from_proc_id (ok from_fd) =
    bind_exec (get_read_fd os.pipe pipes from_proc_id from_fd) (connect (FdHandler.pipe_read fd))

-- `SharedFdHandler::new`.
unfoldable pub new : OpenFlags → FdOs → Pipes → ProcId → RawFd → Spec.Fd → Exec Made
unfolding new_unmanaged_file open_unlinked_temp_file new_capture_memory
new f os pipes proc_id fd Spec.Fd.inherit = done (ok FdHandler.inherit, pipes)
new f os pipes proc_id fd Spec.Fd.close = done (ok (FdHandler.close fd), pipes)
new f os pipes proc_id fd (Spec.Fd.null flags) =
    done (ok (new_unmanaged_file f fd path_dev_null flags (pos 0)), pipes)
new f os pipes proc_id fd (Spec.Fd.dup dup_fd) = done (ok (FdHandler.dup fd dup_fd), pipes)
new f os pipes proc_id fd (Spec.Fd.file path flags mode) =
    done (ok (new_unmanaged_file f fd path flags mode), pipes)
new f os pipes proc_id fd (Spec.Fd.capture Spec.temp_file encoding attached) =
    done (open_unlinked_temp_file os fd encoding attached, pipes)
new f os pipes proc_id fd (Spec.Fd.capture Spec.memory encoding attached) =
    done (new_capture_memory os fd encoding attached, pipes)
new f os pipes proc_id fd Spec.Fd.pipe_write =
    bind_exec (get_write_fd os.pipe pipes proc_id fd) (connect (FdHandler.pipe_write fd))
new f os pipes proc_id fd (Spec.Fd.pipe_read from_proc_id from_fd) =
    read_from os pipes fd from_proc_id (parse_fd from_fd)

-- `unwrap_or_else`: a failure becomes a handler that reports it.
abbrev pub or_error : Result Err.Error FdHandler → FdHandler
or_error (ok h) = h
or_error (err e) = FdHandler.error e

-- `parse_fd(..).unwrap()` panics on a name that is not read.
unfoldable pub make_fd_handler :
    OpenFlags → FdOs → Pipes → ProcId → FdName → Spec.Fd → Exec ((RawFd × FdHandler) × Pipes)
unfolding new
make_fd_handler f os pipes proc_id fd_str spec = elim (parse_fd fd_str) [
  | err e ↦ panicked
  | ok fd_num ↦
      bind_exec (new f os pipes proc_id fd_num spec)
        λ (made, pipes'). done ((fd_num, or_error made), pipes')
]

-- The handlers of one process, in the order of its spec; `os` gives the answers for each.
unfoldable pub make_fd_handlers :
    OpenFlags
    → (ℕ → FdOs)
    → ℕ
    → Pipes
    → ProcId
    → List (FdName × Spec.Fd)
    → Exec (List (RawFd × FdHandler) × Pipes)
make_fd_handlers f os i pipes proc_id [] = done ([], pipes)
make_fd_handlers f os i pipes proc_id ((fd_str, spec) ∷ fds) =
    bind_exec (make_fd_handler f (os i) pipes proc_id fd_str spec) λ (h, pipes').
      bind_exec (make_fd_handlers f os (suc i) pipes' proc_id fds) λ (hs, end). done (h ∷ hs, end)

-- In the parent: closes the end that is the child's. Returns whether a task drains the pipe.
unfoldable pub in_parent : (RawFd → Result IoError (Unit {0})) → FdHandler → Result Err.Error Bool
in_parent sys_close (FdHandler.capture_memory _ _ write_fd _ _ _) =
    and_then (map_err Err.Error.io (sys_close write_fd)) λ _. ok true
in_parent sys_close (FdHandler.pipe_write _ pipe_write_fd) =
    and_then (map_err Err.Error.io (sys_close pipe_write_fd)) λ _. ok false
in_parent sys_close (FdHandler.pipe_read _ pipe_read_fd) =
    and_then (map_err Err.Error.io (sys_close pipe_read_fd)) λ _. ok false
in_parent sys_close _ = ok false

-- A chunk that the draining task reads; an empty one is the end of the pipe.
unfoldable pub drain_chunk : Bytes → FdHandler → Exec FdHandler
drain_chunk chunk (FdHandler.capture_memory fd read_fd write_fd encoding buf attached) =
    done (FdHandler.capture_memory fd read_fd write_fd encoding (buf ++ chunk) attached)
drain_chunk chunk _ = panicked

-- `run_capture_memory`, over the chunks up to the end of the pipe.
unfoldable pub run_capture_memory : List Bytes → FdHandler → Exec FdHandler
unfolding drain_chunk
run_capture_memory [] h = done h
run_capture_memory ([] ∷ chunks) h = done h
run_capture_memory ((c ∷ cs) ∷ chunks) h =
    bind_exec (drain_chunk (c ∷ cs) h) λ h'. run_capture_memory chunks h'

-- `buf[start..stop]` panics unless `start ≤ stop ≤ buf.len()`.
unfoldable pub slice_buf : Bytes → ℕ → ℕ → Exec Bytes
slice_buf buf start stop =
    if ltb stop start || ltb (length buf) stop
    then panicked
    else done (take (stop - start) (drop start buf))

abbrev pub data_of : Option CaptureEncoding → Bytes → FdData
data_of encoding payload = record { payload = payload; encoding = encoding }

abbrev pub file_data :
    Option CaptureEncoding
    → Result IoError Bytes × OpenFiles
    → Exec (Result Err.Error (Option FdData) × OpenFiles)
file_data encoding (ok payload, files) = done (ok (some (data_of encoding payload)), files)
file_data encoding (err e, files) = done (err (Err.Error.io e), files)

-- `SharedFdHandler::get_data`.
unfoldable pub get_data :
    OpenFiles → FdHandler → ℕ → Option ℕ → Exec (Result Err.Error (Option FdData) × OpenFiles)
unfolding slice_buf
get_data files (FdHandler.unlinked_file _ file_fd encoding _) start stop =
    bind_exec (read_from_file files file_fd start stop) (file_data encoding)
get_data files (FdHandler.capture_memory _ _ _ encoding buf _) start stop =
    bind_exec (slice_buf buf start (unwrap_or stop (length buf)))
      λ payload. done (ok (some (data_of encoding payload)), files)
get_data files _ start stop = done (ok none, files)

abbrev pub file_result :
    Codec
    → Option CaptureEncoding
    → Result IoError Bytes × OpenFiles
    → Result Err.Error (Option FdRes) × OpenFiles
file_result codec encoding (ok payload, files) =
    (ok (some (from_bytes codec encoding payload)), files)
file_result codec encoding (err e, files) = (err (Err.Error.io e), files)

abbrev pub length_result :
    Option CaptureEncoding → Result IoError ℤ → Result Err.Error (Option FdRes)
length_result encoding (ok length) = ok (some (new_detached length encoding))
length_result encoding (err e) = err (Err.Error.io e)

-- `SharedFdHandler::get_result`.
unfoldable pub get_result :
    Codec → OpenFiles → FdHandler → Exec (Result Err.Error (Option FdRes) × OpenFiles)
get_result codec files (FdHandler.unlinked_file _ file_fd encoding true) =
    bind_exec (read_from_file files file_fd 0 none) λ read. done (file_result codec encoding read)
get_result codec files (FdHandler.unlinked_file _ file_fd encoding false) =
    done (length_result encoding (get_file_length files file_fd), files)
get_result codec files (FdHandler.capture_memory _ _ _ encoding buf true) =
    done (ok (some (from_bytes codec encoding buf)), files)
get_result codec files (FdHandler.capture_memory _ _ _ encoding buf false) =
    done (ok (some (new_detached (pos (length buf)) encoding)), files)
get_result codec files _ = done (ok none, files)

-- ===== src/Proto.antt =====
-- src/proto.rs: the defaults of a connection, and what an agent does with a message of its server. The
-- messages are in `Message`. A buffer's length fits an `i64`, and a `usize` has 64 bits.
pub mod Laws
use procstar.Prelude.{
  ℕ, ℤ, pos, ◌+ℤ◌, Bool, String, List, Option, none, some, Result, ok, err, Exec, done, panicked,
  length, unwrap_or,
}
use mathlib.Core.Option
use procstar.Io.{IoError}
use procstar.Message.{
  IncomingMessage, OutgoingMessage, registered, proc_start_request, procid_list_request,
  proc_result_request, proc_signal_request, proc_fd_data_request, proc_delete_request,
}
use procstar.Sig.{Signum}
use procstar.Spec
use procstar.Spec.{ProcId, RawFd, FdName, display_error}
use procstar.Spec.Fds.{parse_fd}
use procstar.Err
use procstar.Err.{display}
use procstar.Res.{as_u64}
use procstar.Fd.{OpenFlags, FdData}
use procstar.Sys.Files.{OpenFiles}
use procstar.Procs.Proc.{Kill, Snapshot, to_result, send_signal, get_fd_data}
use procstar.Procs.Table.{SharedProc, Procs, get_proc, get_proc_ids, remove_if_not_running}
use procstar.Procs.Start.{Answers, Outcome, returned, and_next, or_panic, start_procs}

abbrev pub default_port : ℕ
default_port = 59789

abbrev pub default_group : String
default_group = "default"

abbrev pub or_else : {A : Type 0} → Option A → Option A → Option A
or_else none b = b
or_else (some a) b = some a

-- The argument before the environment variable.
unfoldable pub expand_hostname : (String → Option String) → Option String → Option String
expand_hostname getenv hostname = or_else hostname (getenv "PROCSTAR_AGENT_HOST")

abbrev pub parsed_port : Option (Result String ℕ) → Exec (Option ℕ)
parsed_port none = done none
parsed_port (some (ok port)) = done (some port)
parsed_port (some (err e)) = panicked

-- `parse` is that of `u32`; a variable that is not a port is a panic.
unfoldable pub expand_port :
    (String → Option String) → (String → Result String ℕ) → Option ℕ → Exec (Option ℕ)
expand_port getenv parse (some port) = done (some port)
expand_port getenv parse none = parsed_port (Option.map parse (getenv "PROCSTAR_AGENT_PORT"))

-- What the handling of a message takes from outside: the text of a message, the choices and answers of
-- the system while processes are started, signals, and what a result is made from.
pub record Machine : Type 0 where
  pub debug : IncomingMessage → String
  pub pick : ProcId × RawFd → List (ProcId × RawFd) → ProcId × RawFd
  pub flags : OpenFlags
  pub systemd : Bool
  pub answers : ProcId → Answers
  pub sys_close : RawFd → Result IoError (Unit {0})
  pub kill : Kill
  pub snapshot : Snapshot

-- A response, if there is one, with the shared state and the open files after it.
pub record Handled : Type 0 where
  pub response : Option OutgoingMessage
  pub procs : Procs
  pub files : OpenFiles

unfoldable pub incoming_error : IncomingMessage → String → OutgoingMessage
incoming_error msg e = OutgoingMessage.request_error msg e

module _ (m : Machine) where
  -- The response to a request that may fail and needs no answer.
  abbrev pub unless_error :
      {A : Type 0} → IncomingMessage → Result Err.Error A → Option OutgoingMessage
  unless_error msg (ok _) = none
  unless_error msg (err e) = some (incoming_error msg (display m.debug e))

  abbrev pub deleted : {A : Type 0} → IncomingMessage → Result Err.Error A → Option OutgoingMessage
  deleted msg (ok _) = none
  deleted msg (err (Err.Error.no_proc_id proc_id)) = some (OutgoingMessage.proc_unknown proc_id)
  deleted msg (err e) = some (incoming_error msg (display m.debug e))

  -- `start` and `stop` are given back as they came.
  abbrev pub fd_data :
      IncomingMessage
      → ProcId
      → FdName
      → ℤ
      → Option ℤ
      → Result Err.Error (Option FdData)
      → OutgoingMessage
  fd_data msg proc_id fd_name start stop (ok (some d)) =
      OutgoingMessage.proc_fd_data proc_id fd_name start
        (unwrap_or stop (start +ℤ pos (length d.payload))) d.encoding d.payload
  fd_data msg proc_id fd_name start stop (ok none) = incoming_error msg "no fd data"
  fd_data msg proc_id fd_name start stop (err e) = incoming_error msg (display m.debug e)

  abbrev pub handled : Option OutgoingMessage → Procs → OpenFiles → Handled
  handled response w files = record { response = response; procs = w; files = files }

  abbrev pub unknown : ProcId → Procs → OpenFiles → Outcome Handled
  unknown proc_id w files = returned (handled (some (OutgoingMessage.proc_unknown proc_id)) w files)

  unfoldable pub handle_start : Spec.Procs → Procs → OpenFiles → Outcome Handled
  unfolding start_procs incoming_error
  handle_start specs w files =
      and_next (start_procs m.debug m.pick m.flags m.systemd m.answers m.sys_close specs w)
        λ (result, w'). returned (handled (unless_error (proc_start_request specs) result) w' files)

  unfoldable pub handle_result : ProcId → Procs → OpenFiles → Outcome Handled
  unfolding to_result get_proc
  handle_result proc_id w files = elim (get_proc proc_id w) [
    | none ↦ unknown proc_id w files
    | some r ↦ and_next (or_panic (to_result m.snapshot files (w.heap r))) λ (res, files').
        returned (handled (some (OutgoingMessage.proc_result proc_id res)) w files')
  ]

  unfoldable pub handle_signal : ProcId → Signum → Procs → OpenFiles → Outcome Handled
  unfolding send_signal get_proc incoming_error
  handle_signal proc_id signum w files = elim (get_proc proc_id w) [
    | none ↦ unknown proc_id w files
    | some r ↦ returned (
        handled
          (unless_error (proc_signal_request proc_id signum) (send_signal m.kill (w.heap r) signum))
          w files)
  ]

  unfoldable pub handle_fd_data :
      ProcId → FdName → ℤ → Option ℤ → Procs → OpenFiles → Outcome Handled
  unfolding get_fd_data parse_fd get_proc incoming_error
  handle_fd_data proc_id fd_name start stop w files =
      let msg = proc_fd_data_request proc_id fd_name start stop in
      elim (parse_fd fd_name) [
        | err e ↦ returned (handled (some (incoming_error msg (display_error e))) w files)
        | ok fd ↦ elim (get_proc proc_id w) [
          | none ↦ unknown proc_id w files
          | some r ↦
              and_next
                (or_panic (get_fd_data files (w.heap r) fd (as_u64 start) (Option.map as_u64 stop)))
                λ (got, files').
                  returned (handled (some (fd_data msg proc_id fd_name start stop got)) w files')
        ]
      ]

  unfoldable pub handle_incoming : IncomingMessage → Procs → OpenFiles → Outcome Handled
  unfolding handle_start handle_result handle_signal handle_fd_data remove_if_not_running
      incoming_error
  handle_incoming registered w files =
      returned (handled (some (OutgoingMessage.request_error registered "unexpected")) w files)
  handle_incoming (proc_start_request specs) w files = handle_start specs w files
  handle_incoming procid_list_request w files =
      returned (handled (some (OutgoingMessage.procid_list (get_proc_ids w))) w files)
  handle_incoming (proc_result_request proc_id) w files = handle_result proc_id w files
  handle_incoming (proc_signal_request proc_id signum) w files =
      handle_signal proc_id signum w files
  handle_incoming (proc_fd_data_request proc_id fd start stop) w files =
      handle_fd_data proc_id fd start stop w files
  handle_incoming (proc_delete_request proc_id) w files =
      let (result, w') = remove_if_not_running proc_id w in
      returned (handled (deleted (proc_delete_request proc_id) result) w' files)

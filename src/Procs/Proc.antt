-- ===== src/Procs/Proc.antt =====
-- `Proc` of src/procs.rs: one process, running, terminated or failed to start.
use procstar.Prelude.{
  ℕ, ◌-◌, Bool, false, String, List, [], ◌∷◌, Option, none, some, ℤ, Result, ok, err, Exec, done,
  bind_exec, BTreeMap, insert, same, int_key, string_key, if◌then◌else◌, unwrap_or,
}
use mathlib.Core.Option
use procstar.Io.{IoError, is_not_found}
use procstar.State
use procstar.Sig.{Signum}
use procstar.Spec.{FdName, RawFd}
use procstar.Spec.Fds.{get_fd_name}
use procstar.Procinfo.{ProcStat, ProcStatm}
use procstar.Procinfo.Stat.{Platform, load_or_log}
use procstar.Procinfo.Statm.{load_statm_or_log}
use procstar.Cgroup.{CgroupAccounting}
use procstar.Err
use procstar.Res.{Rusage, WaitMacros, Codec, Status, ProcRes, FdRes, new_usage, new_status}
use procstar.Sys.Files.{OpenFiles}
use procstar.Fd.{FdHandler, FdData}
use procstar.Fd.Handlers.{get_data, get_result}

-- `sys::WaitInfo`: the pid, the wait status and the resource usage.
pub record WaitInfo : Type 0 where
  pub pid : ℤ
  pub status : ℤ
  pub rusage : Rusage

abbrev pub FdHandlers : Type 0
FdHandlers = List (RawFd × FdHandler)

pub record Proc : Type 0 where
  pub pid : ℤ
  pub slice : Option String
  pub scope : Option String
  pub systemd_enabled : Bool
  pub reaped : Bool
  pub errors : List String
  pub fd_handlers : FdHandlers
  pub start_time : ℕ
  pub start_instant : ℕ
  pub wait_info : Option WaitInfo
  pub proc_stat : Option ProcStat
  pub cgroup_accounting : Option CgroupAccounting
  pub scope_result : Option String
  pub cleanup_incomplete : Bool
  pub stop_time : Option ℕ
  pub elapsed : Option ℕ

unfoldable pub new_proc : ℤ → Option String → Option String → Bool → ℕ → ℕ → FdHandlers → Proc
new_proc pid slice scope systemd_enabled start_time start_instant fd_handlers = record {
  pid = pid;
  slice = slice;
  scope = scope;
  systemd_enabled = systemd_enabled;
  reaped = false;
  errors = [];
  fd_handlers = fd_handlers;
  start_time = start_time;
  start_instant = start_instant;
  wait_info = none;
  proc_stat = none;
  cgroup_accounting = none;
  scope_result = none;
  cleanup_incomplete = false;
  stop_time = none;
  elapsed = none;
}

-- `sys::kill`, which answers `not_found` where no process has the pid.
abbrev pub Kill : Type 0
Kill = ℤ → Signum → Result IoError (Unit {0})

abbrev pub of_kill : Result IoError (Unit {0}) → Result Err.Error (Unit {0})
of_kill (ok _) = ok tt
of_kill (err e) = if is_not_found e.kind then err Err.Error.no_proc else err (Err.Error.io e)

-- A reaped pid may already belong to another process.
unfoldable pub send_signal : Kill → Proc → Signum → Result Err.Error (Unit {0})
send_signal kill proc signum =
    if proc.reaped then err Err.Error.no_proc else of_kill (kill proc.pid signum)

abbrev pub state_of : List String → Option WaitInfo → State.State
state_of (_ ∷ _) _ = State.State.error
state_of [] none = State.State.running
state_of [] (some _) = State.State.terminated

unfoldable pub get_state : Proc → State.State
get_state proc = state_of proc.errors proc.wait_info

-- What a result is made from besides the process: the clocks, /proc, the C library and the codecs.
pub record Snapshot : Type 0 where
  pub now_time : ℕ
  pub now_instant : ℕ
  pub to_rfc3339 : ℕ → String
  pub platform : Platform
  pub macros : WaitMacros
  pub codec : Codec

abbrev pub fd_result_or_error : Result Err.Error (Option FdRes) → Option FdRes
fd_result_or_error (ok result) = result
fd_result_or_error (err _) = some FdRes.error

-- The results of the descriptors, under their names.
unfoldable pub fd_results :
    Codec
    → OpenFiles
    → FdHandlers
    → BTreeMap FdName (Option FdRes)
    → Exec (BTreeMap FdName (Option FdRes) × OpenFiles)
fd_results codec files [] results = done (results, files)
fd_results codec files ((fd_num, h) ∷ hs) results =
    bind_exec (get_result codec files h) λ (result, files').
      fd_results codec files' hs (insert (get_fd_name fd_num) (fd_result_or_error result) results)

abbrev pub status_of : WaitMacros → Option WaitInfo → Exec (Option Status)
status_of m none = done none
status_of m (some info) = bind_exec (new_status m info.status) λ s. done (some s)

-- /proc/pid/statm is not there for a terminated process.
abbrev pub statm_of : Snapshot → ℤ → Option WaitInfo → Exec (Option ProcStatm)
statm_of s pid none = load_statm_or_log s.platform pid
statm_of s pid (some _) = done none

abbrev pub stat_of : Snapshot → ℤ → Option ProcStat → Exec (Option ProcStat)
stat_of s pid (some stat) = done (some stat)
stat_of s pid none = load_or_log s.platform pid

unfoldable pub to_result : Snapshot → OpenFiles → Proc → Exec (ProcRes × OpenFiles)
unfolding fd_results load_or_log load_statm_or_log
to_result s files proc = bind_exec (status_of s.macros proc.wait_info) λ status.
    bind_exec (stat_of s proc.pid proc.proc_stat) λ stat.
      bind_exec (statm_of s proc.pid proc.wait_info) λ statm.
        bind_exec (fd_results s.codec files proc.fd_handlers []) λ (fds, files'). done (
          record {
            state = get_state proc;
            errors = proc.errors;
            pid = proc.pid;
            proc_stat = stat;
            proc_statm = statm;
            cgroup_accounting = proc.cgroup_accounting;
            systemd_enabled = proc.systemd_enabled;
            scope_result = proc.scope_result;
            cleanup_incomplete = proc.cleanup_incomplete;
            times = record {
              start = s.to_rfc3339 proc.start_time;
              now = s.to_rfc3339 s.now_time;
              stop = Option.map s.to_rfc3339 proc.stop_time;
              elapsed = unwrap_or proc.elapsed (s.now_instant - proc.start_instant);
            };
            status = status;
            rusage = Option.map (λ info. new_usage info.rusage) proc.wait_info;
            fds = fds;
          },
          files',
        )

unfoldable pub get_fd_handler : RawFd → FdHandlers → Option FdHandler
get_fd_handler fd [] = none
get_fd_handler fd ((fd_num, h) ∷ hs) = if same fd_num fd then some h else get_fd_handler fd hs

unfoldable pub get_fd_data :
    OpenFiles → Proc → RawFd → ℕ → Option ℕ → Exec (Result Err.Error (Option FdData) × OpenFiles)
unfolding get_fd_handler
get_fd_data files proc fd start stop = elim (get_fd_handler fd proc.fd_handlers) [
  | some h ↦ get_data files h start stop
  | none ↦ done (err (Err.Error.no_fd fd), files)
]

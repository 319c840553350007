-- ===== src/Tests/Data.antt =====
-- The inputs that the tests share: a machine on which every call succeeds, a process and its spec.
use procstar.Prelude.{
  ℕ, ℤ, pos, Bool, true, false, String, List, [], ◌∷◌, none, some, Result, ok, err, ◌*◌, done,
}
use procstar.Io.{IoError, ErrorKind}
use procstar.Shutdown
use procstar.Message.{IncomingMessage}
use procstar.Spec
use procstar.Spec.{ProcId, RawFd}
use procstar.Res.{WaitMacros, Codec, Rusage}
use procstar.Fd.{OpenFlags}
use procstar.Fd.Handlers.{FdOs}
use procstar.Procs.Proc.{Proc, WaitInfo, Kill, Snapshot, new_proc}
use procstar.Procs.Table.{SharedProc, Procs}
use procstar.Procs.Start.{Answers}
use procstar.Procs.Units.{Round}
use procstar.Proto.{Machine}
use procstar.Procinfo.Stat.{Platform}

abbrev pub io_error : IoError
io_error = record { kind = ErrorKind.other; text = "failed" }

abbrev pub rusage : Rusage
rusage = record {
  ru_utime = (1, 5);
  ru_stime = (0, 7);
  ru_maxrss = pos 4;
  ru_minflt = pos 0;
  ru_majflt = pos 0;
  ru_nswap = pos 0;
  ru_inblock = pos 0;
  ru_oublock = pos 0;
  ru_nvcsw = pos 0;
  ru_nivcsw = pos 0;
}

abbrev pub ended : WaitInfo
ended = record { pid = pos 7; status = pos 0; rusage = rusage }

-- A process that is running.
unfoldable pub proc : Proc
unfolding new_proc
proc = new_proc (pos 7) none none false 100 10 []

-- One that has ended.
unfoldable pub over : Proc
unfolding proc
over = record proc { reaped = true; wait_info = some ended }

-- A status of 300 or more is a signal.
abbrev pub exits : ℤ → Bool
exits (pos n) = true
exits _ = false

abbrev pub macros : WaitMacros
macros = record {
  wifexited = exits;
  wexitstatus = λ s. s;
  wtermsig = λ s. pos 34;
  wcoredump = λ s. false;
}

abbrev pub codec : Codec
codec = record { from_utf8_lossy = λ b. "text"; base64 = λ b. "b64" }

abbrev pub platform : Platform
platform = record {
  clk_tck = ok (pos 100);
  seconds = λ n tick. n * 10000000;
  since_boot = λ t. "time";
  page_size = 4096;
  read_to_string = λ path. err (record { kind = ErrorKind.not_found; text = "no such file" });
}

abbrev pub snapshot : Snapshot
snapshot = record {
  now_time = 200;
  now_instant = 20;
  to_rfc3339 = λ t. "time";
  platform = platform;
  macros = macros;
  codec = codec;
}

abbrev pub flags : OpenFlags
flags = record {
  o_rdonly = pos 0;
  o_wronly = pos 1;
  o_rdwr = pos 2;
  o_creat = pos 64;
  o_trunc = pos 512;
  o_excl = pos 128;
  o_append = pos 1024;
  union = λ a b. a;
}

abbrev pub fd_os : ℕ → FdOs
fd_os i = record {
  pipe = ok (record { read = pos 20; write = pos 21 });
  mkstemp = ok ("/tmp/x", pos 22);
  remove_file = λ p. ok tt;
}

abbrev pub closes : RawFd → Result IoError (Unit {0})
closes fd = ok tt

abbrev pub answers : ProcId → Answers
answers id = record {
  env_vars = done (("LANG", "de") ∷ ("HOME", "/root") ∷ []);
  error_pipe = ok tt;
  event_fd = ok tt;
  fd_os = fd_os;
  fork = ok (pos 7);
  start_time = 100;
  start_instant = 10;
  start_unit = λ t p. ok "unit";
  write_event = ok tt;
  sys_close = closes;
}

abbrev pub kills : Kill
kills pid signum = ok tt

abbrev pub pick : ProcId × RawFd → List (ProcId × RawFd) → ProcId × RawFd
pick p rest = p

abbrev pub debug : IncomingMessage → String
debug msg = "message"

abbrev pub machine : Machine
machine = record {
  debug = debug;
  pick = pick;
  flags = flags;
  systemd = false;
  answers = answers;
  sys_close = closes;
  kill = kills;
  snapshot = snapshot;
}

abbrev pub no_scope : Spec.Scope
no_scope = record {
  oom_policy = none;
  runtime_max_usec = none;
  runtime_randomized_extra_usec = none;
}

abbrev pub no_slice : Spec.Slice
no_slice = record {
  memory_accounting = none;
  memory_min = none;
  memory_low = none;
  memory_high = none;
  memory_max = none;
  memory_swap_max = none;
  tasks_accounting = none;
  tasks_max = none;
}

abbrev pub env : Spec.Env
env = record { inherit = Spec.EnvInherit.all; vars = ("LANG", some "C") ∷ [] }

abbrev pub spec_with : List (Spec.FdName × Spec.Fd) → Spec.Proc
spec_with fds = record {
  id = none;
  exe = none;
  argv = "true" ∷ [];
  env = env;
  fds = fds;
  systemd_properties = record { scope = no_scope; slice = no_slice };
}

-- A process that reads from its own output.
abbrev pub wired : Spec.Procs
wired =
    (
      "a",
      spec_with (("stdout", Spec.Fd.pipe_write) ∷ ("stdin", Spec.Fd.pipe_read "a" "stdout") ∷ []),
    )
    ∷ []

abbrev pub plain : Spec.Procs
plain = ("a", spec_with []) ∷ []

-- A table with a subscriber.
abbrev pub table : List (ProcId × SharedProc) → Proc → Shutdown.State → Procs
table procs p state = record {
  heap = λ r. p;
  next = 1;
  procs = procs;
  receivers = 1;
  sent = [];
  shutdown = state;
}

abbrev pub one : List (ProcId × SharedProc)
one = ("a", 0) ∷ []

-- A round in which all goes well, and one in which the stop of the scope times out.
abbrev pub good_round : Round
good_round = record {
  stop_scope = ok (some "done");
  scope_state = some (ok ("failed", "oom-kill"));
  reset_failed = some (ok tt);
  cgroup_path = some (ok "/sys/fs/cgroup/x");
  read_to_string = λ p. err io_error;
  stop_slice = ok (some "done");
}

abbrev pub late_round : Round
late_round = record good_round { stop_scope = ok none }

abbrev pub ends_with : String → String → Bool
ends_with text tail = false

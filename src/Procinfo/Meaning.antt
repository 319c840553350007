-- ===== src/Procinfo/Meaning.antt =====
-- What the columns of a line of /proc/pid/stat mean, which src/procinfo.rs reads, and their ranges.
use procstar.Sig.{get_abbrev}
use procstar.Prelude.{
  zero, suc, pos, ◌/◌, ◌%◌, ◌==◌, List, [], ◌∷◌, unwrap_or, if◌then◌else◌, ℕ, ℤ, Fits, ◌≤◌, ◌<◌,
  String, Option, none, some,
}
use procstar.Prelude.Text.{Lacks, IsWord}
use procstar.Procinfo.{ProcStat}
use procstar.Procinfo.Parts.{i32_max, u32_max, i64_max, u64_max}
use procstar.Procinfo.Stat.{Platform, as_u32, in_bytes}
use procstar.Procinfo.Line.{Line}

abbrev pub FitsTpgid : Option ℕ → Type 0
FitsTpgid none = Unit
FitsTpgid (some n) = n ≤ u32_max

-- The ranges of the columns, a name without a closing parenthesis, and device numbers of one byte each.
pub record IsPrintable (l : Line) : Type 0 where
  pub pid : Fits i32_max l.pid
  pub comm : Lacks 41 l.comm
  pub state : IsWord l.state
  pub ppid : Fits i32_max l.ppid
  pub pgrp : l.pgrp ≤ u32_max
  pub session : Fits i32_max l.session
  pub tty_major : l.tty_major < 256
  pub tty_minor : l.tty_minor < 256
  pub tpgid : FitsTpgid l.tpgid
  pub flags : l.flags ≤ u32_max
  pub minflt : l.minflt ≤ u64_max
  pub cminflt : l.cminflt ≤ u64_max
  pub majflt : l.majflt ≤ u64_max
  pub cmajflt : l.cmajflt ≤ u64_max
  pub utime : l.utime ≤ u64_max
  pub stime : l.stime ≤ u64_max
  pub cutime : l.cutime ≤ u64_max
  pub cstime : l.cstime ≤ u64_max
  pub priority : Fits i64_max l.priority
  pub nice : Fits i64_max l.nice
  pub num_threads : Fits i64_max l.num_threads
  pub starttime : l.starttime ≤ u64_max
  pub vsize : l.vsize ≤ u64_max
  pub rss : Fits i64_max l.rss
  pub rsslim : l.rsslim ≤ u64_max
  pub signal : Fits i32_max l.signal
  pub blocked : Fits i32_max l.blocked
  pub sigignore : Fits i32_max l.sigignore
  pub sigcatch : Fits i32_max l.sigcatch
  pub wchan : l.wchan ≤ u64_max
  pub exit_signal : Fits i32_max l.exit_signal
  pub processor : Fits i32_max l.processor
  pub rt_priority : l.rt_priority ≤ u32_max
  pub policy : l.policy ≤ u32_max
  pub delayacct_blkio_ticks : l.delayacct_blkio_ticks ≤ u64_max
  pub guest_time : l.guest_time ≤ u64_max
  pub cguest_time : Fits i64_max l.cguest_time
  pub exit_code : Fits i32_max l.exit_code

-- The names of the signals in a mask, as the kernel prints it: signal `s` is bit `s - 1`. `mask` has the bit of
-- `s` as its lowest.
unfoldable pub signals_from : ℕ → ℕ → ℕ → List String
signals_from zero s mask = []
signals_from (suc count) s mask =
    let rest = signals_from count (suc s) (mask / 2) in
    if mask % 2 == 1 then unwrap_or (get_abbrev (pos s)) "???" ∷ rest else rest

unfoldable pub signals_of : ℤ → List String
unfolding signals_from
signals_of mask = signals_from 31 1 (as_u32 mask)

-- A mask, and a line with all its masks, as the code takes them: one bit lower, so that every signal has the
-- place of the one before it, and SIGHUP has none.
abbrev pub lowered : ℤ → ℤ
lowered mask = pos (as_u32 mask / 2)

abbrev pub as_read : Line → Line
as_read l = record l {
  signal = lowered l.signal;
  blocked = lowered l.blocked;
  sigignore = lowered l.sigignore;
  sigcatch = lowered l.sigcatch;
}

-- What a line means, at a rate of the clock and with the name of the exit signal.
abbrev pub meaning : Platform → ℤ → Option String → Line → ProcStat
meaning p tick name l = record {
  pid = l.pid;
  comm = l.comm;
  state = l.state;
  ppid = l.ppid;
  pgrp = l.pgrp;
  session = l.session;
  tty_nr = (l.tty_major, l.tty_minor);
  tpgid = l.tpgid;
  flags = l.flags;
  minflt = l.minflt;
  cminflt = l.cminflt;
  majflt = l.majflt;
  cmajflt = l.cmajflt;
  utime = p.seconds l.utime tick;
  stime = p.seconds l.stime tick;
  cutime = p.seconds l.cutime tick;
  cstime = p.seconds l.cstime tick;
  priority = l.priority;
  nice = l.nice;
  num_threads = l.num_threads;
  starttime = p.since_boot (p.seconds l.starttime tick);
  vsize = l.vsize;
  rss = in_bytes l.rss p.page_size;
  rsslim = l.rsslim;
  signal = signals_of l.signal;
  blocked = signals_of l.blocked;
  sigignore = signals_of l.sigignore;
  sigcatch = signals_of l.sigcatch;
  wchan = l.wchan;
  exit_signal = name;
  processor = l.processor;
  rt_priority = l.rt_priority;
  policy = l.policy;
  delayacct_blkio_ticks = p.seconds l.delayacct_blkio_ticks tick;
  guest_time = p.seconds l.guest_time tick;
  cguest_time = l.cguest_time;
  exit_code = l.exit_code;
}

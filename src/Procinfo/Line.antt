-- ===== src/Procinfo/Line.antt =====
-- Lines of /proc/{pid}/stat as the kernel prints them, and what they mean for `ProcStat`.
use Prim.Native.String.{◌++◌}
use procstar.Prelude.{ℕ, ℤ, ◌+◌, ◌*◌, String, List, [], ◌∷◌, Option, none, some, map}
use procstar.Prelude.Decimal.{show_ℕ, show_ℤ}
use procstar.Prelude.Text.Words.{join}

-- The numbers that the kernel prints. A terminal has a major and a minor number; a process without one has no
-- foreground group, which prints as -1.
pub record Line : Type 0 where
  pub pid : ℤ
  pub comm : String
  pub state : String
  pub ppid : ℤ
  pub pgrp : ℕ
  pub session : ℤ
  pub tty_major : ℕ
  pub tty_minor : ℕ
  pub tpgid : Option ℕ
  pub flags : ℕ
  pub minflt : ℕ
  pub cminflt : ℕ
  pub majflt : ℕ
  pub cmajflt : ℕ
  pub utime : ℕ
  pub stime : ℕ
  pub cutime : ℕ
  pub cstime : ℕ
  pub priority : ℤ
  pub nice : ℤ
  pub num_threads : ℤ
  pub itrealvalue : ℕ
  pub starttime : ℕ
  pub vsize : ℕ
  pub rss : ℤ
  pub rsslim : ℕ
  pub startcode : ℕ
  pub endcode : ℕ
  pub startstack : ℕ
  pub kstkesp : ℕ
  pub kstkeip : ℕ
  pub signal : ℤ
  pub blocked : ℤ
  pub sigignore : ℤ
  pub sigcatch : ℤ
  pub wchan : ℕ
  pub nswap : ℕ
  pub cnswap : ℕ
  pub exit_signal : ℤ
  pub processor : ℤ
  pub rt_priority : ℕ
  pub policy : ℕ
  pub delayacct_blkio_ticks : ℕ
  pub guest_time : ℕ
  pub cguest_time : ℤ
  pub start_data : ℕ
  pub end_data : ℕ
  pub start_brk : ℕ
  pub arg_start : ℕ
  pub arg_end : ℕ
  pub env_start : ℕ
  pub env_end : ℕ
  pub exit_code : ℤ

-- A column that is a number, with its sign or without, or the foreground group.
pub data Column : Type 0 where
  natural : ℕ → Column
  integer : ℤ → Column
  group : Option ℕ → Column

abbrev pub show_tpgid : Option ℕ → String
show_tpgid none = "-1"
show_tpgid (some n) = show_ℕ n

abbrev pub show_column : Column → String
show_column (natural n) = show_ℕ n
show_column (integer z) = show_ℤ z
show_column (group tpgid) = show_tpgid tpgid

-- The columns behind the state.
abbrev pub numbers : Line → List Column
numbers l =
    integer l.ppid
    ∷ natural l.pgrp
    ∷ integer l.session
    ∷ natural (l.tty_major * 256 + l.tty_minor)
    ∷ group l.tpgid
    ∷ natural l.flags
    ∷ natural l.minflt
    ∷ natural l.cminflt
    ∷ natural l.majflt
    ∷ natural l.cmajflt
    ∷ natural l.utime
    ∷ natural l.stime
    ∷ natural l.cutime
    ∷ natural l.cstime
    ∷ integer l.priority
    ∷ integer l.nice
    ∷ integer l.num_threads
    ∷ natural l.itrealvalue
    ∷ natural l.starttime
    ∷ natural l.vsize
    ∷ integer l.rss
    ∷ natural l.rsslim
    ∷ natural l.startcode
    ∷ natural l.endcode
    ∷ natural l.startstack
    ∷ natural l.kstkesp
    ∷ natural l.kstkeip
    ∷ integer l.signal
    ∷ integer l.blocked
    ∷ integer l.sigignore
    ∷ integer l.sigcatch
    ∷ natural l.wchan
    ∷ natural l.nswap
    ∷ natural l.cnswap
    ∷ integer l.exit_signal
    ∷ integer l.processor
    ∷ natural l.rt_priority
    ∷ natural l.policy
    ∷ natural l.delayacct_blkio_ticks
    ∷ natural l.guest_time
    ∷ integer l.cguest_time
    ∷ natural l.start_data
    ∷ natural l.end_data
    ∷ natural l.start_brk
    ∷ natural l.arg_start
    ∷ natural l.arg_end
    ∷ natural l.env_start
    ∷ natural l.env_end
    ∷ integer l.exit_code
    ∷ []

abbrev pub columns : Line → List String
columns l = l.state ∷ map show_column (numbers l)

abbrev pub print : Line → String
print l =
    show_ℤ l.pid
    ++ String.◌∷◌ " "
        (String.◌∷◌ "(" (l.comm ++ String.◌∷◌ ")" (String.◌∷◌ " " (join (columns l) ++ "\n"))))

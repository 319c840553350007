-- ===== src/Procinfo.antt =====
-- src/procinfo.rs: the data read from /proc. A time in seconds, an `f64`, is a number of nanoseconds.
-- Integer fields are natural numbers where the source's type is unsigned, and integers elsewhere.
pub mod Parts
pub mod Stat
pub mod Statm
pub mod Meaning
pub mod Line
pub mod Printed
use procstar.Prelude.{ℕ, String, List, Option, ℤ}

pub record ProcessInfo : Type 0 where
  pub pid : ℤ
  pub ppid : ℤ
  pub uid : ℕ
  pub euid : ℕ
  pub username : Option String
  pub gid : ℕ
  pub egid : ℕ
  pub groupname : Option String
  pub hostname : String

pub record ProcStat : Type 0 where
  pub pid : ℤ
  pub comm : String
  pub state : String
  pub ppid : ℤ
  pub pgrp : ℕ
  pub session : ℤ
  pub tty_nr : ℕ × ℕ
  pub tpgid : Option ℕ
  pub flags : ℕ
  pub minflt : ℕ
  pub cminflt : ℕ
  pub majflt : ℕ
  pub cmajflt : ℕ
  pub utime : ℕ
  pub stime : ℕ
  pub cutime : ℕ
  pub cstime : ℕ
  pub priority : ℤ
  pub nice : ℤ
  pub num_threads : ℤ
  pub starttime : String
  pub vsize : ℕ
  pub rss : ℤ
  pub rsslim : ℕ
  pub signal : List String
  pub blocked : List String
  pub sigignore : List String
  pub sigcatch : List String
  pub wchan : ℕ
  pub exit_signal : Option String
  pub processor : ℤ
  pub rt_priority : ℕ
  pub policy : ℕ
  pub delayacct_blkio_ticks : ℕ
  pub guest_time : ℕ
  pub cguest_time : ℤ
  pub exit_code : ℤ

pub record ProcStatm : Type 0 where
  pub size : ℕ
  pub resident : ℕ
  pub shared : ℕ
  pub text : ℕ
  pub data_size : ℕ

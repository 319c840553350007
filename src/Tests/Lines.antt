-- ===== src/Tests/Lines.antt =====
-- A line of /proc/{pid}/stat.
use procstar.Prelude.{pos, negsuc, ◌≡◌, refl, arith, none, some, done}
use procstar.Prelude.Text.{is_whitespace}
use procstar.Sig.{get_abbrev}
use procstar.Procinfo.Stat.{parse, exit_name}
use procstar.Procinfo.Line.{Line, print}
use procstar.Procinfo.Meaning.{IsPrintable, meaning, as_read}
use procstar.Procinfo.Printed.{parse-print}
use procstar.Tests.Data.{platform}

abbrev line : Line
line = record {
  pid = pos 4242;
  comm = "my sh";
  state = "S";
  ppid = pos 28;
  pgrp = 28;
  session = pos 49;
  tty_major = 136;
  tty_minor = 7;
  tpgid = none;
  flags = 35;
  minflt = 42;
  cminflt = 49;
  majflt = 42;
  cmajflt = 49;
  utime = 35;
  stime = 35;
  cutime = 42;
  cstime = 42;
  priority = pos 56;
  nice = negsuc 4;
  num_threads = pos 77;
  itrealvalue = 77;
  starttime = 63;
  vsize = 35;
  rss = pos 21;
  rsslim = 42;
  startcode = 63;
  endcode = 49;
  startstack = 70;
  kstkesp = 49;
  kstkeip = 49;
  signal = pos 42;
  blocked = pos 49;
  sigignore = pos 63;
  sigcatch = pos 56;
  wchan = 35;
  nswap = 35;
  cnswap = 42;
  exit_signal = pos 17;
  processor = pos 63;
  rt_priority = 77;
  policy = 42;
  delayacct_blkio_ticks = 147;
  guest_time = 70;
  cguest_time = pos 77;
  start_data = 70;
  end_data = 56;
  start_brk = 63;
  arg_start = 63;
  arg_end = 49;
  env_start = 63;
  env_end = 49;
  exit_code = pos 63;
}

line-IsPrintable : IsPrintable line
unfolding is_whitespace
line-IsPrintable = record {
  pid = omega arith;
  comm = (refl, (refl, (refl, (refl, (refl, tt)))));
  state = (refl, tt);
  ppid = omega arith;
  pgrp = omega arith;
  session = omega arith;
  tty_major = omega arith;
  tty_minor = omega arith;
  tpgid = tt;
  flags = omega arith;
  minflt = omega arith;
  cminflt = omega arith;
  majflt = omega arith;
  cmajflt = omega arith;
  utime = omega arith;
  stime = omega arith;
  cutime = omega arith;
  cstime = omega arith;
  priority = omega arith;
  nice = omega arith;
  num_threads = omega arith;
  starttime = omega arith;
  vsize = omega arith;
  rss = omega arith;
  rsslim = omega arith;
  signal = omega arith;
  blocked = omega arith;
  sigignore = omega arith;
  sigcatch = omega arith;
  wchan = omega arith;
  exit_signal = omega arith;
  processor = omega arith;
  rt_priority = omega arith;
  policy = omega arith;
  delayacct_blkio_ticks = omega arith;
  guest_time = omega arith;
  cguest_time = omega arith;
  exit_code = omega arith;
}

named : exit_name line.exit_signal ≡ done (some "SIGCHLD")
unfolding exit_name get_abbrev
named = refl

parse-print_example :
    parse platform (print line) ≡ done (meaning platform (pos 100) (some "SIGCHLD") (as_read line))
parse-print_example =
    parse-print platform (pos 100) (some "SIGCHLD") line line-IsPrintable refl named

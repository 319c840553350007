-- ===== src/Procinfo/Stat.antt =====
-- `ProcStat` of src/procinfo.rs: reading /proc/{pid}/stat. The clock's rate, the boot time and the page
-- size are those of the system; a quotient of floating point is `seconds`.
use Prim.Native.Nat.{bit_or}
use Prim.Native.String.{◌++◌ as cat}
use procstar.Prelude.{
  ℕ, zero, suc, ℤ, pos, negsuc, ◌-◌, ◌*◌, ◌/◌, ◌%◌, ◌^◌, Bool, String, List, [], ◌∷◌, Option, none,
  some, Result, ok, err, Exec, done, panicked, bind_exec, ltb, ◌==◌, str_eq, if◌then◌else◌,
  unwrap_or,
}
use procstar.Prelude.Text.{split_once, split, trim}
use procstar.Prelude.Decimal.{parse_i32, parse_uint, show_ℤ}
use procstar.Io.{IoError}
use procstar.Sig.{get_abbrev}
use procstar.Procinfo.{ProcStat}
use procstar.Procinfo.Parts.{
  Parts, ◌>>=◌, ◌>>◌, pure, lift, expect, next, skip, unsigned, signed, i32_max, u32_max, i64_max,
  u64_max,
}

pub record Platform : Type 0 where
  -- `get_clk_tck()`.
  pub clk_tck : Result IoError ℤ
  -- A number of ticks as a time, for a rate of the clock.
  pub seconds : ℕ → ℤ → ℕ
  -- The text of the time that is so long after the boot.
  pub since_boot : ℕ → String
  pub page_size : ℕ
  pub read_to_string : String → Result IoError String

-- `as u32` of an `i32`.
abbrev pub as_u32 : ℤ → ℕ
as_u32 (pos n) = n
as_u32 (negsuc n) = 4294967295 - n

-- `bits & (1 << s) != 0`.
abbrev pub has_bit : ℕ → ℕ → Bool
has_bit bits s = bits / 2 ^ s % 2 == 1

-- From bit `s` on, `count` bits.
unfoldable pub expand_from : ℕ → ℕ → ℕ → List String
expand_from zero s bits = []
expand_from (suc count) s bits =
    let rest = expand_from count (suc s) bits in
    if has_bit bits s then unwrap_or (get_abbrev (pos s)) "???" ∷ rest else rest

-- The bits 1 to 31.
unfoldable pub expand_sig_bitmap : ℤ → List String
unfolding expand_from
expand_sig_bitmap bits = expand_from 31 1 (as_u32 bits)

unfoldable pub split_tty : ℕ → ℕ × ℕ
split_tty tty_nr = (tty_nr / 256 % 256, bit_or (tty_nr / 65536) (tty_nr % 256) % 65536)

unfoldable pub read_tpgid : String → Exec (Option ℕ)
read_tpgid s =
    if str_eq s "-1"
    then done none
    else bind_exec (expect (parse_uint u32_max s)) λ n. done (some n)

-- `sig::get_abbrev(exit_signal).unwrap()` panics on a signal that has no name.
unfoldable pub exit_name : ℤ → Exec (Option String)
exit_name (pos zero) = done none
exit_name (pos (suc n)) = bind_exec (expect (get_abbrev (pos (suc n)))) λ name. done (some name)
exit_name (negsuc n) = panicked

-- `as i64`, and the product of an `i64` and a page size, which wraps as in a release build.
abbrev pub as_i64 : ℕ → ℤ
as_i64 n =
    let m = n % 18446744073709551616 in
    if ltb m 9223372036854775808 then pos m else negsuc (18446744073709551615 - m)

unfoldable pub in_bytes : ℤ → ℕ → ℤ
in_bytes (pos n) size = as_i64 (n * size)
in_bytes (negsuc n) size = as_i64 ((18446744073709551615 - n) * size)

unfoldable pub skips : ℕ → Parts (Unit {0})
unfolding next
skips zero = pure tt
skips (suc n) = do _ ← next; skips n

abbrev pub rate : Platform → Exec ℤ
rate p = elim p.clk_tck [ ok tick ↦ done tick | err e ↦ panicked ]

-- The columns behind the name.
unfoldable pub read_columns : Platform → ℤ → String → Parts ProcStat
unfolding next skip skips unsigned signed read_tpgid split_tty exit_name expand_sig_bitmap in_bytes
read_columns p pid comm = do
  state ← next
  ppid ← signed i32_max
  pgrp ← unsigned u32_max
  session ← signed i32_max
  tty_nr ← unsigned u32_max
  tpgid_text ← next
  tpgid ← lift (read_tpgid tpgid_text)
  flags ← unsigned u32_max
  minflt ← unsigned u64_max
  cminflt ← unsigned u64_max
  majflt ← unsigned u64_max
  cmajflt ← unsigned u64_max
  tick ← lift (rate p)
  utime ← unsigned u64_max
  stime ← unsigned u64_max
  cutime ← unsigned u64_max
  cstime ← unsigned u64_max
  priority ← signed i64_max
  nice ← signed i64_max
  num_threads ← signed i64_max
  skip
  starttime ← unsigned u64_max
  vsize ← unsigned u64_max
  rss ← signed i64_max
  rsslim ← unsigned u64_max
  skips 5
  signal ← signed i32_max
  blocked ← signed i32_max
  sigignore ← signed i32_max
  sigcatch ← signed i32_max
  wchan ← unsigned u64_max
  skip
  skip
  exit_signal_num ← signed i32_max
  exit_signal ← lift (exit_name exit_signal_num)
  processor ← signed i32_max
  rt_priority ← unsigned u32_max
  policy ← unsigned u32_max
  delayacct_blkio_ticks ← unsigned u64_max
  guest_time ← unsigned u64_max
  cguest_time ← signed i64_max
  skips 7
  exit_code ← signed i32_max
  pure (record {
    pid = pid;
    comm = comm;
    state = state;
    ppid = ppid;
    pgrp = pgrp;
    session = session;
    tty_nr = split_tty tty_nr;
    tpgid = tpgid;
    flags = flags;
    minflt = minflt;
    cminflt = cminflt;
    majflt = majflt;
    cmajflt = cmajflt;
    utime = p.seconds utime tick;
    stime = p.seconds stime tick;
    cutime = p.seconds cutime tick;
    cstime = p.seconds cstime tick;
    priority = priority;
    nice = nice;
    num_threads = num_threads;
    starttime = p.since_boot (p.seconds starttime tick);
    vsize = vsize;
    rss = in_bytes rss p.page_size;
    rsslim = rsslim;
    signal = expand_sig_bitmap signal;
    blocked = expand_sig_bitmap blocked;
    sigignore = expand_sig_bitmap sigignore;
    sigcatch = expand_sig_bitmap sigcatch;
    wchan = wchan;
    exit_signal = exit_signal;
    processor = processor;
    rt_priority = rt_priority;
    policy = policy;
    delayacct_blkio_ticks = p.seconds delayacct_blkio_ticks tick;
    guest_time = p.seconds guest_time tick;
    cguest_time = cguest_time;
    exit_code = exit_code;
  })

unfoldable pub parse : Platform → String → Exec ProcStat
unfolding read_columns
parse p text = bind_exec (expect (split_once b' ' text)) λ (pid_text, after_pid).
    bind_exec (expect (parse_i32 pid_text)) λ pid.
      bind_exec (expect (split_once b'(' after_pid)) λ (_, after_open).
        bind_exec (expect (split_once b')' after_open)) λ (comm, columns).
          bind_exec (read_columns p pid comm (split b' ' (trim columns))) λ (stat, _). done stat

unfoldable pub load : Platform → ℤ → Exec (Result IoError ProcStat)
unfolding parse
load p pid = elim (p.read_to_string (cat "/proc/" (cat (show_ℤ pid) "/stat"))) [
  | err e ↦ done (err e)
  | ok text ↦ bind_exec (parse p text) λ stat. done (ok stat)
]

abbrev pub ok_or_none {ℓ} : {A : Type ℓ} → Result IoError A → Option A
ok_or_none (ok a) = some a
ok_or_none (err e) = none

-- The error goes to the log.
unfoldable pub load_or_log : Platform → ℤ → Exec (Option ProcStat)
unfolding load
load_or_log p pid = bind_exec (load p pid) λ result. done (ok_or_none result)

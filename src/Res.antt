-- ===== src/Res.antt =====
-- src/res.rs: results. A time in seconds, an `f64`, is a number of nanoseconds; a `DateTime` is shown
-- by the platform, as are lossy UTF-8 and base64 text. The macros that take a wait status apart are
-- those of the C library.
pub mod Laws
use procstar.Prelude.{
  ℕ, ◌+◌, ◌*◌, Bool, true, false, String, List, Option, none, some, ℤ, pos, negsuc, Exec, done,
  panicked, if◌then◌else◌, BTreeMap, ◌%◌, ◌-◌,
}
use procstar.Io.{Bytes}
use procstar.Sig.{Signum, get_abbrev}
use procstar.State
use procstar.Spec.{CaptureEncoding, utf8, FdName, ProcId}
use procstar.Procinfo.{ProcStat, ProcStatm}
use procstar.Cgroup.{CgroupAccounting}

-- `libc::WIFEXITED` and its companions.
pub record WaitMacros : Type 0 where
  pub wifexited : ℤ → Bool
  pub wexitstatus : ℤ → ℤ
  pub wtermsig : ℤ → ℤ
  pub wcoredump : ℤ → Bool

-- `libc::rusage`, with the fields that the code reads; a `timeval` is its seconds and microseconds.
pub record Rusage : Type 0 where
  pub ru_utime : ℕ × ℕ
  pub ru_stime : ℕ × ℕ
  pub ru_maxrss : ℤ
  pub ru_minflt : ℤ
  pub ru_majflt : ℤ
  pub ru_nswap : ℤ
  pub ru_inblock : ℤ
  pub ru_oublock : ℤ
  pub ru_nvcsw : ℤ
  pub ru_nivcsw : ℤ

-- `as u64`.
abbrev pub as_u64 : ℤ → ℕ
as_u64 (pos n) = n
as_u64 (negsuc n) = 18446744073709551615 - n

pub record ResourceUsage : Type 0 where
  pub utime : ℕ
  pub stime : ℕ
  pub maxrss : ℕ
  pub minflt : ℕ
  pub majflt : ℕ
  pub nswap : ℕ
  pub inblock : ℕ
  pub oublock : ℕ
  pub nvcsw : ℕ
  pub nivcsw : ℕ

unfoldable pub time_to_sec : ℕ × ℕ → ℕ
time_to_sec (tv_sec, tv_usec) = tv_sec * 1000000000 + tv_usec * 1000

-- The product wraps at 2^64, as in a release build.
unfoldable pub new_usage : Rusage → ResourceUsage
unfolding time_to_sec
new_usage r = record {
  utime = time_to_sec r.ru_utime;
  stime = time_to_sec r.ru_stime;
  maxrss = as_u64 r.ru_maxrss * 1024 % 18446744073709551616;
  minflt = as_u64 r.ru_minflt;
  majflt = as_u64 r.ru_majflt;
  nswap = as_u64 r.ru_nswap;
  inblock = as_u64 r.ru_inblock;
  oublock = as_u64 r.ru_oublock;
  nvcsw = as_u64 r.ru_nvcsw;
  nivcsw = as_u64 r.ru_nivcsw;
}

pub data FdRes : Type 0 where
  error : FdRes
  file : (path : String) → FdRes
  detached : (length : ℤ) (encoding : String) → FdRes
  text : (text : String) (encoding : String) → FdRes
  encoded : (payload : String) (encoding : String) → FdRes

-- `String::from_utf8_lossy`, and the standard engine of the base64 crate.
pub record Codec : Type 0 where
  pub from_utf8_lossy : Bytes → String
  pub base64 : Bytes → String

unfoldable pub from_bytes : Codec → Option CaptureEncoding → Bytes → FdRes
from_bytes codec (some utf8) buffer = FdRes.text (codec.from_utf8_lossy buffer) "utf-8"
from_bytes codec none buffer = FdRes.encoded (codec.base64 buffer) "base64"

unfoldable pub new_detached : ℤ → Option CaptureEncoding → FdRes
new_detached length (some utf8) = FdRes.detached length "utf-8"
new_detached length none = FdRes.detached length "base64"

pub record Status : Type 0 where
  pub status : ℤ
  pub exit_code : Option ℤ
  pub signum : Option ℤ
  pub signal : Option String
  pub core_dump : Bool

-- `sig::get_abbrev(s).unwrap()` panics on a signal that has no name.
abbrev pub signalled : ℤ → ℤ → Bool → Option String → Exec Status
signalled status s core_dump none = panicked
signalled status s core_dump (some name) = done (record {
  status = status;
  exit_code = none;
  signum = some s;
  signal = some name;
  core_dump = core_dump;
})

abbrev pub exited : ℤ → ℤ → Status
exited status code = record {
  status = status;
  exit_code = some code;
  signum = none;
  signal = none;
  core_dump = false;
}

unfoldable pub new_status : WaitMacros → ℤ → Exec Status
new_status m status =
    if m.wifexited status
    then done (exited status (m.wexitstatus status))
    else signalled status (m.wtermsig status) (m.wcoredump status) (get_abbrev (m.wtermsig status))

pub record Times : Type 0 where
  pub start : String
  pub now : String
  pub stop : Option String
  pub elapsed : ℕ

pub record ProcRes : Type 0 where
  pub state : State.State
  pub errors : List String
  pub pid : ℤ
  pub proc_stat : Option ProcStat
  pub proc_statm : Option ProcStatm
  pub cgroup_accounting : Option CgroupAccounting
  pub systemd_enabled : Bool
  pub scope_result : Option String
  pub cleanup_incomplete : Bool
  pub times : Times
  pub status : Option Status
  pub rusage : Option ResourceUsage
  pub fds : BTreeMap FdName (Option FdRes)

abbrev pub Res : Type 0
Res = BTreeMap ProcId ProcRes

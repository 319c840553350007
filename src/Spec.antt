-- ===== src/Spec.antt =====
-- src/spec.rs: the declarative specification of processes. A `serde` attribute only says how JSON is
-- read into these types, so it has no counterpart here; the payload of an error from another crate is
-- the text that it displays, which is all that the code reads of it.
pub mod Fds
pub mod Validate
pub mod Wired
pub mod Matching
pub mod Matched
pub mod Laws
pub mod Properties
pub mod Load
use Prim.Native.String.{◌++◌}
use procstar.Io.{IoError}
use procstar.Prelude.{ℕ, Bool, String, List, Option, ℤ, BTreeMap}

abbrev pub ProcId : Type 0
ProcId = String

abbrev pub FdName : Type 0
FdName = String

-- `RawFd`, an `i32`.
abbrev pub RawFd : Type 0
RawFd = ℤ

pub data Error : Type 0 where
  bad_fd : String → Error
  duplicate_fd : FdName → Error
  duplicate_proc_id : ProcId → Error
  io : IoError → Error
  json : String → Error
  unmatched_read_fd : ProcId → FdName → Error
  unmatched_write_fd : ProcId → FdName → Error

-- `fmt::Display for Error`.
unfoldable pub display_error : Error → String
display_error (bad_fd name) = "bad fd: " ++ name
display_error (duplicate_fd fd) = "duplicate fd: " ++ fd
display_error (io e) = e.text
display_error (json e) = e
display_error (duplicate_proc_id proc_id) = "duplicate proc id: " ++ proc_id
display_error (unmatched_read_fd proc_id fd) = "unmatched read pipe: " ++ proc_id ++ " " ++ fd
display_error (unmatched_write_fd proc_id fd) = "unmatched write pipe: " ++ proc_id ++ " " ++ fd

pub data EnvInherit : Type 0 where
  none : EnvInherit
  all : EnvInherit
  vars : List String → EnvInherit

pub record Env : Type 0 where
  pub inherit : EnvInherit
  pub vars : BTreeMap String (Option String)

pub data OpenFlag : Type 0 where
  default read write create replace create_append append read_write : OpenFlag

pub data CaptureMode : Type 0 where
  temp_file memory : CaptureMode

pub data CaptureEncoding : Type 0 where
  utf8 : CaptureEncoding

-- The mode of a file is a `c_int`.
pub data Fd : Type 0 where
  inherit : Fd
  close : Fd
  null : (flags : OpenFlag) → Fd
  file : (path : String) (flags : OpenFlag) (mode : ℤ) → Fd
  dup : (fd : RawFd) → Fd
  capture : (mode : CaptureMode) (encoding : Option CaptureEncoding) (attached : Bool) → Fd
  pipe_write : Fd
  pipe_read : (proc_id : ProcId) (fd : FdName) → Fd

pub data OomPolicy : Type 0 where
  continue stop kill : OomPolicy

-- The `u64` fields are natural numbers.
pub record Scope : Type 0 where
  pub oom_policy : Option OomPolicy
  pub runtime_max_usec : Option ℕ
  pub runtime_randomized_extra_usec : Option ℕ

pub record Slice : Type 0 where
  pub memory_accounting : Option Bool
  pub memory_min : Option ℕ
  pub memory_low : Option ℕ
  pub memory_high : Option ℕ
  pub memory_max : Option ℕ
  pub memory_swap_max : Option ℕ
  pub tasks_accounting : Option Bool
  pub tasks_max : Option ℕ

pub record SystemdProperties : Type 0 where
  pub scope : Scope
  pub slice : Slice

pub record Proc : Type 0 where
  pub id : Option String
  pub exe : Option String
  pub argv : List String
  pub env : Env
  pub fds : List (FdName × Fd)
  pub systemd_properties : SystemdProperties

abbrev pub Procs : Type 0
Procs = BTreeMap ProcId Proc

pub record Input : Type 0 where
  pub specs : Procs

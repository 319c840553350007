-- ===== src/Fd.antt =====
-- src/fd.rs: the handling of the file descriptors of a process. A handler is shared only with the task
-- that drains its pipe, so it stands by value in its process. System calls answer through `FdOs` and
-- `Files`; the flags of `open` are those of the C library.
pub mod Pipes
pub mod Handlers
pub mod Child
pub mod Capture
pub mod Paired
pub mod Balanced
pub mod Wiring
pub mod Descriptors
pub mod Wired
use procstar.Prelude.{
  ℕ, ◌+◌, ◌-◌, ◌<◌, Bool, true, false, String, List, [], ◌∷◌, ◌++◌, Option, none, some, ℤ, pos,
  Result, ok, err, Exec, done, panicked, and_then, bind_exec, map_err, length, take, drop, ltb, leb,
  if◌then◌else◌, ◌||◌, zero, suc,
}
use procstar.Io.{IoError, Bytes}
use procstar.Spec
use procstar.Spec.{ProcId, FdName, RawFd, CaptureEncoding, OpenFlag}
use procstar.Spec.Fds.{parse_fd}
use procstar.Err
use procstar.Res.{FdRes, Codec, from_bytes, new_detached}

-- `libc::O_RDONLY` and its companions, with their union.
pub record OpenFlags : Type 0 where
  pub o_rdonly : ℤ
  pub o_wronly : ℤ
  pub o_rdwr : ℤ
  pub o_creat : ℤ
  pub o_trunc : ℤ
  pub o_excl : ℤ
  pub o_append : ℤ
  pub union : ℤ → ℤ → ℤ

module _ (f : OpenFlags) where
  open f use {o_rdonly, o_wronly, o_rdwr, o_creat, o_trunc, o_excl, o_append, union}

  unfoldable pub default_oflags : RawFd → ℤ
  default_oflags (pos zero) = o_rdonly
  default_oflags (pos (suc zero)) = union (union o_wronly o_creat) o_trunc
  default_oflags (pos (suc (suc zero))) = union (union o_wronly o_creat) o_trunc
  default_oflags _ = union (union o_rdwr o_creat) o_trunc

  unfoldable pub get_oflags : OpenFlag → RawFd → ℤ
  unfolding default_oflags
  get_oflags OpenFlag.default fd = default_oflags fd
  get_oflags OpenFlag.read fd = o_rdonly
  get_oflags OpenFlag.write fd = union (union o_wronly o_creat) o_trunc
  get_oflags OpenFlag.create fd = union (union o_wronly o_creat) o_excl
  get_oflags OpenFlag.replace fd = union o_wronly o_trunc
  get_oflags OpenFlag.append fd = union o_wronly o_append
  get_oflags OpenFlag.create_append fd = union (union o_wronly o_creat) o_append
  get_oflags OpenFlag.read_write fd = union (union o_rdwr o_creat) o_trunc

pub record FdData : Type 0 where
  pub payload : Bytes
  pub encoding : Option CaptureEncoding

abbrev pub empty_data : FdData
empty_data = record { payload = []; encoding = none }

pub data FdHandler : Type 0 where
  inherit : FdHandler
  error : (err : Err.Error) → FdHandler
  close : (fd : RawFd) → FdHandler
  dup : (fd dup_fd : RawFd) → FdHandler
  unmanaged_file : (fd : RawFd) (path : String) (oflags mode : ℤ) → FdHandler
  unlinked_file :
      (fd file_fd : RawFd) (encoding : Option CaptureEncoding) (attached : Bool) → FdHandler
  capture_memory :
      (fd read_fd write_fd : RawFd) (encoding : Option CaptureEncoding) (buf : Bytes)
      (attached : Bool)
      → FdHandler
  pipe_write : (fd pipe_write_fd : RawFd) → FdHandler
  pipe_read : (fd pipe_read_fd : RawFd) → FdHandler

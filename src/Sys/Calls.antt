-- ===== src/Sys/Calls.antt =====
-- The wrappers of single system calls of src/sys.rs. What the C library returns is an argument, and so is
-- the error that `last_os_error` reads after a call that fails; an assertion that fails, and a return
-- value that is not expected, is a panic.
use Prim.Native.String.{◌++◌ as cat}
use Prim.Native.Char.{code}
use procstar.Prelude.{
  ℕ, zero, suc, Bool, false, String, List, [], ◌∷◌, Option, none, some, ℤ, pos, negsuc, Result, ok,
  err, Exec, done, panicked, bind_exec, same, int_key, unwrap_or, ◌==◌, ◌||◌, if◌then◌else◌, str_eq,
  map,
}
use procstar.Prelude.Decimal.{show_ℤ}
use procstar.Io.{IoError, ErrorKind, Bytes}
use procstar.Spec.{RawFd}
use procstar.Fd.Pipes.{PipeResult}
use procstar.Procs.Proc.{WaitInfo}
use procstar.Sys.Wait.{Answer}

-- A text with a nul in it is no C string.
unfoldable pub has_nul : String → Bool
has_nul String.[] = false
has_nul (String.◌∷◌ c s) = code c == 0 || has_nul s

-- `CString::new(s).unwrap()`.
unfoldable pub c_string : String → Exec String
unfolding has_nul
c_string s = if has_nul s then panicked else done s

-- `CStringVec::from`.
unfoldable pub c_string_vec : List String → Exec (List String)
unfolding c_string
c_string_vec [] = done []
c_string_vec (s ∷ strings) =
    bind_exec (c_string s) λ c. bind_exec (c_string_vec strings) λ cs. done (c ∷ cs)

module _ (last_os_error : IoError) where
  -- A call that returns 0, or -1.
  abbrev pub zero_or_error : ℤ → Exec (Result IoError (Unit {0}))
  zero_or_error (pos zero) = done (ok tt)
  zero_or_error (pos (suc n)) = panicked
  zero_or_error (negsuc zero) = done (err last_os_error)
  zero_or_error (negsuc (suc n)) = panicked

  -- A call that returns a number, or -1.
  abbrev pub number_or_error : ℤ → Exec (Result IoError ℤ)
  number_or_error (pos n) = done (ok (pos n))
  number_or_error (negsuc zero) = done (err last_os_error)
  number_or_error (negsuc (suc n)) = panicked

  -- A call whose only error is -1; any other value is its result.
  abbrev pub any_or_error : ℤ → Result IoError ℤ
  any_or_error (pos n) = ok (pos n)
  any_or_error (negsuc zero) = err last_os_error
  any_or_error (negsuc (suc n)) = ok (negsuc (suc n))

  unfoldable pub close : ℤ → Exec (Result IoError (Unit {0}))
  close res = zero_or_error res

  unfoldable pub dup2 : RawFd → ℤ → Exec (Result IoError (Unit {0}))
  dup2 fd2 (negsuc zero) = done (err last_os_error)
  dup2 fd2 res = if same res fd2 then done (ok tt) else panicked

  -- `assert!(res == -1)`: it returns only where it fails.
  abbrev pub only_fails : ℤ → Exec (Result IoError (Unit {0}))
  only_fails (negsuc zero) = done (err last_os_error)
  only_fails res = panicked

  abbrev pub assignment : String × String → String
  assignment (n, v) = cat n (cat "=" v)

  -- What the system does with an executable, its arguments and its environment, if it returns.
  unfoldable pub execve :
      (String → List String → List String → ℤ)
      → String
      → List String
      → List (String × String)
      → Exec (Result IoError (Unit {0}))
  unfolding c_string c_string_vec
  execve call exe args env = bind_exec (c_string exe) λ c_exe.
      bind_exec (c_string_vec args) λ c_args.
        bind_exec (c_string_vec (map assignment env)) λ c_env. only_fails (call c_exe c_args c_env)

  unfoldable pub fork : ℤ → Exec (Result IoError ℤ)
  fork child_pid = number_or_error child_pid

  unfoldable pub setsid : ℤ → Result IoError ℤ
  setsid pgid = any_or_error pgid

  -- The path that `mkstemp` has made of its template.
  abbrev pub with_path : String → Result IoError ℤ → Result IoError (String × RawFd)
  with_path path (ok fd) = ok (path, fd)
  with_path path (err e) = err e

  unfoldable pub mkstemp : (String → ℤ × String) → String → Exec (Result IoError (String × RawFd))
  unfolding has_nul
  mkstemp call template =
      if has_nul template
      then done
          (err (record { kind = ErrorKind.other; text = "data provided contains a nul byte" }))
      else let (fd, path) = call template in
        bind_exec (number_or_error fd) λ r. done (with_path path r)

  unfoldable pub open_file : (String → ℤ) → String → Exec (Result IoError RawFd)
  unfolding c_string
  open_file call path = bind_exec (c_string path) λ c_path. number_or_error (call c_path)

  -- The two descriptors that the call has written.
  unfoldable pub pipe : RawFd × RawFd → ℤ → Exec PipeResult
  pipe fildes (pos zero) = done (ok (record { read = fildes.0; write = fildes.1 }))
  pipe fildes (pos (suc n)) = panicked
  pipe fildes (negsuc zero) = done (err last_os_error)
  pipe fildes (negsuc (suc n)) = panicked

  unfoldable pub read : ℤ → Exec (Result IoError ℤ)
  read ret = number_or_error ret

  unfoldable pub write : ℤ → Exec (Result IoError ℤ)
  write ret = number_or_error ret

  -- What the call has stored, if it returned 0.
  unfoldable pub fstat {ℓ} : {A : Type ℓ} → A → ℤ → Exec (Result IoError A)
  fstat stat (pos zero) = done (ok stat)
  fstat stat (pos (suc n)) = panicked
  fstat stat (negsuc zero) = done (err last_os_error)
  fstat stat (negsuc (suc n)) = panicked

  -- `wait4`: `info` is what the call has stored, with the pid that it returned.
  unfoldable pub wait4 : (ℤ → WaitInfo) → ℤ → Answer
  wait4 info (negsuc zero) = err last_os_error
  wait4 info (pos zero) = ok none
  wait4 info child_pid = ok (some (info child_pid))

  unfoldable pub fcntl_getfd : ℤ → Result IoError ℤ
  fcntl_getfd flags = any_or_error flags

  unfoldable pub fcntl_setfd : ℤ → Result IoError (Unit {0})
  fcntl_setfd (negsuc zero) = err last_os_error
  fcntl_setfd ret = ok tt

  -- `errno` is the number of the last error; 3 is ESRCH.
  unfoldable pub kill : ℕ → ℤ → Exec (Result IoError (Unit {0}))
  kill errno (negsuc zero) = done (
      err (
        if errno == 3
        then record { kind = ErrorKind.not_found; text = "No process or process group" }
        else last_os_error))
  kill errno (pos zero) = done (ok tt)
  kill errno ret = panicked

  unfoldable pub get_clk_tck : ℤ → Result IoError ℤ
  get_clk_tck val = any_or_error val

-- The user's name, if the system knows it.
unfoldable pub get_username_safe : Option String → ℤ → String
get_username_safe username euid = unwrap_or username (show_ℤ euid)

unfoldable pub getenv : String → List (String × String) → Option String
getenv name [] = none
getenv name ((n, v) ∷ vars) = if str_eq n name then some v else getenv name vars

-- The bytes before the first 0; without one, `position(..).unwrap()` panics.
unfoldable pub before_nul : Bytes → Exec Bytes
before_nul [] = panicked
before_nul (c ∷ buffer) =
    let rest = bind_exec (before_nul buffer) λ bytes. done (c ∷ bytes) in
    if c == 0 then done [] else rest

abbrev pub or_panic {ℓ} : {A : Type ℓ} → Option A → Exec A
or_panic none = panicked
or_panic (some a) = done a

-- The buffer of 64 bytes as the call has left it; any return value but 0 is a panic, and so is a name that
-- `from_utf8` does not take.
unfoldable pub get_hostname : (Bytes → Option String) → Bytes → ℤ → Exec String
unfolding before_nul
get_hostname from_utf8 buffer (pos zero) =
    bind_exec (before_nul buffer) λ name. or_panic (from_utf8 name)
get_hostname from_utf8 buffer ret = panicked

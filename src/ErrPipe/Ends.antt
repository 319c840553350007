-- ===== src/ErrPipe/Ends.antt =====
-- The two ends of the error pipe of src/err_pipe.rs: its making, and what the parent and the child keep of
-- it.
use procstar.Prelude.{
  ◌≡◌, refl, ap, ◌∙◌, inl, inr, String, List, ℤ, Result, ok, err, Exec, done, panicked, same,
  same→eq, int_key, Bool-cases,
}
use procstar.Io.{IoError, Bytes}
use procstar.Err
use procstar.Spec.{RawFd}
use procstar.Fd.Pipes.{RwPair, PipeResult}
use procstar.Sys.Cloexec.{set_cloexec, set_cloexec-Marks, Stores, IsMarked, Marks}
use procstar.ErrPipe.{Pipe, get_errors}

pub record ErrorPipe : Type 0 where
  pub read_fd : RawFd
  pub write_fd : RawFd

pub record ErrorWriter : Type 0 where
  pub write_fd : RawFd

-- `.unwrap()` of the closing of an end.
abbrev pub unwrap_closed {ℓ} : {A : Type ℓ} → Result IoError (Unit {0}) → A → Exec A
unwrap_closed (ok _) a = done a
unwrap_closed (err e) a = panicked

-- In the child: closes the read end.
unfoldable pub in_child : (RawFd → Result IoError (Unit {0})) → ErrorPipe → Exec ErrorWriter
in_child sys_close pipe =
    unwrap_closed (sys_close pipe.read_fd) (record { write_fd = pipe.write_fd })

-- In the parent: closes the write end, and reads up to the end. `bytes` is what comes from a read end.
unfoldable pub in_parent :
    (Bytes → String)
    → String
    → (RawFd → Result IoError (Unit {0}))
    → (RawFd → Pipe)
    → ErrorPipe
    → Exec (List String)
in_parent from_utf8_lossy eof_text sys_close bytes pipe =
    unwrap_closed (sys_close pipe.write_fd)
      (get_errors from_utf8_lossy eof_text (bytes pipe.read_fd))

pipe_inj : {p q : ErrorPipe} → ◌≡◌ {A = Result Err.Error ErrorPipe} (ok p) (ok q) → p ≡ q
pipe_inj e = cc

module _ {K : Type 0} (last_os_error : IoError) (getfd : K → RawFd → ℤ)
    (setfd : K → RawFd → ℤ → ℤ × K) where
  -- `?` on a system call.
  abbrev pub next_call :
      {A : Type 0}
      → Result IoError (Unit {0}) × K
      → (K → Result Err.Error A × K)
      → Result Err.Error A × K
  next_call (ok _, k) f = f k
  next_call (err e, k) f = (err (Err.Error.io e), k)

  abbrev pub marked : K → RwPair RawFd → Result Err.Error ErrorPipe × K
  marked k fds = next_call (set_cloexec last_os_error getfd setfd k fds.read) λ k1.
      next_call (set_cloexec last_os_error getfd setfd k1 fds.write)
        λ k2. (ok (record { read_fd = fds.read; write_fd = fds.write }), k2)

  -- `ErrorPipe::new`, from the answer of `sys::pipe()`.
  unfoldable pub new : K → PipeResult → Result Err.Error ErrorPipe × K
  new k (err e) = (err (Err.Error.io e), k)
  new k (ok fds) = marked k fds

  next_call-ok :
      {A : Type 0} (answer : Result IoError (Unit {0}) × K) (f : K → Result Err.Error A × K) {a : A}
      {after : K}
      → next_call answer f ≡ (ok a, after)
      → (answer ≡ (ok tt, answer.1)) × (f answer.1 ≡ (ok a, after))
  next_call-ok (ok _, k) f e = (refl, e)
  next_call-ok (err _, k) f e = cc (ap (λ r. r.0) e)

  -- A mark that has been set is not lost when that of a second descriptor is set.
  Marks-keeps :
      (k after : K) (fd other : RawFd)
      → IsMarked last_os_error getfd setfd k fd
      → Marks last_os_error getfd setfd k after other
      → IsMarked last_os_error getfd setfd after fd
  Marks-keeps k after fd other (n, flags, odd) (mark, rest) = elim (Bool-cases (same other fd)) [
    | inl e ↦ rw (← same→eq other fd e) mark
    | inr e ↦ (n, rest fd e ∙ flags, odd)
  ]

  -- If an error pipe is made, then both of its ends are closed on exec, if the system
  -- stores the flags of descriptors as it documents.
  pub new-IsMarked :
      (k after : K) (answer : PipeResult) (pipe : ErrorPipe)
      → Stores last_os_error getfd setfd
      → new k answer ≡ (ok pipe, after)
      → IsMarked last_os_error getfd setfd after pipe.read_fd
        × IsMarked last_os_error getfd setfd after pipe.write_fd
  unfolding new
  new-IsMarked k after (err e) pipe stores h = cc (ap (λ r. r.0) h)
  new-IsMarked k after (ok fds) pipe stores h =
      let first = set_cloexec last_os_error getfd setfd k fds.read in
      let (e1, h1) = next_call-ok first _ h in
      let second = set_cloexec last_os_error getfd setfd first.1 fds.write in
      let (e2, h2) = next_call-ok second _ h1 in
      let m1 = set_cloexec-Marks last_os_error getfd setfd k first.1 fds.read stores e1 in
      let m2 = set_cloexec-Marks last_os_error getfd setfd first.1 second.1 fds.write stores e2 in
      let at : second.1 ≡ after = ap (λ r. r.1) h2 in
      let made = pipe_inj (ap (λ r. r.0) h2) in
      rw (← at, ← ap (λ p. p.read_fd) made, ← ap (λ p. p.write_fd) made)
        (Marks-keeps first.1 second.1 fds.read fds.write m1.0 m2, m2.0)

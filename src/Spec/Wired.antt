-- ===== src/Spec/Wired.antt =====
-- When the descriptors of a set of specs are well wired, described with no sets and no errors: the
-- contract of `validate_procs_fds` of src/spec.rs.
use procstar.Prelude.{
  ◌+◌, ◌≤◌, ◌≡◌, Bool, true, false, List, [], ◌∷◌, ◌++◌, ok, Key, count, All, pair_key, int_key,
  arith,
}
use procstar.Spec.{ProcId, FdName, RawFd, Fd, pipe_write, pipe_read, Proc, Procs}
use procstar.Spec.Fds.{parse_fd}
use procstar.Spec.Validate.{PipeFds, is_pipe_write}

-- Every key stands at most once.
abbrev pub Distinct : {K : Type 0} ⦃k : Key K⦄ → List K → Type 0
Distinct {K} xs = (a : K) → count a xs ≤ 1

abbrev pub is_pipe_read : Fd → Bool
is_pipe_read (pipe_read _ _) = true
is_pipe_read _ = false

-- The descriptors that a proc names.
pub data Names : List (FdName × Fd) → List RawFd → Type 0 where
  nil : Names [] []
  cons :
      {name : FdName} {fd : Fd} {fds : List (FdName × Fd)} {n : RawFd} {ns : List RawFd}
      → parse_fd name ≡ ok n
      → Names fds ns
      → Names ((name, fd) ∷ fds) (n ∷ ns)

-- The write ends of pipes among the descriptors of the proc `id`.
pub data Writes (id : ProcId) : List (FdName × Fd) → PipeFds → Type 0 where
  nil : Writes id [] []
  write :
      {name : FdName} {fds : List (FdName × Fd)} {n : RawFd} {ks : PipeFds}
      → parse_fd name ≡ ok n
      → Writes id fds ks
      → Writes id ((name, pipe_write) ∷ fds) ((id, n) ∷ ks)
  skip :
      {name : FdName} {fd : Fd} {fds : List (FdName × Fd)} {ks : PipeFds}
      → is_pipe_write fd ≡ false
      → Writes id fds ks
      → Writes id ((name, fd) ∷ fds) ks

-- The write ends that the read ends of a proc ask for.
pub data Reads : List (FdName × Fd) → PipeFds → Type 0 where
  nil : Reads [] []
  read :
      {own : FdName} {id : ProcId} {name : FdName} {fds : List (FdName × Fd)} {n : RawFd}
      {ks : PipeFds}
      → parse_fd name ≡ ok n
      → Reads fds ks
      → Reads ((own, pipe_read id name) ∷ fds) ((id, n) ∷ ks)
  skip :
      {name : FdName} {fd : Fd} {fds : List (FdName × Fd)} {ks : PipeFds}
      → is_pipe_read fd ≡ false
      → Reads fds ks
      → Reads ((name, fd) ∷ fds) ks

pub data AllWrites : Procs → PipeFds → Type 0 where
  nil : AllWrites [] []
  cons :
      {id : ProcId} {proc : Proc} {procs : Procs} {ks ls all : PipeFds}
      → Writes id proc.fds ks
      → AllWrites procs ls
      → all ≡ ks ++ ls
      → AllWrites ((id, proc) ∷ procs) all

pub data AllReads : Procs → PipeFds → Type 0 where
  nil : AllReads [] []
  cons :
      {id : ProcId} {proc : Proc} {procs : Procs} {ks ls all : PipeFds}
      → Reads proc.fds ks
      → AllReads procs ls
      → all ≡ ks ++ ls
      → AllReads ((id, proc) ∷ procs) all

-- The names of a proc's descriptors are all read, as distinct descriptors.
pub record HasDistinctFds (fds : List (FdName × Fd)) : Type 0 where
  pub numbers : List RawFd
  pub parsed : Names fds numbers
  pub distinct : Distinct numbers

-- Besides, every pipe is read as often as it is written.
pub record IsWired (procs : Procs) : Type 0 where
  pub fds : All (λ p. HasDistinctFds p.1.fds) procs
  pub writes : PipeFds
  pub written : AllWrites procs writes
  pub reads : PipeFds
  pub read : AllReads procs reads
  pub matched : (key : ProcId × RawFd) → count key reads ≡ count key writes

pub count-append :
    {K : Type 0} ⦃k : Key K⦄ (a : K) (xs ys : List K) → count a (xs ++ ys) ≡ count a xs + count a ys
count-append a [] ys = omega arith
count-append a (x ∷ xs) ys = omega (arith, count-append a xs ys)

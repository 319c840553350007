-- ===== src/Fd/Wiring.antt =====
-- `make_fd_handlers` of src/fd.rs and src/procs.rs, for a process of well-wired specs.
use procstar.Prelude.{ℕ, suc, ◌≡◌, refl, false, [], ◌∷◌, List, Result, ok, Exec, done, ◌++◌}
use procstar.Spec
use procstar.Spec.{ProcId, FdName, RawFd}
use procstar.Spec.Validate.{PipeFds, is_pipe_write}
use procstar.Spec.Wired.{Names, Writes, Reads, is_pipe_read}
use procstar.Fd.{FdHandler, OpenFlags}
use procstar.Fd.Pipes.{RwPair, Pipes}
use procstar.Fd.Handlers.{FdOs, or_error, new, make_fd_handler, make_fd_handlers}
use procstar.Fd.Balanced.{IsBalanced, get_write_fd-Took, get_read_fd-Took}

-- The system makes every pipe that it is asked for.
abbrev pub MakesPipes : (ℕ → FdOs) → Type 0
MakesPipes os = (i : ℕ) → (pipe : RwPair RawFd) × ((os i).pipe ≡ ok pipe)

-- A descriptor that is no end of a pipe leaves the pipes alone.
new_plain :
    (f : OpenFlags) (os : FdOs) (pipes : Pipes) (id : ProcId) (n : RawFd) (fd : Spec.Fd)
    → is_pipe_write fd ≡ false
    → is_pipe_read fd ≡ false
    → (made : Result _ FdHandler) × (new f os pipes id n fd ≡ done (made, pipes))
unfolding new
new_plain f os pipes id n (Spec.Fd.capture Spec.temp_file encoding attached) w r = (_, refl)
new_plain f os pipes id n (Spec.Fd.capture Spec.memory encoding attached) w r = (_, refl)
new_plain f os pipes id n Spec.Fd.pipe_write w r = cc
new_plain f os pipes id n (Spec.Fd.pipe_read from name) w r = cc
new_plain f os pipes id n Spec.Fd.inherit w r = (_, refl)
new_plain f os pipes id n fd w r = (_, refl)

-- All handlers are made, and the ends of the process are taken.
abbrev pub Set : Exec (List (RawFd × FdHandler) × Pipes) → PipeFds → PipeFds → Type 0
Set outcome writes reads =
    (handlers : List (RawFd × FdHandler)) × (after : Pipes) × (outcome ≡ done (handlers, after))
    × IsBalanced after writes reads

-- One handler is made before the others.
make_fd_handlers-cons :
    (f : OpenFlags) (os : ℕ → FdOs) (i : ℕ) (pipes mid : Pipes) (id : ProcId) (name : FdName)
    (fd : Spec.Fd) (fds : List (FdName × Spec.Fd)) (handler : RawFd × FdHandler)
    (writes reads : PipeFds)
    → make_fd_handler f (os i) pipes id name fd ≡ done (handler, mid)
    → Set (make_fd_handlers f os (suc i) mid id fds) writes reads
    → Set (make_fd_handlers f os i pipes id ((name, fd) ∷ fds)) writes reads
unfolding make_fd_handlers
make_fd_handlers-cons f os i pipes mid id name fd fds handler writes reads e (hs, after, run, b) =
    (handler ∷ hs, after, rw (e, make_fd_handlers, run) refl, b)

-- Over pipes that await the ends of a process with those of others to come, its handlers are made, and
-- the pipes await those of the others.
pub make_fd_handlers-Set :
    (f : OpenFlags) (os : ℕ → FdOs) (i : ℕ) (pipes : Pipes) (id : ProcId)
    (fds : List (FdName × Spec.Fd)) (ns : List RawFd) (ks rs writes reads : PipeFds)
    → MakesPipes os
    → Names fds ns
    → Writes id fds ks
    → Reads fds rs
    → IsBalanced pipes (ks ++ writes) (rs ++ reads)
    → Set (make_fd_handlers f os i pipes id fds) writes reads
unfolding make_fd_handlers make_fd_handler new
make_fd_handlers-Set f os i pipes id [] ns ks rs writes reads makes Names.nil Writes.nil Reads.nil
      b =
    ([], pipes, refl, b)
make_fd_handlers-Set f os i pipes id (_ ∷ fds) ns ks rs writes reads makes
      (Names.cons {name = name} _ names) (Writes.write {n = n} {ks = ks'} parsed w) (Reads.skip _ r)
      b =
    let (pipe, made) = makes i in
    let (fd, mid, run, b') = get_write_fd-Took pipe pipes (id, n) (ks' ++ writes) (rs ++ reads) b in
    make_fd_handlers-cons f os i pipes mid id name Spec.Fd.pipe_write fds
      (n, FdHandler.pipe_write n fd) writes reads (rw (parsed, make_fd_handler, made, run) refl)
      (make_fd_handlers-Set f os (suc i) mid id fds _ ks' rs writes reads makes names w r b')
make_fd_handlers-Set f os i pipes id (_ ∷ fds) ns ks rs writes reads makes
      (Names.cons {name = own} {n = m} own_parsed names) (Writes.skip _ w)
      (Reads.read {id = from} {name = name} {n = n} {ks = rs'} parsed r) b =
    let (pipe, made) = makes i in
    let (fd, mid, run, b') =
      get_read_fd-Took pipe pipes (from, n) (ks ++ writes) (rs' ++ reads) b in
    make_fd_handlers-cons f os i pipes mid id own (Spec.Fd.pipe_read from name) fds
      (m, FdHandler.pipe_read m fd) writes reads
      (rw (own_parsed, make_fd_handler, parsed, made, run) refl)
      (make_fd_handlers-Set f os (suc i) mid id fds _ ks rs' writes reads makes names w r b')
make_fd_handlers-Set f os i pipes id (_ ∷ fds) ns ks rs writes reads makes
      (Names.cons {name = name} {fd = fd} {n = n} parsed names) (Writes.skip h w) (Reads.skip h' r)
      b =
    let (made, run) = new_plain f (os i) pipes id n fd h h' in
    make_fd_handlers-cons f os i pipes pipes id name fd fds (n, or_error made) writes reads
      (rw (parsed, make_fd_handler, run) refl)
      (make_fd_handlers-Set f os (suc i) pipes id fds _ ks rs writes reads makes names w r b)

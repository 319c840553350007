-- ===== src/Fd/Paired.antt =====
-- The two ends of a pipe between processes.
use procstar.Prelude.{
  ◌≡◌, refl, ◌∙◌, Option, none, some, Result, ok, Exec, done, bind_exec, get, insert, get-insert,
  pair_key, same, same_refl, false,
}
use procstar.Err
use procstar.Spec.{ProcId, RawFd}
use procstar.Fd.Pipes.{RwPair, Pipes, PipeResult, get_read_fd, get_write_fd}

-- The process that writes is set up first, or the one that reads.
abbrev pub write_then_read :
    PipeResult
    → PipeResult
    → Pipes
    → ProcId
    → RawFd
    → Exec ((Result Err.Error RawFd × Result Err.Error RawFd) × Pipes)
write_then_read first second pipes id fd =
    bind_exec (get_write_fd first pipes id fd)
      λ (w, pipes'). bind_exec (get_read_fd second pipes' id fd) λ (r, end). done ((w, r), end)

abbrev pub read_then_write :
    PipeResult
    → PipeResult
    → Pipes
    → ProcId
    → RawFd
    → Exec ((Result Err.Error RawFd × Result Err.Error RawFd) × Pipes)
read_then_write first second pipes id fd =
    bind_exec (get_read_fd first pipes id fd)
      λ (r, pipes'). bind_exec (get_write_fd second pipes' id fd) λ (w, end). done ((w, r), end)

abbrev pub spent : RwPair (Option RawFd)
spent = record { read = none; write = none }

-- Both ends of the pipe have been taken, and the other pipes are as they were.
pub record Paired (pipe : RwPair RawFd) (pipes : Pipes) (id : ProcId) (fd : RawFd)
    (outcome : Exec ((Result Err.Error RawFd × Result Err.Error RawFd) × Pipes)) : Type 0 where
  pub after : Pipes
  pub ends : outcome ≡ done ((ok pipe.write, ok pipe.read), after)
  pub taken : get {K = ProcId × RawFd} (id, fd) after ≡ some spent
  pub others :
      (other : ProcId × RawFd) → same (id, fd) other ≡ false → get other after ≡ get other pipes

module _ (pipe : RwPair RawFd) (second : PipeResult) (pipes : Pipes) (id : ProcId) (fd : RawFd)
    (fresh : get {K = ProcId × RawFd} (id, fd) pipes ≡ none) where
  -- The pipes after one end has been taken and the other is left.
  abbrev left : RwPair (Option RawFd) → Pipes
  left pair = insert {K = ProcId × RawFd} (id, fd) pair pipes

  left-get :
      (pair : RwPair (Option RawFd)) → get {K = ProcId × RawFd} (id, fd) (left pair) ≡ some pair
  left-get pair =
      get-insert {K = ProcId × RawFd} (id, fd) (id, fd) pair pipes
      ∙ rw (same_refl {K = ProcId × RawFd} (id, fd)) refl

  insert-Paired :
      (pair : RwPair (Option RawFd))
      (outcome : Exec ((Result Err.Error RawFd × Result Err.Error RawFd) × Pipes))
      → outcome
        ≡ done
            ((ok pipe.write, ok pipe.read), insert {K = ProcId × RawFd} (id, fd) spent (left pair))
      → Paired pipe pipes id fd outcome
  insert-Paired pair outcome e = record {
    after = insert {K = ProcId × RawFd} (id, fd) spent (left pair);
    ends = e;
    taken =
        get-insert {K = ProcId × RawFd} (id, fd) (id, fd) spent (left pair)
        ∙ rw (same_refl {K = ProcId × RawFd} (id, fd)) refl;
    others = λ other distinct.
        get-insert (id, fd) other spent (left pair)
        ∙ rw (distinct) (get-insert (id, fd) other pair pipes ∙ rw (distinct) refl);
  }

-- Whichever process is set up first, the two that a new pipe connects get its two ends, no second pipe
-- is made, both ends are then taken, and no other pipe is touched.
pub pipe-Paired :
    (pipe : RwPair RawFd) (second : PipeResult) (pipes : Pipes) (id : ProcId) (fd : RawFd)
    → get {K = ProcId × RawFd} (id, fd) pipes ≡ none
    → Paired pipe pipes id fd (write_then_read (ok pipe) second pipes id fd)
      × Paired pipe pipes id fd (read_then_write (ok pipe) second pipes id fd)
unfolding get_write_fd get_read_fd
pipe-Paired pipe second pipes id fd fresh = (
  insert-Paired pipe second pipes id fd fresh (record { read = some pipe.read; write = none }) _
      (rw
        (
          fresh,
          get_write_fd,
          left-get pipe second pipes id fd fresh (record { read = some pipe.read; write = none }),
          get_read_fd,
        )
        refl),
  insert-Paired pipe second pipes id fd fresh (record { read = none; write = some pipe.write }) _
      (rw
        (
          fresh,
          get_read_fd,
          left-get pipe second pipes id fd fresh (record { read = none; write = some pipe.write }),
          get_write_fd,
        )
        refl),
)

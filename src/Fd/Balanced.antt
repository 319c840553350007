-- ===== src/Fd/Balanced.antt =====
-- The ends of pipes that are still to be taken while the processes of a set of specs are set up: an
-- invariant of `Pipes` of src/fd.rs.
use procstar.Prelude.{
  ℕ, ◌+◌, ◌≤◌, ◌≡◌, refl, inl, inr, arith, false, [], ◌∷◌, Option, none, some, Result, ok, Exec,
  done, get, insert, get-insert, same, same→eq, same_refl, same_sym, count, pair_key, Bool-cases,
}
use procstar.Prelude.Sorted.{IsSorted, insert-IsSorted, get-Above}
use procstar.Io.{IoError}
use procstar.Err
use procstar.Spec.{ProcId, RawFd}
use procstar.Spec.Validate.{PipeFds}
use procstar.Fd.Pipes.{
  RwPair, Pipes, get_read_fd, get_write_fd, take_read, take_write, close_end, close, close_from,
}

-- An end that is left counts one.
abbrev pub left : Option RawFd → ℕ
left none = 0
left (some fd) = 1

-- A pipe in a state at which so many writers and readers are still to come.
abbrev pub Awaits : Option (RwPair (Option RawFd)) → ℕ → ℕ → Type 0
Awaits none w r = (w ≡ r) × (w ≤ 1)
Awaits (some pair) w r = (left pair.write ≡ w) × (left pair.read ≡ r)

-- Every pipe has the ends left that the processes to come will take.
pub record IsBalanced (pipes : Pipes) (writes reads : PipeFds) : Type 0 where
  pub sorted : IsSorted pipes
  pub awaits : (key : ProcId × RawFd) → Awaits (get key pipes) (count key writes) (count key reads)

-- At the start no pipe is there, and every one that is written is read.
pub nil-IsBalanced :
    (writes reads : PipeFds)
    → ((key : ProcId × RawFd) → (count key writes ≡ count key reads) × (count key writes ≤ 1))
    → IsBalanced [] writes reads
unfolding get
nil-IsBalanced writes reads h = record { sorted = tt; awaits = h }

insert-IsBalanced :
    (key : ProcId × RawFd) (pair : RwPair (Option RawFd)) (pipes : Pipes) (writes reads : PipeFds)
    → IsSorted pipes
    → Awaits (some pair) (count key writes) (count key reads)
    → ((other : ProcId × RawFd)
        → same key other ≡ false
        → Awaits (get other pipes) (count other writes) (count other reads))
    → IsBalanced (insert key pair pipes) writes reads
insert-IsBalanced key pair pipes writes reads s here there = record {
  sorted = insert-IsSorted key pair pipes s;
  awaits = λ other. elim (Bool-cases (same key other)) [
    | inl e ↦ let q = same→eq key other e in rw (get-insert key other pair pipes, e, ← q) here
    | inr e ↦ rw (get-insert key other pair pipes, e) (there other e)
  ];
}

-- A key is counted once at the head of a list, and any other is not.
count-head : (key : ProcId × RawFd) (keys : PipeFds) → count key (key ∷ keys) ≡ 1 + count key keys
count-head key keys = rw (same_refl key) refl

count-other :
    (key other : ProcId × RawFd) (keys : PipeFds)
    → same key other ≡ false
    → count other (key ∷ keys) ≡ count other keys
count-other key other keys h = rw (same_sym other key, h) (omega arith)

-- One end is taken by the process that is set up.
abbrev pub Took : Exec (Result Err.Error RawFd × Pipes) → PipeFds → PipeFds → Type 0
Took outcome writes reads =
    (fd : RawFd) × (after : Pipes) × (outcome ≡ done (ok fd, after)) × IsBalanced after writes reads

module _ (pipe : RwPair RawFd) (pipes : Pipes) (key : ProcId × RawFd) (writes reads : PipeFds) where
  take_write-Took :
      (pair : RwPair (Option RawFd)) (end : Option RawFd)
      → pair.write ≡ end
      → Awaits (some pair) (1 + count key writes) (count key reads)
      → IsBalanced pipes (key ∷ writes) reads
      → Took (take_write key pipes pair) writes reads
  take_write-Took pair none e a b = absurd (ground (arith, e, a))
  take_write-Took pair (some fd) e a b = (
    fd,
    insert key (record { read = pair.read; write = none }) pipes,
    rw e refl,
    insert-IsBalanced key _ pipes writes reads b.sorted (ground (arith, e, a))
        (λ other d. rw (← count-other key other writes d) (b.awaits other)),
  )

  get_write_fd_cases :
      (found : Option (RwPair (Option RawFd)))
      → get key pipes ≡ found
      → Awaits found (1 + count key writes) (count key reads)
      → IsBalanced pipes (key ∷ writes) reads
      → Took (get_write_fd (ok pipe) pipes key.0 key.1) writes reads
  unfolding get_write_fd
  get_write_fd_cases none found a b = (
    pipe.write,
    insert key (record { read = some pipe.read; write = none }) pipes,
    rw (found, get_write_fd) refl,
    insert-IsBalanced key _ pipes writes reads b.sorted (omega arith)
        (λ other d. rw (← count-other key other writes d) (b.awaits other)),
  )
  get_write_fd_cases (some pair) found a b =
      rw (found, get_write_fd) (take_write-Took pair pair.write refl a b)

  -- A process that writes to a pipe gets an end, and one writer fewer is to come.
  pub get_write_fd-Took :
      IsBalanced pipes (key ∷ writes) reads
      → Took (get_write_fd (ok pipe) pipes key.0 key.1) writes reads
  get_write_fd-Took b =
      get_write_fd_cases (get key pipes) refl (rw (← count-head key writes) (b.awaits key)) b

  take_read-Took :
      (pair : RwPair (Option RawFd)) (end : Option RawFd)
      → pair.read ≡ end
      → Awaits (some pair) (count key writes) (1 + count key reads)
      → IsBalanced pipes writes (key ∷ reads)
      → Took (take_read key pipes pair) writes reads
  take_read-Took pair none e a b = absurd (ground (arith, e, a))
  take_read-Took pair (some fd) e a b = (
    fd,
    insert key (record { read = none; write = pair.write }) pipes,
    rw e refl,
    insert-IsBalanced key _ pipes writes reads b.sorted (ground (arith, e, a))
        (λ other d. rw (← count-other key other reads d) (b.awaits other)),
  )

  get_read_fd_cases :
      (found : Option (RwPair (Option RawFd)))
      → get key pipes ≡ found
      → Awaits found (count key writes) (1 + count key reads)
      → IsBalanced pipes writes (key ∷ reads)
      → Took (get_read_fd (ok pipe) pipes key.0 key.1) writes reads
  unfolding get_read_fd
  get_read_fd_cases none found a b = (
    pipe.read,
    insert key (record { read = none; write = some pipe.write }) pipes,
    rw (found, get_read_fd) refl,
    insert-IsBalanced key _ pipes writes reads b.sorted (omega arith)
        (λ other d. rw (← count-other key other reads d) (b.awaits other)),
  )
  get_read_fd_cases (some pair) found a b =
      rw (found, get_read_fd) (take_read-Took pair pair.read refl a b)

  -- A process that reads from a pipe gets an end, and one reader fewer is to come.
  pub get_read_fd-Took :
      IsBalanced pipes writes (key ∷ reads)
      → Took (get_read_fd (ok pipe) pipes key.0 key.1) writes reads
  get_read_fd-Took b =
      get_read_fd_cases (get key pipes) refl (rw (← count-head key reads) (b.awaits key)) b

-- No end is left of a pipe that awaits no process.
close_end_spent :
    (sys_close : RawFd → Result IoError (Unit {0})) (end : Option RawFd) (n : ℕ)
    → left end ≡ 0
    → close_end sys_close end n ≡ ok n
close_end_spent sys_close none n h = refl
close_end_spent sys_close (some fd) n h = absurd (omega arith)

close_from_spent :
    (sys_close : RawFd → Result IoError (Unit {0})) (pipes : Pipes) (n : ℕ)
    → IsBalanced pipes [] []
    → close_from sys_close pipes n ≡ ok n
unfolding close_from get
close_from_spent sys_close [] n b = refl
close_from_spent sys_close ((key, pair) ∷ pipes) n b =
    let here : Awaits (some pair) 0 0 = ground (arith, b.awaits key, same_refl key) in
    rw
      (
        close_end_spent sys_close pair.read n here.1,
        close_end_spent sys_close pair.write n here.0,
        close_from,
      )
      (close_from_spent sys_close pipes n (record {
        sorted = b.sorted.1;
        awaits = λ other. elim (Bool-cases (same key other)) [
          | inl e ↦ rw (get-Above key other pipes b.sorted.0 e) (refl, omega arith)
          | inr e ↦ ground (arith, b.awaits other)
        ];
      }))

-- Once all processes have come no end is left to close.
pub close_balanced :
    (sys_close : RawFd → Result IoError (Unit {0})) (pipes : Pipes)
    → IsBalanced pipes [] []
    → close sys_close pipes ≡ ok 0
unfolding close
close_balanced sys_close pipes b = close_from_spent sys_close pipes 0 b

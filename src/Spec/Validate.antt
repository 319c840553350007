-- ===== src/Spec/Validate.antt =====
-- `validate_procs_fds` of src/spec.rs. A `HashSet` is the list of its members. The order in which a
-- `HashSet` is iterated is not specified, so `pick` chooses the member that is reported.
use mathlib.Core.Option
use procstar.Prelude.{
  Bool, true, false, bind_exec, try_exec, List, [], ◌∷◌, Option, none, some, Result, ok, err, Exec,
  done, panicked, and_then, if◌then◌else◌, same, contains, pair_key, int_key,
}
use procstar.Prelude.Decimal.{show_ℤ}
use procstar.Spec.{
  Error, duplicate_fd, unmatched_read_fd, unmatched_write_fd, ProcId, FdName, RawFd, Fd, pipe_write,
  pipe_read, Procs,
}
use procstar.Spec.Fds.{parse_fd}

abbrev pub PipeFds : Type 0
PipeFds = List (ProcId × RawFd)

-- The first loop, within one proc; `seen` is the set `fds`.
unfoldable pub check_fds : List RawFd → List (FdName × Fd) → Result Error (Unit {0})
check_fds seen [] = ok tt
check_fds seen ((fd_name, _) ∷ fds) =
    and_then (parse_fd fd_name)
      λ n. if contains seen n then err (duplicate_fd fd_name) else check_fds (n ∷ seen) fds

unfoldable pub check_procs : Procs → Result Error (Unit {0})
unfolding check_fds
check_procs [] = ok tt
check_procs ((_, proc) ∷ procs) = and_then (check_fds [] proc.fds) λ _. check_procs procs

-- Whether a descriptor is the write end of a pipe.
abbrev pub is_pipe_write : Fd → Bool
is_pipe_write pipe_write = true
is_pipe_write _ = false

-- `assert!(unmatched_pipes.insert(key))`.
unfoldable pub insert_new : ProcId × RawFd → PipeFds → Exec PipeFds
insert_new key pipes = if contains pipes key then panicked else done (key ∷ pipes)

-- The second loop: collects the write ends into `unmatched_pipes`.
unfoldable pub collect_fds : ProcId → PipeFds → List (FdName × Fd) → Exec (Result Error PipeFds)
unfolding insert_new
collect_fds proc_id pipes [] = done (ok pipes)
collect_fds proc_id pipes ((fd_name, fd) ∷ fds) =
    let skip = collect_fds proc_id pipes fds in
    let write =
      try_exec (done (parse_fd fd_name))
        λ n. bind_exec (insert_new (proc_id, n) pipes) λ pipes'. collect_fds proc_id pipes' fds in
    if is_pipe_write fd then write else skip

unfoldable pub collect_procs : PipeFds → Procs → Exec (Result Error PipeFds)
unfolding collect_fds
collect_procs pipes [] = done (ok pipes)
collect_procs pipes ((proc_id, proc) ∷ procs) =
    try_exec (collect_fds proc_id pipes proc.fds) λ pipes'. collect_procs pipes' procs

-- `unmatched_pipes.remove(&key)`: `none` where the key is not in the set.
unfoldable pub remove_key : ProcId × RawFd → PipeFds → Option PipeFds
remove_key key [] = none
remove_key key (p ∷ pipes) =
    if same key p then some pipes else Option.map (λ rest. p ∷ rest) (remove_key key pipes)

-- A read pipe with no matching write pipe is an error.
abbrev pub or_unmatched : ProcId → FdName → Option PipeFds → Result Error PipeFds
or_unmatched proc_id fd none = err (unmatched_read_fd proc_id fd)
or_unmatched proc_id fd (some pipes) = ok pipes

-- The third loop: matches up the read ends.
unfoldable pub match_fds : PipeFds → List (FdName × Fd) → Result Error PipeFds
unfolding remove_key
match_fds pipes [] = ok pipes
match_fds pipes ((_, pipe_read from_proc_id from_fd_name) ∷ fds) =
    and_then (parse_fd from_fd_name) λ n.
      and_then (or_unmatched from_proc_id from_fd_name (remove_key (from_proc_id, n) pipes))
        λ pipes'. match_fds pipes' fds
match_fds pipes ((_, _) ∷ fds) = match_fds pipes fds

unfoldable pub match_procs : PipeFds → Procs → Result Error PipeFds
unfolding match_fds
match_procs pipes [] = ok pipes
match_procs pipes ((_, proc) ∷ procs) =
    and_then (match_fds pipes proc.fds) λ pipes'. match_procs pipes' procs

module _ (pick : ProcId × RawFd → PipeFds → ProcId × RawFd) where
  abbrev pub unmatched_write : ProcId × RawFd → Error
  unmatched_write (proc_id, fd_num) = unmatched_write_fd proc_id (show_ℤ fd_num)

  -- Remaining write pipes are unmatched.
  abbrev pub check_rest : PipeFds → Result Error (Unit {0})
  check_rest [] = ok tt
  check_rest (p ∷ pipes) = err (unmatched_write (pick p pipes))

  unfoldable pub validate_procs_fds : Procs → Exec (Result Error (Unit {0}))
  unfolding check_procs collect_procs match_procs
  validate_procs_fds procs = try_exec (done (check_procs procs)) λ _.
      try_exec (collect_procs [] procs)
        λ pipes. done (and_then (match_procs pipes procs) check_rest)

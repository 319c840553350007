-- ===== src/Procs/Child.antt =====
-- The child's side of the fork in `start_procs` of src/procs.rs: from the fork to `execve`, which does not
-- return where it succeeds. Its system calls act on `W`, the state of the child's descriptors.
use Prim.Native.String.{◌++◌ as cat}
use procstar.Prelude.{
  Bool, true, false, String, List, length, [], ◌∷◌, ◌++◌, Option, none, some, Result, ok, err,
  BTreeMap, str_eq, if◌then◌else◌, ◌≡◌, ◌≢◌, refl, Bool-cases, inl, inr, eq_iff, ◌↔◌,
}
use procstar.Io.{IoError}
use procstar.Message.{IncomingMessage}
use procstar.Spec.{RawFd}
use procstar.Err
use procstar.Fd.Child.{Calls, in_child}
use procstar.Procs.Proc.{FdHandlers}
use procstar.Procs.Start.{fd_error}

-- What the remaining calls answer; the error of `execve` is its answer to the child.
pub record ChildAnswers : Type 0 where
  pub setsid : Result IoError (Unit {0})
  pub read_event : Result IoError (Unit {0})
  pub execve : String → IoError

-- The errors written to the parent so far, in their order, and the flag `ok_to_exec`.
pub record Written : Type 0 where
  pub errors : List String
  pub ok_to_exec : Bool

-- The arguments of `execve`.
abbrev pub ExecArgs : Type 0
ExecArgs = String × List String × BTreeMap String String

abbrev pub written : String → Written → Written
written text s = record { errors = s.errors ++ text ∷ []; ok_to_exec = false }

-- If a restricted executable is set, ours must be the same.
unfoldable pub check_restricted : Option String → String → Written
check_restricted none exe = record { errors = []; ok_to_exec = true }
check_restricted (some restricted_exe) exe =
    if str_eq exe restricted_exe
    then record { errors = []; ok_to_exec = true }
    else written (cat "restricted executable: " restricted_exe)
        (record { errors = []; ok_to_exec = true })

abbrev pub or_written : String → Result IoError (Unit {0}) → Written → Written
or_written what (ok _) s = s
or_written what (err e) s = written (cat what e.text) s

append-nonempty : (errors : List String) (text : String) → errors ++ text ∷ [] ≢ []
append-nonempty [] text h = cc
append-nonempty (e ∷ errors) text h = cc

module _ {W : Type 0} (calls : Calls W) (debug : IncomingMessage → String) where
  abbrev pub or_fd_error : RawFd → Result Err.Error (Unit {0}) → Written → Written
  or_fd_error fd (ok _) s = s
  or_fd_error fd (err e) s = written (fd_error debug fd e) s

  unfoldable pub set_up_fds : FdHandlers → Written → W → Written × W
  unfolding in_child
  set_up_fds [] s w = (s, w)
  set_up_fds ((fd, h) ∷ handlers) s w =
      let (result, w') = in_child calls h w in set_up_fds handlers (or_fd_error fd result s) w'

  -- The last steps before `execve`.
  abbrev pub detach : ChildAnswers → Written → Written
  detach os s =
      or_written "read eventfd failed: " os.read_event (or_written "setsid failed: " os.setsid s)

  -- `execve` is called only if nothing has failed; its failure is the last error.
  abbrev pub try_exec : ChildAnswers → ExecArgs → Written → List String × Option ExecArgs
  try_exec os (exe, argv, env) s =
      if s.ok_to_exec
      then (
        s.errors ++ cat "execve failed: " (cat exe (cat ": " (os.execve exe).text)) ∷ [],
        some (exe, argv, env),
      )
      else (s.errors, none)

  -- Returns the errors that the child writes if it comes to its exit, and what it calls `execve` with. The
  -- remaining pipes are closed without failure.
  unfoldable pub run_child :
      Option String → ChildAnswers → ExecArgs → FdHandlers → W → List String × Option ExecArgs
  unfolding check_restricted set_up_fds
  run_child restricted os (exe, argv, env) handlers w =
      try_exec os (exe, argv, env)
        (detach os (set_up_fds handlers (check_restricted restricted exe) w).0)

  -- The child goes on to `execve` exactly as long as it has written no error, and then `P` holds.
  abbrev pub Clean : Type 0 → Written → Type 0
  Clean P s = ((s.ok_to_exec ≡ true) ↔ (s.errors ≡ [])) × (s.ok_to_exec ≡ true → P)

  written-Clean : {P : Type 0} (text : String) (s : Written) → Clean P (written text s)
  written-Clean text s = ((λ h. cc, λ h. absurd (append-nonempty s.errors text h)), λ h. cc)

  or_written-Clean :
      {P : Type 0} (what : String) (result : Result IoError (Unit {0})) (s : Written)
      → Clean P s
      → Clean P (or_written what result s)
  or_written-Clean what (ok _) s c = c
  or_written-Clean what (err e) s c = written-Clean (cat what e.text) s

  or_fd_error-Clean :
      {P : Type 0} (fd : RawFd) (result : Result Err.Error (Unit {0})) (s : Written)
      → Clean P s
      → Clean P (or_fd_error fd result s)
  or_fd_error-Clean fd (ok _) s c = c
  or_fd_error-Clean fd (err e) s c = written-Clean (fd_error debug fd e) s

  set_up_fds-Clean :
      {P : Type 0} (handlers : FdHandlers) (s : Written) (w : W)
      → Clean P s
      → Clean P (set_up_fds handlers s w).0
  unfolding set_up_fds
  set_up_fds-Clean [] s w c = c
  set_up_fds-Clean ((fd, h) ∷ handlers) s w c =
      let (result, w') = in_child calls h w in
      set_up_fds-Clean handlers (or_fd_error fd result s) w' (or_fd_error-Clean fd result s c)

  -- What a restricted executable allows.
  abbrev pub Allows : Option String → String → Type 0
  Allows none exe = Unit
  Allows (some restricted_exe) exe = exe ≡ restricted_exe

  check_restricted-Clean :
      (restricted : Option String) (exe : String)
      → Clean (Allows restricted exe) (check_restricted restricted exe)
  unfolding check_restricted
  check_restricted-Clean none exe = ((λ h. refl, λ h. refl), λ h. tt)
  check_restricted-Clean (some r) exe = elim (Bool-cases (str_eq exe r)) [
    | inl same ↦ rw (same, check_restricted) ((λ h. refl, λ h. refl), λ h. (eq_iff exe r).0 same)
    | inr other ↦
        rw (other, check_restricted)
          (written-Clean (cat "restricted executable: " r)
            (record { errors = []; ok_to_exec = true }))
  ]

  try_exec-value :
      {P : Type 0} (os : ChildAnswers) (exe : String) (argv : List String)
      (env : BTreeMap String String) (called : ExecArgs) (s : Written)
      → Clean P s
      → (try_exec os (exe, argv, env) s).1 ≡ some called
      → (called ≡ (exe, argv, env)) × P × (length (try_exec os (exe, argv, env) s).0 ≡ 1)
  try_exec-value os exe argv env called s c h = elim (Bool-cases s.ok_to_exec) [
    | inl go ↦
        let given : Option ExecArgs = some (exe, argv, env) in
        let reached : given ≡ some called = rw (go) at h in
        (cc reached, c.1 go, rw (go, c.0.0 go) refl)
    | inr stop ↦
        let nothing : Option ExecArgs = none in
        let not_reached : nothing ≡ some called = rw (stop) at h in cc not_reached
  ]

  -- If the child calls `execve`, it does so with the executable, the arguments and the environment that it
  -- was given; a restricted executable, if one is set, is that executable; and it writes one error, that of
  -- `execve`, so that nothing has failed before.
  pub run_child-execs :
      (restricted : Option String) (os : ChildAnswers) (exe : String) (argv : List String)
      (env : BTreeMap String String) (called : ExecArgs) (handlers : FdHandlers) (w : W)
      → (run_child restricted os (exe, argv, env) handlers w).1 ≡ some called
      → (called ≡ (exe, argv, env))
        × Allows restricted exe
        × (length (run_child restricted os (exe, argv, env) handlers w).0 ≡ 1)
  unfolding run_child
  run_child-execs restricted os exe argv env called handlers w h =
      let set_up =
        set_up_fds-Clean handlers (check_restricted restricted exe) w
          (check_restricted-Clean restricted exe) in
      try_exec-value os exe argv env called _
        (or_written-Clean "read eventfd failed: " os.read_event _
          (or_written-Clean "setsid failed: " os.setsid _ set_up))
        h

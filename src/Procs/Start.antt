-- ===== src/Procs/Start.antt =====
-- Starting processes: `start_procs`, `get_exe` and the child's side of the fork, of src/procs.rs. What the
-- system answers for each process is the argument `Answers`; the tasks that run in between, and those
-- that `start_procs` spawns, are changes of their own (`Changes.Op`).
use Prim.Native.String.{◌++◌ as cat}
use procstar.Prelude.{
  ℕ, zero, suc, ℤ, Bool, true, false, String, List, [], ◌∷◌, ◌++◌, Option, none, some, Result, ok,
  err, Exec, done, panicked, contains, string_key, if◌then◌else◌, unwrap_or,
}
use procstar.Prelude.Decimal.{show_ℤ}
use procstar.Io.{IoError}
use procstar.Shutdown
use procstar.Message.{IncomingMessage}
use procstar.Spec
use procstar.Spec.{ProcId, RawFd, SystemdProperties}
use procstar.Spec.Validate.{validate_procs_fds}
use procstar.Spec.Properties.{StartUnit, set_up_slice}
use procstar.Err
use procstar.Environ.{build_from}
use procstar.Err.{display}
use procstar.Fd.{OpenFlags}
use procstar.Fd.Pipes.{Pipes, close}
use procstar.Fd.Handlers.{FdOs, make_fd_handlers, in_parent}
use procstar.Procs.Proc.{FdHandlers, Proc, new_proc}
use procstar.Procs.Table.{SharedProc, Procs, alloc, insert_proc, get_proc_ids, get_shutdown}

-- `argv[0].clone()` is evaluated also where `exe` is given, and panics where `argv` is empty.
unfoldable pub get_exe : Option String → List String → Exec String
get_exe exe [] = panicked
get_exe exe (arg ∷ argv) = done (unwrap_or exe arg)

-- How `start_procs` goes on: it may also panic, or end the program.
pub data Outcome (A : Type 0) : Type 0 where
  returned : A → Outcome A
  panics : Outcome A
  exits : ℕ → Outcome A

abbrev pub and_next : {A B : Type 0} → Outcome A → (A → Outcome B) → Outcome B
and_next (returned a) f = f a
and_next panics f = panics
and_next (exits code) f = exits code

abbrev pub or_panic : {A : Type 0} → Exec A → Outcome A
or_panic (done a) = returned a
or_panic panicked = panics

-- `unwrap_or_else(.. exit(1))`.
abbrev pub or_exit : Result IoError (Unit {0}) → Outcome (Unit {0})
or_exit (ok _) = returned tt
or_exit (err e) = exits 1

abbrev pub unwrap : {A : Type 0} → Result IoError A → Outcome A
unwrap (ok a) = returned a
unwrap (err e) = panics

-- What the system answers while one process is started.
pub record Answers : Type 0 where
  pub env_vars : Exec (List (String × String))
  pub error_pipe : Result IoError (Unit {0})
  pub event_fd : Result IoError (Unit {0})
  pub fd_os : ℕ → FdOs
  pub fork : Result IoError ℤ
  pub start_time : ℕ
  pub start_instant : ℕ
  pub start_unit : StartUnit
  pub write_event : Result IoError (Unit {0})
  pub sys_close : RawFd → Result IoError (Unit {0})

-- The first proc id that is in use already is reported.
abbrev pub find_used : List ProcId → Spec.Procs → Option ProcId
find_used old [] = none
find_used old ((proc_id, _) ∷ specs) =
    if contains old proc_id then some proc_id else find_used old specs

-- The checks, from what they compare.
abbrev pub check_with :
    Option ProcId
    → Exec (Result Spec.Error (Unit {0}))
    → Shutdown.State
    → Exec (Result Err.Error (Unit {0}))
check_with (some proc_id) valid state = done (err (Err.Error.spec (Spec.duplicate_proc_id proc_id)))
check_with none panicked state = panicked
check_with none (done (err e)) state = done (err (Err.Error.spec e))
check_with none (done (ok _)) Shutdown.State.active = done (ok tt)
check_with none (done (ok _)) Shutdown.State.idling =
    done (err (Err.Error.shutting_down Shutdown.State.idling))
check_with none (done (ok _)) Shutdown.State.done =
    done (err (Err.Error.shutting_down Shutdown.State.done))

-- The checks before anything is started.
unfoldable pub check_start :
    (ProcId × RawFd → List (ProcId × RawFd) → ProcId × RawFd)
    → Spec.Procs
    → Procs
    → Exec (Result Err.Error (Unit {0}))
check_start pick specs w =
    check_with (find_used (get_proc_ids w) specs) (validate_procs_fds pick specs) (get_shutdown w)

-- The `?` operator, after which the state goes on.
abbrev pub try_step :
    {A B : Type 0}
    → Result Err.Error A × Procs
    → (A → Procs → Outcome (Result Err.Error B × Procs))
    → Outcome (Result Err.Error B × Procs)
try_step (ok a, w) next = next a w
try_step (err e, w) next = returned (err e, w)

abbrev pub assert_none :
    Result Err.Error ℕ
    → List SharedProc
    → Procs
    → Outcome (Result Err.Error (List SharedProc) × Procs)
assert_none (err e) tasks w = panics
assert_none (ok zero) tasks w = returned (ok tasks, w)
assert_none (ok (suc n)) tasks w = panics

abbrev pub enabled : Bool → StartUnit → Option StartUnit
enabled true start = some start
enabled false start = none

module _ (debug : IncomingMessage → String) where
  abbrev pub fd_error : RawFd → Err.Error → String
  fd_error fd e = cat "failed to set up fd " (cat (show_ℤ fd) (cat ": " (display debug e)))

  -- The errors of the handlers in the parent, in their order.
  unfoldable pub parent_errors : (RawFd → Result IoError (Unit {0})) → FdHandlers → List String
  unfolding in_parent
  parent_errors sys_close [] = []
  parent_errors sys_close ((fd, h) ∷ handlers) = elim (in_parent sys_close h) [
    | ok _ ↦ parent_errors sys_close handlers
    | err e ↦ fd_error fd e ∷ parent_errors sys_close handlers
  ]

  -- The parent's side: builds the record of the process, with its errors, and registers it.
  unfoldable pub register :
      Answers
      → ProcId
      → ℤ
      → Bool
      → Option String × Option String
      → FdHandlers
      → Procs
      → SharedProc × Procs
  unfolding new_proc parent_errors alloc insert_proc
  register os proc_id pid systemd_enabled (slice, scope) handlers w =
      let proc = new_proc pid slice scope systemd_enabled os.start_time os.start_instant handlers in
      let proc' : Proc = record proc {
        errors = proc.errors ++ parent_errors os.sys_close handlers;
      } in
      let (r, w') = alloc proc' w in (r, insert_proc proc_id r w')

  abbrev pub Step : Type 0
  Step = Result Err.Error (SharedProc × Pipes) × Procs

  -- The parent after the fork. `set_up_slice(..).await?` leaves the function at once.
  abbrev pub after_fork :
      Bool
      → Answers
      → ProcId
      → ℤ
      → FdHandlers
      → Pipes
      → Procs
      → Result Err.Error (Option String × Option String)
      → Outcome Step
  after_fork systemd os proc_id pid handlers pipes w (err e) = returned (err e, w)
  after_fork systemd os proc_id pid handlers pipes w (ok units) =
      and_next (unwrap os.write_event) λ _.
        let (r, w') = register os proc_id pid systemd units handlers w in
        returned (ok (r, pipes), w')

  -- The body of the loop, in the parent; the environment that is built here is for the child.
  unfoldable pub start_one :
      OpenFlags → Bool → Answers → ProcId → Spec.Proc → Pipes → Procs → Outcome Step
  unfolding get_exe build_from make_fd_handlers set_up_slice register
  start_one flags systemd os proc_id spec pipes w =
      and_next (or_panic (get_exe spec.exe spec.argv)) λ exe.
        and_next (or_panic (build_from os.env_vars spec.env)) λ env.
          and_next (or_exit os.error_pipe) λ _. and_next (or_exit os.event_fd) λ _.
            and_next (or_panic (make_fd_handlers flags os.fd_os 0 pipes proc_id spec.fds))
              λ (handlers, pipes'). and_next (unwrap os.fork) λ pid.
                after_fork systemd os proc_id pid handlers pipes' w
                  (set_up_slice pid spec.systemd_properties (enabled systemd os.start_unit))

  -- The loop over the specs, then the assertion that both ends of all pipes have been used. A task is named
  -- by the process that it awaits.
  unfoldable pub start_all :
      OpenFlags
      → Bool
      → (ProcId → Answers)
      → (RawFd → Result IoError (Unit {0}))
      → Spec.Procs
      → Pipes
      → List SharedProc
      → Procs
      → Outcome (Result Err.Error (List SharedProc) × Procs)
  unfolding start_one
  start_all flags systemd os sys_close [] pipes tasks w =
      assert_none (close sys_close pipes) tasks w
  start_all flags systemd os sys_close ((proc_id, spec) ∷ specs) pipes tasks w =
      and_next (start_one flags systemd (os proc_id) proc_id spec pipes w) λ step.
        try_step step
          λ (r, pipes') w'. start_all flags systemd os sys_close specs pipes' (tasks ++ r ∷ []) w'

  unfoldable pub start_procs :
      (ProcId × RawFd → List (ProcId × RawFd) → ProcId × RawFd)
      → OpenFlags
      → Bool
      → (ProcId → Answers)
      → (RawFd → Result IoError (Unit {0}))
      → Spec.Procs
      → Procs
      → Outcome (Result Err.Error (List SharedProc) × Procs)
  unfolding check_start start_all
  start_procs pick flags systemd os sys_close specs w =
      and_next (or_panic (check_start pick specs w))
        λ checked. try_step (checked, w) λ _ w'. start_all flags systemd os sys_close specs [] [] w'

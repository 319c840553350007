-- ===== src/Procs/Returns.antt =====
-- `start_procs` of src/procs.rs returns: its assertions on the pipes and on the names of descriptors never
-- fail.
use procstar.Prelude.{
  ◌≡◌, inl, inr, refl, sym, Bool, String, List, [], Result, ok, err, arith, done, All, keys,
  string_key, pair_key, Result-cases, Option, none, some,
}
use procstar.Io.{IoError}
use procstar.Message.{IncomingMessage}
use procstar.Spec
use procstar.Spec.{ProcId, RawFd}
use procstar.Spec.Validate.{PipeFds}
use procstar.Spec.Wired.{Distinct, IsWired}
use procstar.Spec.Laws.{validate_procs_fds_returns, count-AllWrites}
use procstar.Procs.Started.{Started, check_start_iff, start_procs-Started}
use procstar.Shutdown
use procstar.Err
use procstar.Fd.{OpenFlags}
use procstar.Fd.Balanced.{IsBalanced, nil-IsBalanced}
use procstar.Procs.Table.{SharedProc, Procs, get_proc_ids, get_shutdown}
use procstar.Procs.Start.{Answers, returned, check_start, start_procs, check_with, find_used}
use procstar.Procs.Looped.{Works, HasArgv, Fails, start_all-Ended}

check_with-returns :
    (used : Option ProcId) (valid : Result Spec.Error (Unit {0})) (state : Shutdown.State)
    → (checked : Result Err.Error (Unit {0})) × (check_with used (done valid) state ≡ done checked)
check_with-returns (some id) valid state = (_, refl)
check_with-returns none (err e) state = (_, refl)
check_with-returns none (ok _) Shutdown.State.active = (_, refl)
check_with-returns none (ok _) Shutdown.State.idling = (_, refl)
check_with-returns none (ok _) Shutdown.State.done = (_, refl)

check_start-returns :
    (pick : ProcId × RawFd → PipeFds → ProcId × RawFd) (specs : Spec.Procs) (w : Procs)
    → Distinct (keys specs)
    → (checked : Result Err.Error (Unit {0})) × (check_start pick specs w ≡ done checked)
unfolding check_start
check_start-returns pick specs w distinct =
    let (valid, runs) = validate_procs_fds_returns pick specs distinct in
    let (checked, e) =
      check_with-returns (find_used (get_proc_ids w) specs) valid (get_shutdown w) in
    (checked, rw runs e)

module _ (debug : IncomingMessage → String) (flags : OpenFlags) (systemd : Bool)
    (os : ProcId → Answers) (sys_close : RawFd → Result IoError (Unit {0})) where
  -- How `start_procs` ends.
  pub data Ending (pick : ProcId × RawFd → PipeFds → ProcId × RawFd) (specs : Spec.Procs)
      (w : Procs) : Result Err.Error (List SharedProc) × Procs → Type 0 where
    started : (tasks : List SharedProc) (after : Procs) → Ending pick specs w (ok tasks, after)
    refused :
        (e : Err.Error) → check_start pick specs w ≡ done (err e) → Ending pick specs w (err e, w)
    failed :
        (e : Err.Error) (after : Procs)
        → check_start pick specs w ≡ done (ok tt)
        → Fails debug flags systemd os sys_close specs e
        → Ending pick specs w (err e, after)

  IsWired-IsBalanced :
      (specs : Spec.Procs) (wired : IsWired specs)
      → Distinct (keys specs)
      → IsBalanced [] wired.writes wired.reads
  IsWired-IsBalanced specs wired distinct = nil-IsBalanced wired.writes wired.reads λ (id, n). (
    sym (wired.matched (id, n)),
    omega (arith, count-AllWrites specs wired.writes wired.fds wired.written id n, distinct id),
  )

  start_procs-Ending :
      (pick : ProcId × RawFd → PipeFds → ProcId × RawFd) (specs : Spec.Procs) (w : Procs)
      → Distinct (keys specs)
      → All (λ p. HasArgv p.1) specs
      → ((id : ProcId) → Works (os id))
      → (end : Result Err.Error (List SharedProc) × Procs) × (start_procs debug pick flags systemd
            os sys_close specs w
          ≡ returned end)
        × Ending pick specs w end
  unfolding start_procs
  start_procs-Ending pick specs w distinct argvs works =
      let (checked, checks) = check_start-returns pick specs w distinct in
      elim (Result-cases checked) [
        | inr (e, bad) ↦ ((err e, w), rw (checks, bad) refl, Ending.refused e (rw (← bad) checks))
        | inl (_, good) ↦
            let passed : check_start pick specs w ≡ done (ok tt) = rw (← good) checks in
            let wired = ((check_start_iff pick specs w distinct).0 passed).1 in
            elim (start_all-Ended debug flags systemd os sys_close specs [] [] w wired.writes
              wired.reads works argvs wired.fds wired.written wired.read
              (IsWired-IsBalanced specs wired distinct)) [
                | inl (tasks, after, run) ↦
                    ((ok tasks, after), rw passed run, Ending.started tasks after)
                | inr (e, after, run, why) ↦
                    ((err e, after), rw passed run, Ending.failed e after passed why)
              ]
      ]

-- For specs under distinct proc ids, each with an argument to run, on a machine on which the pipes, the
-- forks and the other calls of the parent succeed and whose environment is Unicode text, `start_procs` returns: no assertion fails, and no pipe
-- is left over. It ends with tasks, or is refused by its checks with the state unchanged, or reports
-- that systemd failed for one of the specs; and it has registered processes for the first of the specs, in
-- their order, and for all of them where it ends with tasks.
pub start_procs-returns :
    (debug : IncomingMessage → String) (flags : OpenFlags) (systemd : Bool) (os : ProcId → Answers)
    (sys_close : RawFd → Result IoError (Unit {0}))
    (pick : ProcId × RawFd → PipeFds → ProcId × RawFd) (specs : Spec.Procs) (w : Procs)
    → Distinct (keys specs)
    → All (λ p. HasArgv p.1) specs
    → ((id : ProcId) → Works (os id))
    → (result : Result Err.Error (List SharedProc)) × (after : Procs) × (start_procs debug pick
          flags systemd os sys_close specs w
        ≡ returned (result, after))
      × Ending debug flags systemd os sys_close pick specs w (result, after)
      × Started specs [] w result after
start_procs-returns debug flags systemd os sys_close pick specs w distinct argvs works =
    let ((result, after), run, ending) =
      start_procs-Ending debug flags systemd os sys_close pick specs w distinct argvs works in
    (
      result,
      after,
      run,
      ending,
      start_procs-Started debug pick flags systemd os sys_close specs w after result run,
    )

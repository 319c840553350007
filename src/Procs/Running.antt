-- ===== src/Procs/Running.antt =====
-- `wait_for_proc` of src/procs.rs: the task that awaits a process, up to its record of how it ended.
use procstar.Prelude.{
  ℕ, ◌-◌, ◌≡◌, refl, true, String, List, [], ◌∷◌, ◌++◌, Option, none, some, err, Exec, done,
  panicked, ◌≢◌, ◌∙◌, ap, arith, inl, inr, Option-cases, All,
}
use procstar.State
use procstar.Sig.{Signum}
use procstar.Err
use procstar.Procinfo.{ProcStat}
use procstar.Procs.Proc.{Proc, WaitInfo, Kill, send_signal, get_state, state_of}
use procstar.Procs.Units.{UnitsFinal}

-- One SIGCHLD: what /proc and the nonblocking wait answer, the clocks after it and, where the process has
-- ended, what finalizing its units records.
pub record Wake : Type 0 where
  pub proc_stat : Option ProcStat
  pub waited : Option WaitInfo
  pub stop_time : ℕ
  pub stop_instant : ℕ
  pub fin : UnitsFinal

-- Right after the wait: no more signals to this pid.
unfoldable pub reap : Proc → Proc
reap proc = record proc { reaped = true }

abbrev pub recorded : Wake → WaitInfo → Proc → Proc
recorded wake info proc = record proc {
  wait_info = some info;
  proc_stat = wake.proc_stat;
  cgroup_accounting = wake.fin.cgroup_accounting;
  scope_result = wake.fin.scope_result;
  cleanup_incomplete = wake.fin.cleanup_incomplete;
  stop_time = some wake.stop_time;
  elapsed = some (wake.stop_instant - proc.start_instant);
}

-- After the units are finalized; `assert!(proc.wait_info.is_none())` comes first.
abbrev pub finish_with : Option WaitInfo → Wake → WaitInfo → Proc → Exec Proc
finish_with (some _) wake info proc = panicked
finish_with none wake info proc = done (recorded wake info proc)

unfoldable pub finish : Wake → WaitInfo → Proc → Exec Proc
finish wake info proc = finish_with proc.wait_info wake info proc

-- The loop; `between` is what other tasks do to the process while its units are finalized. When the wakes
-- end, the task is still waiting.
unfoldable pub wait_for_proc : (Proc → Proc) → List Wake → Proc → Exec Proc
unfolding reap finish
wait_for_proc between [] proc = done proc
wait_for_proc between (wake ∷ wakes) proc =
    let rest = wait_for_proc between wakes proc in
    elim wake.waited [ none ↦ rest | some info ↦ finish wake info (between (reap proc)) ]

-- What the other tasks leave alone: they append errors and captured output, nothing else.
pub record LeavesAlone (between : Proc → Proc) : Type 0 where
  pub reaped : (proc : Proc) → (between proc).reaped ≡ proc.reaped
  pub wait_info : (proc : Proc) → (between proc).wait_info ≡ proc.wait_info
  pub start_instant : (proc : Proc) → (between proc).start_instant ≡ proc.start_instant

-- The wait of a wake has found nothing.
abbrev pub FindsNone : Wake → Type 0
FindsNone wake = wake.waited ≡ none

-- How a process stands after its task has seen some wakes: none of them has found its end, or the first
-- that has is recorded.
pub data Awaited (kill : Kill) (wakes : List Wake) (before after : Proc) : Type 0 where
  still_waiting : All FindsNone wakes → after ≡ before → Awaited kill wakes before after
  ended :
      (earlier later : List Wake) (wake : Wake) (info : WaitInfo)
      → wakes ≡ earlier ++ wake ∷ later
      → All FindsNone earlier
      → wake.waited ≡ some info
      → after.wait_info ≡ some info
      → after.proc_stat ≡ wake.proc_stat
      → after.stop_time ≡ some wake.stop_time
      → get_state after ≢ State.State.running
      → ((signum : Signum) → send_signal kill after signum ≡ err Err.Error.no_proc)
      → after.elapsed ≡ some (wake.stop_instant - before.start_instant)
      → Awaited kill wakes before after

-- The error task of `run_proc`: what has come over the error pipe is appended to the errors.
unfoldable pub append_errors : List String → Proc → Proc
append_errors errors proc = record proc { errors = proc.errors ++ errors }

pub append_errors-LeavesAlone : (errors : List String) → LeavesAlone (append_errors errors)
unfolding append_errors
append_errors-LeavesAlone errors = record {
  reaped = λ proc. refl;
  wait_info = λ proc. refl;
  start_instant = λ proc. refl;
}

pub ended-not_running :
    (errors : List String) (info : WaitInfo) → state_of errors (some info) ≢ State.State.running
ended-not_running [] info = ground arith
ended-not_running (e ∷ errors) info = ground arith

finish-Awaited :
    (kill : Kill) (between : Proc → Proc) (wake : Wake) (wakes : List Wake) (info : WaitInfo)
    (proc : Proc)
    → LeavesAlone between
    → proc.wait_info ≡ none
    → wake.waited ≡ some info
    → (after : Proc) × (finish wake info (between (reap proc)) ≡ done after)
      × Awaited kill (wake ∷ wakes) proc after
unfolding reap finish get_state send_signal
finish-Awaited kill between wake wakes info proc alone fresh found =
    let p : Proc = between (reap proc) in
    let unset : p.wait_info ≡ none = alone.wait_info (reap proc) ∙ fresh in
    (
      recorded wake info p,
      rw (unset, finish) refl,
      Awaited.ended [] wakes wake info refl tt found refl refl refl
          (ended-not_running p.errors info) (λ signum. rw (alone.reaped (reap proc)) refl)
          (ap (λ t. some (wake.stop_instant - t)) (alone.start_instant (reap proc))),
    )

-- A wake that finds nothing comes before.
later-Awaited :
    (kill : Kill) (wake : Wake) (wakes : List Wake) (before after : Proc)
    → FindsNone wake
    → Awaited kill wakes before after
    → Awaited kill (wake ∷ wakes) before after
later-Awaited kill wake wakes before after nothing (Awaited.still_waiting all same) =
    Awaited.still_waiting (nothing, all) same
later-Awaited kill wake wakes before after nothing
      (Awaited.ended earlier later w info split all found waited stat time state signals elapsed) =
    Awaited.ended (wake ∷ earlier) later w info (ap (λ ws. wake ∷ ws) split) (nothing, all) found
      waited stat time state signals elapsed

-- The task of a process that nobody else has waited for never fails its assertion. Either none of its wakes
-- has found the end of the process, and the process is as before; or the first wake that has is recorded,
-- with its wait status, its /proc entry, its time and the elapsed time, and the process no longer counts as
-- running and gets no more signals.
pub wait_for_proc-Awaited :
    (kill : Kill) (between : Proc → Proc) (wakes : List Wake) (proc : Proc)
    → LeavesAlone between
    → proc.wait_info ≡ none
    → (after : Proc) × (wait_for_proc between wakes proc ≡ done after)
      × Awaited kill wakes proc after
unfolding wait_for_proc
wait_for_proc-Awaited kill between [] proc alone fresh = (proc, refl, Awaited.still_waiting tt refl)
wait_for_proc-Awaited kill between (wake ∷ wakes) proc alone fresh =
    elim (Option-cases wake.waited) [
      | inl nothing ↦
          let (after, run, awaited) = wait_for_proc-Awaited kill between wakes proc alone fresh in
          (after, rw (nothing) run, later-Awaited kill wake wakes proc after nothing awaited)
      | inr (info, found) ↦
          let (after, run, awaited) =
            finish-Awaited kill between wake wakes info proc alone fresh found in
          (after, rw (found) run, awaited)
    ]

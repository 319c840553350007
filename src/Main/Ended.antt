-- ===== src/Main/Ended.antt =====
-- How a run until exit ends.
use procstar.Prelude.{
  ◌≡◌, refl, sym, subst, if◌then◌else◌, ◌∙◌, arith, Bool, true, false, List, [], ◌∷◌, Option, none,
  some, String, ok, err, keys, Bool-cases, inl, inr, Exec-cases, Result-cases, done, panicked, ◌≢◌,
}
use procstar.Io.{IoError}
use procstar.Shutdown.{State}
use procstar.Shutdown.Ended.{set_shutdown-state, set_shutdown-procs}
use procstar.Spec.{ProcId}
use procstar.Res.{Res}
use procstar.Sys.Files.{OpenFiles}
use procstar.Procs.Proc.{Snapshot}
use procstar.Procs.Table.{
  Notification, Procs, notify, notify_deleted, clear, first_running, set_shutdown, get_shutdown,
  collect_results, results_of,
}
use procstar.Procs.Idling.{check_idling-procs}
use procstar.Procs.Removal.{notify-procs}
use procstar.Procs.Start.{Outcome, returned, panics, exits, and_next}
use procstar.Procs.Waiting.{
  Phase, Event, wait_running, wait_for_shutdown, unsubscribe, stops, start_waiting,
}
use procstar.Procs.Moments.{Moment}
use procstar.Procs.Empty.{NoneRuns, wait_running-Moment}
use procstar.Main.{Args, Output, dumped, printed, report, after_phase, select, maybe_run_until_exit}

-- The state from which the results are collected, after the wait: there was a moment during it at which no
-- process of the table was running, or the agent has been told to shut down while a process is awaited.
pub data Over (events : List Event) (w : Procs) : Procs → Type 0 where
  none_ran :
      Moment first_running stops NoneRuns events (start_waiting first_running stops w)
      → Over events w (wait_running events w).procs
  shut_down :
      (id : ProcId)
      → (wait_running events w).phase ≡ Phase.awaits id
      → get_shutdown (wait_running events w).procs ≡ State.done
      → Over events w (unsubscribe (wait_running events w).procs)

module _ (o : Output) (args : Args) (s : Snapshot) (files : OpenFiles) where
  -- The results that could be made of the processes of `w`, with the open files after that.
  abbrev pub Collected : Procs → Res → OpenFiles → Type 0
  Collected w res files' = results_of s w.heap files w.procs ≡ done (res, files')

  -- The results are printed, if that is asked for.
  abbrev pub Printed : Res → Type 0
  Printed res = args.print ≡ true → o.print res ≡ ok tt

  -- What there is when the results of the processes of `w` have been written as asked for: no process, and
  -- the end of the agent; or the exit code, because a result cannot be written; or a result cannot be made.
  pub data Reported (w : Procs) : Outcome (Procs × OpenFiles) → Type 0 where
    reported :
        (res : Res) (files' : OpenFiles) (after : Procs)
        → Collected w res files'
        → Printed res
        → ((path : String) → args.output ≡ some path → o.dump_file res path ≡ ok tt)
        → after.procs ≡ []
        → get_shutdown after ≡ State.done
        → Reported w (returned (after, files'))
    not_printed :
        (res : Res) (files' : OpenFiles) (e : IoError)
        → Collected w res files'
        → args.print ≡ true
        → o.print res ≡ err e
        → Reported w (exits o.osfile)
    not_dumped :
        (res : Res) (files' : OpenFiles) (path : String) (e : IoError)
        → Collected w res files'
        → Printed res
        → args.output ≡ some path
        → o.dump_file res path ≡ err e
        → Reported w (exits o.osfile)
    no_result : results_of s w.heap files w.procs ≡ panicked → Reported w panics

  -- The program still waits for a process, or its subscription has lost notifications, or the wait is over
  -- and the results are reported.
  pub data Finished (events : List Event) (w : Procs)
      : Outcome (Option (Procs × OpenFiles)) → Type 0 where
    waiting :
        (id : ProcId)
        → (wait_running events w).phase ≡ Phase.awaits id
        → get_shutdown (wait_running events w).procs ≢ State.done
        → Finished events w (returned none)
    lagged : (wait_running events w).phase ≡ Phase.panicked → Finished events w panics
    over :
        (v : Procs) (out : Outcome (Procs × OpenFiles))
        → Over events w v
        → Reported v out
        → Finished events w (and_next out λ a. returned (some a))

notify_deleted-procs : (ids : List ProcId) (w : Procs) → (notify_deleted ids w).procs ≡ w.procs
unfolding notify_deleted
notify_deleted-procs [] w = refl
notify_deleted-procs (id ∷ ids) w =
    notify_deleted-procs ids (notify (Notification.delete id) w)
    ∙ notify-procs (Notification.delete id) w

clear-procs : (w : Procs) → (clear w).procs ≡ []
unfolding clear
clear-procs w =
    check_idling-procs (notify_deleted (keys w.procs) (record w { procs = [] }))
    ∙ notify_deleted-procs (keys w.procs) (record w { procs = [] })

done_state : (v : Procs) → wait_for_shutdown v ≡ true → get_shutdown v ≡ State.done
unfolding wait_for_shutdown get_shutdown
done_state v h = ground arith

not_done_state : (v : Procs) → wait_for_shutdown v ≡ false → get_shutdown v ≢ State.done
unfolding wait_for_shutdown get_shutdown
not_done_state v h = ground arith

module _ (o : Output) (args : Args) (s : Snapshot) (files : OpenFiles) where
  same_path :
      (other path : String) → args.output ≡ some other → args.output ≡ some path → path ≡ other
  same_path other path h k = cc

  dumped-Reported :
      (w after : Procs) (res : Res) (files' : OpenFiles) (output : Option String)
      → args.output ≡ output
      → Collected o args s files w res files'
      → Printed o args s files res
      → after.procs ≡ []
      → get_shutdown after ≡ State.done
      → Reported o args s files w (and_next (dumped o res output) λ _. returned (after, files'))
  dumped-Reported w after res files' none no_file made well_printed empty ended =
      Reported.reported res files' after made well_printed (λ path some_file. cc) empty ended
  dumped-Reported w after res files' (some path) file made well_printed empty ended =
      elim (Result-cases (o.dump_file res path)) [
        | inl (_, well) ↦ rw (well) (
            Reported.reported res files' after made well_printed
              (λ other file'.
                subst (λ p. o.dump_file res p ≡ ok tt) (same_path other path file' file) well)
              empty ended)
        | inr (e, bad) ↦ rw (bad) (Reported.not_dumped res files' path e made well_printed file bad)
      ]

  printed-Reported :
      (w : Procs) (res : Res) (files' : OpenFiles) (print : Bool)
      (next : Outcome (Procs × OpenFiles))
      → args.print ≡ print
      → Collected o args s files w res files'
      → (Printed o args s files res → Reported o args s files w next)
      → Reported o args s files w (and_next (printed o res print) λ _. next)
  printed-Reported w res files' true next asked made go_on = elim (Result-cases (o.print res)) [
    | inl (_, well) ↦ rw (well) (go_on (λ _. well))
    | inr (e, bad) ↦ rw (bad) (Reported.not_printed res files' e made asked bad)
  ]
  printed-Reported w res files' false next asked made go_on = go_on (λ h. cc)

  report-Reported : (w : Procs) → Reported o args s files w (report o args s files w)
  unfolding report collect_results
  report-Reported w = elim (Exec-cases (results_of s w.heap files w.procs)) [
    | inr unmade ↦ rw (unmade, report, collect_results) (Reported.no_result unmade)
    | inl ((res, files'), made) ↦
        rw (made, report, collect_results)
          (printed-Reported w res files' args.print _ refl made λ well.
            dumped-Reported w (set_shutdown State.done (clear w)) res files' args.output refl made
              well (set_shutdown-procs State.done (clear w) ∙ clear-procs w)
              (set_shutdown-state State.done (clear w) ∙ ground arith))
  ]

  after_phase-Finished :
      (events : List Event) (w : Procs) (phase : Phase)
      → (wait_running events w).phase ≡ phase
      → Finished o args s files events w
          (after_phase (wait_running events w).procs phase (report o args s files))
  after_phase-Finished events w Phase.returned e =
      let v = (wait_running events w).procs in
      Finished.over v (report o args s files v) (Over.none_ran (wait_running-Moment events w e))
        (report-Reported v)
  after_phase-Finished events w (Phase.awaits id) e =
      let v = (wait_running events w).procs in
      elim (Bool-cases (wait_for_shutdown v)) [
        | inl told ↦ rw (told) (
            Finished.over (unsubscribe v) (report o args s files (unsubscribe v))
              (Over.shut_down id e (done_state v told)) (report-Reported (unsubscribe v)))
        | inr going ↦ rw (going) (Finished.waiting id e (not_done_state v going))
      ]
  after_phase-Finished events w Phase.panicked e = Finished.lagged e

  -- With the option to exit, the program waits as long as it awaits a process and is not told to shut down;
  -- it panics if its wait has lost notifications. Else there was a moment at which no process was running, or
  -- it is told to shut down while it awaits one: then the results of all processes are printed and
  -- written as the options ask, and the table is empty and the agent done; or it exits with the code for a
  -- file, because they cannot be printed or written; or it panics, because a result cannot be made.
  pub maybe_run_until_exit-Finished :
      (events : List Event) (w : Procs)
      → args.exit ≡ true
      → Finished o args s files events w (maybe_run_until_exit o args s events files w)
  unfolding maybe_run_until_exit
  maybe_run_until_exit-Finished events w h =
      subst
        (λ asked. Finished o args s files events w (
          if asked
          then select (wait_running events w) (report o args s files)
          else returned (some (w, files))))
        (sym h) (after_phase-Finished events w (wait_running events w).phase refl)

-- ===== src/Shutdown/Signals.antt =====
-- The signal handlers of src/shutdown.rs: what an agent does on the one signal that a handler waits for. While
-- it waits for processes, the other tasks and its own receipts take turns (`Procs.Waiting.Event`), up to the
-- end of its wait or of its time.
use procstar.Prelude.{
  ℤ, Bool, true, false, not, List, [], ◌∷◌, ◌++◌, Exec, done, panicked, bind_exec, if◌then◌else◌,
  ◌&&◌, BTreeMap,
}
use procstar.Shutdown.{State}
use procstar.Sig.{Signum, sigterm, sigkill}
use procstar.Spec.{ProcId}
use procstar.Procs.Proc.{Proc}
use procstar.Procs.Table.{SharedProc, Procs, runs, set_shutdown}
use procstar.Procs.Waiting.{Phase, Waiting, Event, wait_running, wait_idle, unsubscribe}

pub data SignalStyle : Type 0 where
  shutdown_on_idle term_then_kill kill : SignalStyle

-- The calls of `kill` that `send_signal_all` makes: for each running process that is not reaped.
unfoldable pub kills_in :
    Signum → (SharedProc → Proc) → BTreeMap ProcId SharedProc → List (ℤ × Signum)
kills_in signum heap [] = []
kills_in signum heap ((_, r) ∷ procs) =
    let rest = kills_in signum heap procs in
    if runs heap r && not (heap r).reaped then ((heap r).pid, signum) ∷ rest else rest

unfoldable pub kill_all : Signum → Procs → List (ℤ × Signum)
unfolding kills_in
kill_all signum w = kills_in signum w.heap w.procs

-- A wait with a timeout: whether its time has run out, and the state after it; a wait that is given up
-- drops its subscription.
abbrev pub ended_in : Procs → Phase → Exec (Bool × Procs)
ended_in w Phase.returned = done (false, w)
ended_in w (Phase.awaits proc_id) = done (true, unsubscribe w)
ended_in w Phase.panicked = panicked

abbrev pub timeout : Waiting → Exec (Bool × Procs)
timeout s = ended_in s.procs s.phase

-- The state after a handler, and the signals it has sent.
pub record Handled : Type 0 where
  pub procs : Procs
  pub kills : List (ℤ × Signum)

-- The last steps of two styles: the final wait, and the shutdown.
abbrev pub finish : List (ℤ × Signum) → Waiting → Exec Handled
finish kills s =
    bind_exec (timeout s)
      λ (_, w). done (record { procs = set_shutdown State.done w; kills = kills })

abbrev pub kill_late : Bool → Procs → List (ℤ × Signum)
kill_late late w = if late then kill_all sigkill w else []

-- `running` and `idle` are what happens during the two waits.
unfoldable pub on_signal : SignalStyle → List Event → List Event → Procs → Exec Handled
unfolding kill_all wait_running wait_idle set_shutdown
on_signal SignalStyle.shutdown_on_idle running idle w =
    done (record { procs = set_shutdown State.idling w; kills = [] })
on_signal SignalStyle.term_then_kill running idle w =
    bind_exec (timeout (wait_running running w))
      λ (late, w'). finish (kill_all sigterm w ++ kill_late late w') (wait_idle idle w')
on_signal SignalStyle.kill running idle w = finish (kill_all sigkill w) (wait_idle idle w)

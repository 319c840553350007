-- ===== src/Procs/Empty.antt =====
-- When the waiting for the processes ends.
use procstar.Prelude.{◌≡◌, refl, false, List, [], ◌∷◌, none, All, BTreeMap, string_key}
use procstar.Spec.{ProcId}
use procstar.Procs.Table.{SharedProc, Procs, first, head?, first_running, runs}
use procstar.Procs.Removal.{first_running-none}
use procstar.Procs.Waiting.{
  Phase, Event, start_waiting, unsubscribe, deletes, stops, wait_idle, wait_running,
}
use procstar.Procs.Moments.{Moment, start_waiting-Moment}

abbrev pub IsEmpty : Procs → Type 0
IsEmpty w = w.procs ≡ []

-- No process of the table is running.
abbrev pub NoneRuns : Procs → Type 0
NoneRuns w = All (λ (id, r). runs w.heap r ≡ false) w.procs

head?-none : (m : BTreeMap ProcId SharedProc) → head? m ≡ none → m ≡ []
head?-none [] h = refl
head?-none (p ∷ m) h = cc

first-none : (w : Procs) → first w ≡ none → IsEmpty (unsubscribe w)
unfolding first
first-none w h = head?-none w.procs h

-- If a task that waits for the processes to be deleted has returned, then it did so at a moment at which no
-- process was in the table.
pub wait_idle-Moment :
    (events : List Event) (w : Procs)
    → (wait_idle events w).phase ≡ Phase.returned
    → Moment first deletes IsEmpty events (start_waiting first deletes w)
unfolding wait_idle
wait_idle-Moment events w h = start_waiting-Moment first deletes IsEmpty first-none events w h

-- If a task that waits for the processes to end has returned, then it did so at a moment at which no process
-- of the table was running.
pub wait_running-Moment :
    (events : List Event) (w : Procs)
    → (wait_running events w).phase ≡ Phase.returned
    → Moment first_running stops NoneRuns events (start_waiting first_running stops w)
unfolding wait_running
wait_running-Moment events w h =
    start_waiting-Moment first_running stops NoneRuns
      (λ v none_found. (first_running-none v).0 none_found) events w h

-- ===== src/Tests/Waits.antt =====
-- Waiting for processes, and a signal to the agent.
use procstar.Prelude.{
  ◌≡◌, ◌≢◌, ◌-◌, ◌≤◌, refl, arith, List, [], ◌∷◌, done, length, insert, get, remove,
}
use procstar.Shutdown.{State}
use procstar.Shutdown.Signals.{SignalStyle, Handled, on_signal}
use procstar.Shutdown.Ended.{Ended, on_signal-Ended}
use procstar.Procs.Proc.{new_proc, get_state}
use procstar.Procs.Table.{
  notify, first_running, Procs, new_procs, subscribe, set_shutdown, first, insert_proc, alloc,
  remove_if_not_running,
}
use procstar.Procs.Changes.{apply, Op, Follows, run}
use procstar.Procs.Following.{run-Follows}
use procstar.Procs.Waiting.{
  stops, capacity, Phase, Event, start_waiting, turns, deletes, wait_idle, wait_running,
}
use procstar.Procs.Woken.{receipts, wait_idle-returned}
use procstar.Procs.Moments.{Moment}
use procstar.Procs.Empty.{IsEmpty, NoneRuns, wait_idle-Moment, wait_running-Moment}
use procstar.Tests.Data.{table, one, proc, over}

abbrev w0 : Procs
w0 = run (Op.starts "a" over ∷ []) (subscribe (new_procs λ r. proc))

w0-Follows : Follows w0
w0-Follows = run-Follows (λ r. proc) (Op.starts "a" over ∷ [])

-- Another task deletes the process, and the notification has not been read.
abbrev deletion : List Event
deletion = Event.other (Op.deletes "a") ∷ []

still_waits : (wait_idle deletion w0).phase ≡ Phase.awaits "a"
unfolding wait_idle run subscribe new_procs over proc new_proc get_state insert_proc alloc insert
    remove_if_not_running get remove
still_waits = refl

not_panicked : (wait_idle deletion w0).phase ≢ Phase.panicked
not_panicked = rw (still_waits) (λ h. ground (arith, h))

all_deleted : (wait_idle deletion w0).procs.procs ≡ []
unfolding wait_idle run subscribe new_procs over proc new_proc get_state insert_proc alloc insert
    remove_if_not_running get remove
all_deleted = refl

two_sent : length (wait_idle deletion w0).procs.sent ≡ 2
unfolding wait_idle run subscribe new_procs over proc new_proc get_state insert_proc alloc insert
    remove_if_not_running get remove
two_sent = refl

not_behind : length (wait_idle deletion w0).procs.sent - (wait_idle deletion w0).read ≤ capacity
not_behind = omega (arith, two_sent)

wait_idle-returned_example :
    (turns first deletes
      (receipts (length (wait_idle deletion w0).procs.sent - (wait_idle deletion w0).read))
      (wait_idle deletion w0)).phase
    ≡ Phase.returned
wait_idle-returned_example =
    wait_idle-returned deletion w0 w0-Follows not_panicked all_deleted not_behind

abbrev read_too : List Event
read_too = Event.other (Op.deletes "a") ∷ Event.receive ∷ []

has_returned : (wait_idle read_too w0).phase ≡ Phase.returned
unfolding wait_idle run subscribe new_procs over proc new_proc get_state insert_proc alloc insert
    remove_if_not_running get remove
has_returned = refl

wait_idle-Moment_example : Moment first deletes IsEmpty read_too (start_waiting first deletes w0)
wait_idle-Moment_example = wait_idle-Moment read_too w0 has_returned

-- A process that runs, ends, and is said to have ended.
abbrev w1 : Procs
w1 = table one proc State.active

abbrev ends : List Event
ends = Event.other (Op.changes 0 over) ∷ Event.other (Op.ends "a") ∷ Event.receive ∷ []

has_ended : (wait_running ends w1).phase ≡ Phase.returned
unfolding wait_running proc new_proc over get_state apply notify
has_ended = refl

wait_running-Moment_example :
    Moment first_running stops NoneRuns ends (start_waiting first_running stops w1)
wait_running-Moment_example = wait_running-Moment ends w1 has_ended

-- The process has ended already, and is deleted during the second wait.
abbrev signalled : Handled
signalled = record {
  procs = set_shutdown State.done (wait_idle read_too (wait_running [] w0).procs).procs;
  kills = [];
}

handled : on_signal SignalStyle.term_then_kill [] read_too w0 ≡ done signalled
unfolding on_signal run subscribe new_procs over proc new_proc get_state insert_proc alloc insert
    remove_if_not_running get remove
handled = refl

on_signal-Ended_example : Ended [] read_too w0 SignalStyle.term_then_kill signalled
on_signal-Ended_example =
    on_signal-Ended SignalStyle.term_then_kill [] read_too w0 signalled handled

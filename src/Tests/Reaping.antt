-- ===== src/Tests/Reaping.antt =====
-- A process whose end is noticed.
use procstar.Prelude.{◌≡◌, refl, Bool, true, false, List, [], ◌∷◌, none, some}
use procstar.Sig.Watch.{Channels}
use procstar.Procs.Proc.{Proc}
use procstar.Procs.Units.{default_final}
use procstar.Procs.Running.{Wake, append_errors}
use procstar.Procs.Sigchld.{Event, started, steps}
use procstar.Tests.Data.{proc, ended}

-- A flag for a signal that has come, and one for a value that has not been seen.
abbrev flags : Channels
flags = record {
  Stream = Bool;
  raise = λ s. true;
  ready = λ s. s;
  recv = λ s. false;
  raise_ready = λ s. refl;
  Channel = Bool;
  send = λ c. true;
  has_changed = λ c. c;
  mark_seen = λ c. false;
  send_changed = λ c. refl;
}

abbrev wake : Wake
wake = record {
  proc_stat = none;
  waited = none;
  stop_time = 200;
  stop_instant = 20;
  fin = default_final;
}

abbrev errors : Proc → Proc
errors = append_errors ("failed to set up fd" ∷ [])

-- Another process ends and wakes the task; the process ends before the task has had its turn, and after it.
abbrev events : List Event
events =
    Event.other_child
    ∷ Event.watcher
    ∷ Event.task wake
    ∷ Event.other_child
    ∷ Event.child_ends ended
    ∷ []

over : (steps flags errors events (started flags errors false false proc)).ended ≡ some ended
unfolding steps
over = refl

-- ===== src/Procs/Sigchld.antt =====
-- How the task of a process comes to know of its end, of src/procs.rs and src/sig.rs: the end of the process, the
-- signals, the watcher and the task (`wait_for_proc`) take turns in any order.
use procstar.Prelude.{
  Bool, true, false, List, [], ◌∷◌, Option, none, some, Exec, done, bind_exec, if◌then◌else◌,
}
use procstar.Sig.Watch.{Channels, watch, signal}
use procstar.Procs.Proc.{Proc, WaitInfo}
use procstar.Procs.Running.{Wake, wait_for_proc}

-- The process ends, which raises SIGCHLD; another process's end raises it as well; the watcher has a turn; the
-- task has a turn, with what it reads if it is woken.
pub data Event : Type 0 where
  child_ends : WaitInfo → Event
  other_child : Event
  watcher : Event
  task : Wake → Event

module _ (k : Channels) (between : Proc → Proc) where
  open k use {Stream, Channel, raise}

  -- `ended` is what the system has for a wait; `over` says that the task has returned.
  pub record Reaper : Type 0 where
    pub stream : Stream
    pub channel : Channel
    pub ended : Option WaitInfo
    pub over : Bool
    pub proc : Exec Proc

  -- A process ends once.
  abbrev pub first_end : Option WaitInfo → WaitInfo → Option WaitInfo
  first_end none info = some info
  first_end (some old) info = some old

  abbrev pub is_ended : Option WaitInfo → Bool
  is_ended none = false
  is_ended (some info) = true

  -- One pass of the loop of `wait_for_proc`, whose wait does not block.
  abbrev pub pass : Wake → Reaper → Channel → Reaper
  pass wake r channel = record {
    stream = r.stream;
    channel = channel;
    ended = r.ended;
    over = is_ended r.ended;
    proc = bind_exec r.proc λ p. wait_for_proc between (record wake { waited = r.ended } ∷ []) p;
  }

  abbrev pub woken : Wake → Reaper → Option Channel → Reaper
  woken wake r none = r
  woken wake r (some channel) = pass wake r channel

  abbrev pub watched : Reaper → Stream × Channel → Reaper
  watched r (stream, channel) = record r { stream = stream; channel = channel }

  unfoldable pub step : Event → Reaper → Reaper
  unfolding watch signal wait_for_proc
  step (child_ends info) r = record r { ended = first_end r.ended info; stream = raise r.stream }
  step other_child r = record r { stream = raise r.stream }
  step watcher r = watched r (watch k (r.stream, r.channel))
  step (task wake) r = if r.over then r else woken wake r (signal k r.channel)

  unfoldable pub steps : List Event → Reaper → Reaper
  unfolding step
  steps [] r = r
  steps (event ∷ events) r = steps events (step event r)

  -- When the process has been started; the receiver is as the channel was made.
  abbrev pub started : Stream → Channel → Proc → Reaper
  started stream channel proc = record {
    stream = stream;
    channel = channel;
    ended = none;
    over = false;
    proc = done proc;
  }

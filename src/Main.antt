-- ===== src/Main.antt =====
-- src/main.rs: how the program runs until it exits, from a table of processes. What happens while it waits is a
-- list of turns (`Procs.Waiting.Event`); `none` means that it still waits at their end. Printing and
-- writing of results are arguments, as is the exit code of the exitcode crate.
pub mod Ended
pub mod Startup
pub mod Starts
pub mod Servers
use procstar.Prelude.{
  ℕ, suc, ◌+◌, Bool, true, false, String, List, [], ◌∷◌, Option, none, some, Result, ok, err,
  length, if◌then◌else◌, ◌&&◌,
}
use procstar.Io.{IoError}
use procstar.Shutdown.{State}
use procstar.Res.{Res}
use procstar.Sys.Files.{OpenFiles}
use procstar.Procs.Proc.{Snapshot}
use procstar.Procs.Table.{Notification, Procs, subscribe, set_shutdown, collect_results, is_empty}
use procstar.Procs.Start.{Outcome, returned, panics, exits, and_next, or_panic}
use procstar.Procs.Waiting.{
  Received, recv, Phase, Waiting, Event, turn, unsubscribe, wait_running, wait_idle,
  wait_for_shutdown,
}
use procstar.Procs.Changes.{apply}

-- `argv::Args`, with the options that these functions read.
pub record Args : Type 0 where
  pub exit : Bool
  pub print : Bool
  pub output : Option String
  pub wait : Bool
  pub agent : Bool

-- The other future of a `select!` is dropped, with its subscription.
abbrev pub after_phase : {A : Type 0} → Procs → Phase → (Procs → Outcome A) → Outcome (Option A)
after_phase w Phase.returned next = and_next (next w) λ a. returned (some a)
after_phase w (Phase.awaits proc_id) next =
    if wait_for_shutdown w
    then (and_next (next (unsubscribe w)) λ a. returned (some a))
    else returned none
after_phase w Phase.panicked next = panics

-- `select!` between a wait and `wait_for_shutdown`.
abbrev pub select : {A : Type 0} → Waiting → (Procs → Outcome A) → Outcome (Option A)
select s next = after_phase s.procs s.phase next

-- How results are written, and `exitcode::OSFILE`.
pub record Output : Type 0 where
  pub print : Res → Result IoError (Unit {0})
  pub dump_file : Res → String → Result IoError (Unit {0})
  pub osfile : ℕ

module _ (o : Output) where
  abbrev pub or_osfile : Result IoError (Unit {0}) → Outcome (Unit {0})
  or_osfile (ok _) = returned tt
  or_osfile (err e) = exits o.osfile

  abbrev pub dumped : Res → Option String → Outcome (Unit {0})
  dumped res none = returned tt
  dumped res (some path) = or_osfile (o.dump_file res path)

  abbrev pub printed : Res → Bool → Outcome (Unit {0})
  printed res true = or_osfile (o.print res)
  printed res false = returned tt

  -- Collects the results, writes them, and is ready to shut down.
  unfoldable pub report : Args → Snapshot → OpenFiles → Procs → Outcome (Procs × OpenFiles)
  unfolding collect_results set_shutdown
  report args s files w = and_next (or_panic (collect_results s files w)) λ ((res, files'), w').
      and_next (printed res args.print)
        λ _. and_next (dumped res args.output) λ _. returned (set_shutdown State.done w', files')

  unfoldable pub maybe_run_until_exit :
      Args → Snapshot → List Event → OpenFiles → Procs → Outcome (Option (Procs × OpenFiles))
  unfolding report wait_running wait_for_shutdown
  maybe_run_until_exit args s events files w =
      if args.exit
      then select (wait_running events w) (report args s files)
      else returned (some (w, files))

unfoldable pub wait_until_idle_then_shutdown : List Event → Procs → Outcome (Option Procs)
unfolding wait_idle set_shutdown wait_for_shutdown
wait_until_idle_then_shutdown events w =
    select (wait_idle events w) λ w'. returned (set_shutdown State.done w')

-- `wait_for_first_assignment`, for one receipt.
abbrev pub on_assignment : Waiting → Received → Waiting
on_assignment s Received.pending = s
on_assignment s Received.lagged = record s { phase = Phase.panicked }
on_assignment s (Received.got (Notification.start _)) = record {
  procs = unsubscribe s.procs;
  read = suc s.read;
  phase = Phase.returned;
}
on_assignment s (Received.got _) = record s { read = suc s.read }

abbrev pub assignment_turn : Event → Waiting → Phase → Waiting
assignment_turn (Event.other op) s phase = record s { procs = apply op s.procs }
assignment_turn Event.receive s (Phase.awaits proc_id) = on_assignment s (recv s.read s.procs)
assignment_turn Event.receive s Phase.returned = s
assignment_turn Event.receive s Phase.panicked = s

unfoldable pub assignment_turns : List Event → Waiting → Waiting
unfolding apply recv
assignment_turns [] s = s
assignment_turns (event ∷ events) s = assignment_turns events (assignment_turn event s s.phase)

-- Any process ends this wait; the id of the phase is not used.
unfoldable pub wait_for_first_assignment : List Event → Procs → Waiting
unfolding assignment_turns subscribe
wait_for_first_assignment events w =
    assignment_turns events
      (record { procs = subscribe w; read = length w.sent; phase = Phase.awaits "" })

-- The `select!` between a shutdown and the first assignment, whose time may have run out when the turns
-- end.
abbrev pub assigned :
    Bool → Procs → Phase → (Procs → Outcome (Option Procs)) → Outcome (Option Procs)
assigned late w Phase.returned next = next w
assigned late w Phase.panicked next = panics
assigned late w (Phase.awaits proc_id) next =
    if wait_for_shutdown w
    then returned (some (unsubscribe w))
    else if late
    then returned (some (set_shutdown State.done (unsubscribe w)))
    else returned none

unfoldable pub run_agent_until_idle :
    Bool → List Event → List Event → Procs → Outcome (Option Procs)
unfolding wait_until_idle_then_shutdown wait_for_first_assignment is_empty set_shutdown
    wait_for_shutdown
run_agent_until_idle late events idle_events w =
    let s = wait_for_first_assignment events w in
    if is_empty w
    then assigned late s.procs s.phase (λ w'. wait_until_idle_then_shutdown idle_events w')
    else wait_until_idle_then_shutdown idle_events w

unfoldable pub maybe_run_until_idle :
    Args → Bool → List Event → List Event → Procs → Outcome (Option Procs)
unfolding run_agent_until_idle wait_until_idle_then_shutdown
maybe_run_until_idle args late events idle_events w =
    if args.wait
    then (if args.agent
        then run_agent_until_idle late events idle_events w
        else wait_until_idle_then_shutdown idle_events w)
    else returned (some w)

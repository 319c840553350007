-- ===== src/Agent/Loop.antt =====
-- `run` of src/agent.rs as a whole: the agent connects, keeps up a session until the connection is over, and
-- connects again. What other tasks do before an attempt, what the network answers to it, and the events of
-- its session are the arguments.
use procstar.Prelude.{
  ℕ, Exec, done, panicked, List, [], ◌∷◌, Option, none, some, Result, ok, err, if◌then◌else◌,
}
use procstar.Shutdown.{is_done}
use procstar.Err
use procstar.Procs.Table.{subscribe, get_shutdown}
use procstar.Procs.Waiting.{unsubscribe}
use procstar.Procs.Changes.{Op, run}
use procstar.Procs.Start.{Outcome, returned, panics, and_next}
use procstar.Proto.{Machine}
use procstar.Agent.{ConnectConfig, Retry, after_failure, after_success}
use procstar.Agent.Session.{
  Wire, World, Event, Session, Status, open_, broken, is_over, run_session,
}
use procstar.Agent.Connect.{Connection, Network, connect}

pub record Attempt : Type 0 where
  pub before : List Op
  pub net : Network
  pub events : List Event

-- How the agent stands: it has returned; it has given up, with the error of the last attempt; a session is
-- open; or it is about to connect again.
pub data Loop : Type 0 where
  finished : Retry → World → Loop
  gave_up : Err.Error → Retry → World → Loop
  connected : Retry → Session → Loop
  goes_on : Retry → World → Loop

-- What other tasks do before the attempt.
abbrev pub met : List Op → World → World
met ops w = record w { procs = run ops w.procs }

-- A session begins with a subscription, and ends by dropping it.
abbrev pub opened : World → Session
opened w = record { world = record w { procs = subscribe w.procs }; sent = []; status = open_ }

abbrev pub closed : Session → World
closed s = record { procs = unsubscribe s.world.procs; files = s.world.files }

module _ {F : Type 0} (m : Machine) (wire : Wire) (mul_f64 : ℕ → F → Exec ℕ) (cfg : ConnectConfig F)
    (c : Connection) where
  -- After a failure: gives up, or sleeps and tries again.
  abbrev pub retried :
      Err.Error → Retry → World → Exec (Option Retry) → (Retry → Outcome Loop) → Outcome Loop
  retried e r w panicked next = panics
  retried e r w (done none) next = returned (gave_up e r w)
  retried e r w (done (some r')) next = next r'

  -- After a session: the connection is made again, unless the agent is done.
  abbrev pub reconnected : Retry → Session → Status → (World → Outcome Loop) → Outcome Loop
  reconnected r s open_ next = returned (connected r s)
  reconnected r s broken next = next (closed s)
  reconnected r s is_over next = returned (finished r (closed s))

  abbrev pub attempted :
      Result Err.Error (Unit {0})
      → List Event
      → Retry
      → World
      → (Retry → World → Outcome Loop)
      → Outcome Loop
  attempted (err e) events r w next = retried e r w (after_failure mul_f64 cfg r) λ r'. next r' w
  attempted (ok _) events r w next =
      and_next (run_session m wire events (opened w)) λ s.
        reconnected (after_success mul_f64 cfg r) s s.status (next (after_success mul_f64 cfg r))

  unfoldable pub run_from : List Attempt → Retry → World → Outcome Loop
  unfolding run get_shutdown connect after_failure run_session
  run_from [] r w = returned (goes_on r w)
  run_from (a ∷ attempts) r w =
      let w' = met a.before w in
      let next =
        attempted (connect wire a.net c w'.procs) a.events r w' λ r2 w2. run_from attempts r2 w2 in
      if is_done (get_shutdown w'.procs) then returned (finished r w') else next

  unfoldable pub run_agent : List Attempt → World → Outcome Loop
  unfolding run_from
  run_agent attempts w =
      run_from attempts (record { interval = cfg.interval_start; count = 0; slept = [] }) w

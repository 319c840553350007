-- ===== src/Main/Servers.antt =====
-- The servers that the program runs, of src/main.rs: the HTTP service and the agent, each up to where what
-- happens meanwhile has come. `none` means that it still runs.
use procstar.Prelude.{
  ℕ, Exec, Bool, true, false, String, List, Option, none, some, Result, ok, err, if◌then◌else◌,
}
use procstar.Procinfo.{ProcessInfo}
use procstar.Procs.Table.{Procs}
use procstar.Procs.Start.{Outcome, returned, panics, exits, and_next}
use procstar.Procs.Waiting.{wait_for_shutdown}
use procstar.Proto.{Machine, expand_hostname}
use procstar.Agent.{ConnectConfig}
use procstar.Agent.Session.{Wire, World}
use procstar.Agent.Connect.{Connection, new_connection}
use procstar.Agent.Loop.{Attempt, Loop, finished, gave_up, connected, goes_on, run_agent}

-- The `select!` between the service and a shutdown; the service ends only with an error, whose `unwrap`
-- panics.
unfoldable pub maybe_run_http :
    Bool → Option (Result String (Unit {0})) → Procs → Outcome (Option (Unit {0}))
unfolding wait_for_shutdown
maybe_run_http false res w = returned (some tt)
maybe_run_http true (some (ok _)) w = returned (some tt)
maybe_run_http true (some (err e)) w = panics
maybe_run_http true none w = if wait_for_shutdown w then returned (some tt) else returned none

-- The options of the agent's connection.
pub record AgentOptions : Type 0 where
  pub agent_host : Option String
  pub conn_id : Option String
  pub group_id : Option String

-- A loop that gives up exits with 1. After a shutdown the loop is awaited all the same, so that it
-- alone says when this is over.
abbrev pub after_loop : Loop → Outcome (Option World)
after_loop (finished r w) = returned (some w)
after_loop (gave_up e r w) = exits 1
after_loop (connected r s) = returned none
after_loop (goes_on r w) = returned none

module _ {F : Type 0} (m : Machine) (wire : Wire) (mul_f64 : ℕ → F → Exec ℕ)
    (cfg : ConnectConfig F) where
  -- `is_url` says whether the host makes a URL, `info` and `restricted_exe` are read when the connection is
  -- made, and `conn_id` is a random one.
  abbrev pub run_to :
      (String → Bool)
      → (AgentOptions → Connection)
      → AgentOptions
      → List Attempt
      → World
      → Option String
      → Outcome (Option World)
  run_to is_url connection o attempts w none = exits 2
  run_to is_url connection o attempts w (some hostname) =
      if is_url hostname
      then and_next (run_agent m wire mul_f64 cfg (connection o) attempts w) after_loop
      else panics

  unfoldable pub maybe_run_agent :
      (String → Option String)
      → (String → Bool)
      → String
      → Option String
      → ProcessInfo
      → Bool
      → AgentOptions
      → List Attempt
      → World
      → Outcome (Option World)
  unfolding run_agent expand_hostname new_connection
  maybe_run_agent getenv is_url conn_id restricted_exe info false o attempts w = returned (some w)
  maybe_run_agent getenv is_url conn_id restricted_exe info true o attempts w =
      run_to is_url (λ o. new_connection conn_id restricted_exe info o.conn_id o.group_id) o
        attempts w (expand_hostname getenv o.agent_host)

-- ===== src/Tests/Reconnecting.antt =====
-- An agent that fails to connect, loses its connection, and is done when it would connect again; once with
-- another subscriber to the notifications.
use procstar.Prelude.{done, ℕ, ◌*◌, List, [], ◌∷◌, err, ◌≡◌, refl, insert}
use procstar.Shutdown.{State}
use procstar.Err
use procstar.Agent.{ConnectConfig}
use procstar.Procs.Table.{subscribe, new_procs, set_shutdown}
use procstar.Procs.Changes.{Op, run, Follows}
use procstar.Agent.Session.{World, stream_ended}
use procstar.Agent.Connect.{Network}
use procstar.Agent.Loop.{Attempt, Loop, finished, run_agent}
use procstar.Agent.Ends.{Ends, run_agent-Ends}
use procstar.Agent.Surviving.{run_agent-Follows}
use procstar.Procs.Start.{returned}
use procstar.Tests.Messages.{started, started-Follows}
use procstar.Tests.Data.{machine}
use procstar.Tests.Connecting.{connection, wire, network, one_process}

abbrev pub cfg : ConnectConfig ℕ
cfg = record {
  interval_start = 5;
  interval_mult = 3;
  interval_max = 40;
  count_max = 3;
  read_timeout = 60;
}

abbrev unconnected : Network
unconnected = record network { web_socket = err Err.Error.eof }

abbrev pub attempts : List Attempt
attempts =
    (record { before = []; net = unconnected; events = [] })
    ∷ (record { before = []; net = unconnected; events = [] })
    ∷ (record { before = []; net = network; events = stream_ended ∷ [] })
    ∷ (record { before = Op.shuts State.done ∷ []; net = network; events = [] })
    ∷ []

abbrev pub world : World
world = record { procs = one_process; files = [] }

run_agent-Ends_example :
    Ends machine wire
      (λ n f. done (n * f))
      cfg
      connection
      (run_agent machine wire (λ n f. done (n * f)) cfg connection attempts world)
run_agent-Ends_example =
    run_agent-Ends machine wire (λ n f. done (n * f)) cfg connection attempts world

abbrev listening : World
listening = record { procs = started; files = [] }

abbrev ended : Loop
ended =
    finished (record { interval = 5; count = 0; slept = 15 ∷ 5 ∷ [] })
      (record { procs = run (Op.shuts State.done ∷ []) started; files = [] })

ends :
    run_agent machine wire (λ n f. done (n * f)) cfg connection attempts listening ≡ returned ended
unfolding run_agent run subscribe new_procs set_shutdown insert
ends = refl

run_agent-Follows_example : Follows (run (Op.shuts State.done ∷ []) started)
run_agent-Follows_example =
    run_agent-Follows machine wire (λ n f. done (n * f)) cfg connection attempts listening ended
      ends started-Follows

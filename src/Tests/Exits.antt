-- ===== src/Tests/Exits.antt =====
-- A run until exit.
use procstar.Prelude.{refl, true, false, List, [], ◌∷◌, some, ok, err}
use procstar.Shutdown.{State}
use procstar.Procs.Table.{Procs}
use procstar.Procs.Changes.{Op}
use procstar.Procs.Waiting.{Event}
use procstar.Main.{Args, Output, maybe_run_until_exit}
use procstar.Main.Ended.{Finished, maybe_run_until_exit-Finished}
use procstar.Tests.Data.{proc, over, table, one, snapshot, io_error}

abbrev args : Args
args = record { exit = true; print = true; output = some "/tmp/out"; wait = false; agent = false }

-- Printing succeeds, writing to the file fails.
abbrev output : Output
output = record { print = λ res. ok tt; dump_file = λ res path. err io_error; osfile = 72 }

abbrev one_running : Procs
one_running = table one proc State.active

-- The process ends, and its task says so.
abbrev ending : List Event
ending = Event.other (Op.changes 0 over) ∷ Event.other (Op.ends "a") ∷ Event.receive ∷ []

maybe_run_until_exit-Finished_example :
    Finished output args snapshot [] ending one_running
      (maybe_run_until_exit output args snapshot ending [] one_running)
maybe_run_until_exit-Finished_example =
    maybe_run_until_exit-Finished output args snapshot [] ending one_running refl

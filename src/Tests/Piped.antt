-- ===== src/Tests/Piped.antt =====
-- Processes that are connected by a pipe, the reader being set up first.
use procstar.Prelude.{◌≡◌, refl, List, [], ◌∷◌, Result, false, keys, string_key}
use procstar.Prelude.Sorted.{IsSorted-distinct}
use procstar.Shutdown
use procstar.Spec
use procstar.Spec.{ProcId}
use procstar.Spec.Wired.{Distinct}
use procstar.Err
use procstar.Procs.Table.{SharedProc, Procs}
use procstar.Procs.Start.{returned, start_procs}
use procstar.Procs.Started.{Started}
use procstar.Procs.Looped.{Works}
use procstar.Procs.Returns.{Ending, start_procs-returns}
use procstar.Tests.Data.{proc, table, spec_with, debug, pick, flags, answers, closes}

abbrev pub connected : Spec.Procs
connected =
    ("a", spec_with (("stdin", Spec.Fd.pipe_read "b" "stdout") ∷ []))
    ∷ ("b", spec_with (("stdout", Spec.Fd.pipe_write) ∷ []))
    ∷ []

connected-Distinct : Distinct (keys connected)
connected-Distinct = IsSorted-distinct connected ((refl, tt), (tt, tt))

pub answers-Works : (id : ProcId) → Works (answers id)
answers-Works id = record {
  vars = _;
  env_vars = refl;
  error_pipe = refl;
  event_fd = refl;
  makes_pipes = λ i. (_, refl);
  pid = _;
  forks = refl;
  write_event = refl;
}

start_procs-returns_example :
    (result : Result Err.Error (List SharedProc)) × (after : Procs) × (start_procs debug pick flags
        false answers closes connected
        (table [] proc Shutdown.State.active)
      ≡ returned (result, after))
    × Ending debug flags false answers closes pick connected
        (table [] proc Shutdown.State.active)
        (result, after)
    × Started connected [] (table [] proc Shutdown.State.active) result after
start_procs-returns_example =
    start_procs-returns debug flags false answers closes pick connected
      (table [] proc Shutdown.State.active) connected-Distinct
      (("true", [], refl), (("true", [], refl), tt)) answers-Works

-- ===== src/Tests/Http.antt =====
-- Requests over HTTP, and the notifications as steps of the abstract agent.
use procstar.Prelude.{
  ℕ, ◌≡◌, refl, String, List, [], ◌∷◌, Option, none, some, ok, str_eq, if◌then◌else◌, get,
}
use procstar.Shutdown
use procstar.Err
use procstar.Message.{proc_delete_request}
use procstar.Procs.Proc.{new_proc, get_state}
use procstar.Procs.Table.{Procs, new_procs, subscribe}
use procstar.Procs.Changes.{Op, run}
use procstar.Procs.Lifecycle.{Trace, view, new_view}
use procstar.Procs.Refined.{run-Trace}
use procstar.Procs.Start.{returned}
use procstar.Proto.{handle_incoming}
use procstar.Http.{Crates, Request, Match, Reply, Rsp, Body}
use procstar.Http.Status.{StatusCode, Method}
use procstar.Http.Handlers.{procs_id_delete}
use procstar.Http.Router.{dispatch}
use procstar.Http.Agreement.{Same, Twin, handle_incoming-Same}
use procstar.Http.Service.{
  Event, accepted, accept_failed, request, served, others, Service, run_http,
}
use procstar.Http.Served.{Served, run_http-Served}
use procstar.Tests.Data.{machine, proc, over, table, one}

abbrev changes : List Op
changes = Op.starts "b" over ∷ Op.shuts Shutdown.State.idling ∷ Op.deletes "b" ∷ []

run-Trace_example :
    Trace new_view
      (run changes (subscribe (new_procs λ r. proc))).sent
      (view (run changes (subscribe (new_procs λ r. proc))))
run-Trace_example = run-Trace (λ r. proc) changes

abbrev busy : Procs
busy = table one proc Shutdown.State.active

handle_incoming-Same_example :
    Same
      (handle_incoming machine (proc_delete_request "a") busy [])
      (procs_id_delete machine "a" busy [])
handle_incoming-Same_example =
    handle_incoming-Same machine (proc_delete_request "a") (procs_id_delete machine "a") busy []
      (Twin.delete "a")

-- A router that knows one path.
abbrev at : List (String × ℕ) → String → Option Match
at routes path =
    if str_eq path "/procs/a" then some (record { value = 1; param = λ p. some "a" }) else none

abbrev crates : Crates
crates = record {
  show_status = λ s. "status";
  to_string = λ v. ok "{}";
  from_slice = λ b. ok [];
  at = at;
}

abbrev deletion : Request
deletion = record { method = Method.delete; path = "/procs/a"; content_type = none; body = ok [] }

abbrev refusal : Reply Rsp
refusal = record {
  answer = record {
    status = StatusCode.bad_request;
    content_type = "application/json";
    body = Body.json "{}";
  };
  procs = busy;
  files = [];
}

refuses : dispatch crates machine deletion busy [] ≡ returned refusal
unfolding dispatch proc new_proc get_state get Err.display
refuses = refl

abbrev events : List Event
events =
    accepted
    ∷ request 0 deletion
    ∷ served 0 (ok tt)
    ∷ others (Op.shuts Shutdown.State.idling ∷ [])
    ∷ accept_failed "too many open files"
    ∷ accepted
    ∷ []

abbrev after_events : Service
after_events = record {
  procs = run (Op.shuts Shutdown.State.idling ∷ []) busy;
  files = [];
  count = 1;
  open_connections = [];
  responses = (0, refusal.answer) ∷ [];
  ended = some "too many open files";
}

serves : run_http crates machine (ok tt) events busy [] ≡ returned after_events
unfolding run_http run proc new_proc get_state get Err.display
serves = refl

run_http-Served_example : Served events none busy after_events
run_http-Served_example = run_http-Served crates machine (ok tt) events busy [] after_events serves

-- ===== src/Tests/Messages.antt =====
-- Messages of the server, and the connection to it.
use procstar.Prelude.{
  Exec, done, panicked, ltb, if◌then◌else◌, ℕ, ◌*◌, arith, ok, true, keys, insert, ℕ, ◌≡◌, ◌*◌, suc,
  refl, arith, List, [], ◌∷◌, ◌++◌, none, some, length, get, string_key,
}
use procstar.Shutdown
use procstar.Err
use procstar.Message.{
  IncomingMessage, OutgoingMessage, proc_delete_request, proc_unknown, request_error,
}
use procstar.Procs.Proc.{new_proc, get_state}
use procstar.Procs.Table.{Procs, get_proc, get_proc_ids, new_procs, subscribe}
use procstar.Procs.Changes.{Op, Follows, run}
use procstar.Procs.Following.{run-Follows}
use procstar.Procs.Start.{Outcome, returned}
use procstar.Proto.{Handled, handle_incoming}
use procstar.Proto.Laws.{Echoes, handle_incoming-Follows, handle_incoming-Echoes}
use procstar.Agent.{ConnectConfig, Retry, Turn, Run, gave_up}
use procstar.Agent.Backoff.{failing, Multiplies, run-failing}
use procstar.Agent as Agent
use procstar.Agent.Session.{Session, Event, Wire, WsMessage, open_, broken, run_session}
use procstar.Tests.Data.{machine, proc, over, table, one}

abbrev last_one : Procs
last_one = table one proc Shutdown.State.active

abbrev refused : Handled
refused = record {
  response = some (request_error (proc_delete_request "a") "process running: a");
  procs = last_one;
  files = [];
}

delete_refused : handle_incoming machine (proc_delete_request "a") last_one [] ≡ returned refused
unfolding handle_incoming proc new_proc get_state get Err.display
delete_refused = refl

handle_incoming-Echoes_example : Echoes (proc_delete_request "a") refused.response
handle_incoming-Echoes_example =
    handle_incoming-Echoes machine (proc_delete_request "a") last_one [] refused delete_refused

abbrev pub started : Procs
started = run (Op.starts "a" over ∷ []) (subscribe (new_procs λ r. proc))

pub started-Follows : Follows started
started-Follows = run-Follows (λ r. proc) (Op.starts "a" over ∷ [])

abbrev listed : Handled
listed = record {
  response = some (OutgoingMessage.procid_list ("a" ∷ []));
  procs = started;
  files = [];
}

handled : handle_incoming machine IncomingMessage.procid_list_request started [] ≡ returned listed
unfolding handle_incoming run subscribe new_procs get_proc_ids keys insert
handled = refl

handle_incoming-Follows_example : Follows started
handle_incoming-Follows_example =
    handle_incoming-Follows machine IncomingMessage.procid_list_request started [] listed handled
      started-Follows

not_there : get_proc "b" last_one ≡ none
unfolding get_proc get
not_there = refl

abbrev unknown_b : Outcome Handled
unknown_b = returned (record { response = some (proc_unknown "b"); procs = last_one; files = [] })

abbrev cfg : ConnectConfig ℕ
cfg = record {
  interval_start = 1;
  interval_mult = 2;
  interval_max = 3;
  count_max = 3;
  read_timeout = 60;
}

abbrev times : ℕ → ℕ → Exec ℕ
times a b = if ltb 18446744073709551615 (a * b) then panicked else done (a * b)

times-Multiplies : Multiplies times cfg
times-Multiplies interval short = (interval * 2, ground arith)

abbrev two_errors : List Err.Error
two_errors = Err.Error.eof ∷ Err.Error.register_timeout ∷ []

three : suc (length two_errors) ≡ cfg.count_max
three = omega arith

run-failing_example :
    (r : Retry) × (Agent.run times cfg (failing (two_errors ++ Err.Error.eof ∷ []))
      ≡ gave_up Err.Error.eof r)
    × (length r.slept ≡ length two_errors)
run-failing_example = run-failing times cfg two_errors Err.Error.eof times-Multiplies three

abbrev wire : Wire
wire = record { decode = λ b. ok IncomingMessage.procid_list_request; encode = λ msg. ok (1 ∷ []) }

abbrev opened : Session
opened = record { world = record { procs = started; files = [] }; sent = []; status = open_ }

-- A request is answered, then the server closes the connection.
abbrev events : List Event
events = Event.received (WsMessage.binary []) true ∷ Event.received WsMessage.close true ∷ []

abbrev closed_again : Session
closed_again = record {
  world = record { procs = started; files = [] };
  sent = WsMessage.binary (1 ∷ []) ∷ [];
  status = broken;
}

session_runs : run_session machine wire events opened ≡ returned closed_again
unfolding run_session
session_runs = refl

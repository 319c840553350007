-- ===== src/Tests/Running.antt =====
-- Processes, their table and their units.
use procstar.Prelude.{
  insert, length, pos, ◌≡◌, ◌↔◌, ◌<◌, ◌≤◌, refl, arith, false, not, ◌||◌, List, [], ◌∷◌, none, some,
  ok, err, done, All, if◌then◌else◌, ◌==◌, keys, contains, string_key,
}
use procstar.State
use procstar.Shutdown
use procstar.Spec
use procstar.Spec.{ProcId}
use procstar.Spec.Wired.{Distinct, IsWired}
use procstar.Spec.Validate.{validate_procs_fds}
use procstar.Fd.Pipes.{close}
use procstar.Err
use procstar.Res.{Res}
use procstar.Procs.Proc.{Proc, new_proc, to_result, get_state}
use procstar.Procs.Table.{
  Procs, Notification, new_procs, subscribe, pop, remove_if_not_running, send_signal_all,
  all_results, get_proc_ids, runs, get_shutdown,
}
use procstar.Procs.Changes.{Op, run, Follows}
use procstar.Procs.Following.{run-Follows}
use procstar.Procs.Removal.{
  Removed, Delivered, remove_if_not_running_cases, last-order, send_signal_all-ok,
}
use procstar.Procs.Units.{default_final, finalize_units}
use procstar.Procs.Finalize.{cleans_up, finalize_units_complete}
use procstar.Procs.Start.{returned, start_procs, check_start}
use procstar.Procs.Started.{Started, start_procs-Started, check_start_iff}
use procstar.Procs.Running.{Wake, LeavesAlone, Awaited, wait_for_proc, wait_for_proc-Awaited}
use procstar.Fd.Child.{Calls}
use procstar.Procs.Child.{ChildAnswers, ExecArgs, Allows, run_child, run_child-execs}
use procstar.Tests.Data.{
  io_error, proc, over, table, one, plain, wired, snapshot, kills, debug, pick, flags, answers,
  closes, ended, good_round, late_round, ends_with,
}

abbrev some_ops : List Op
some_ops =
    Op.starts "b" proc
    ∷ Op.starts "a" over
    ∷ Op.pops
    ∷ Op.shuts Shutdown.State.idling
    ∷ Op.deletes "b"
    ∷ Op.clears
    ∷ []

run-Follows_example : Follows (run some_ops (subscribe (new_procs λ r. proc)))
run-Follows_example = run-Follows (λ r. proc) some_ops

abbrev last_one : Procs
last_one = table one over Shutdown.State.idling

remove_if_not_running_cases_example :
    Removed "a" last_one
      (remove_if_not_running "a" last_one).0
      (remove_if_not_running "a" last_one).1
remove_if_not_running_cases_example = remove_if_not_running_cases "a" last_one

not_running : runs last_one.heap 0 ≡ false
unfolding over proc new_proc get_state
not_running = refl

heard : 0 < last_one.receivers
heard = omega arith

last-order_example :
    ((pop last_one).1.sent
      ≡ Notification.shut_down Shutdown.State.done ∷ Notification.delete "a" ∷ last_one.sent)
    × ((remove_if_not_running "a" last_one).1.sent
        ≡ Notification.delete "a" ∷ Notification.shut_down Shutdown.State.done ∷ last_one.sent)
last-order_example = last-order "a" 0 last_one refl refl heard not_running

send_signal_all-ok_example :
    (send_signal_all kills (pos 15) last_one ≡ ok tt)
    ↔ All (Delivered kills (pos 15) last_one.heap) last_one.procs
send_signal_all-ok_example = send_signal_all-ok kills (pos 15) last_one

abbrev empty : Procs
empty = table [] proc Shutdown.State.active

abbrev running_one : Procs
running_one = table one proc Shutdown.State.active

abbrev one_res : Res
one_res =
    (
      "a",
      record {
        state = State.State.running;
        errors = [];
        pid = pos 7;
        proc_stat = none;
        proc_statm = none;
        cgroup_accounting = none;
        systemd_enabled = false;
        scope_result = none;
        cleanup_incomplete = false;
        times = record { start = "time"; now = "time"; stop = none; elapsed = 10 };
        status = none;
        rusage = none;
        fds = [];
      },
    )
    ∷ []

result_made : all_results snapshot [] running_one ≡ done (one_res, [])
unfolding all_results to_result get_state proc new_proc
result_made = refl

ten : 10 ≤ 12
ten = omega arith

finalize_units_complete_example :
    (finalize_units ends_with
      (some "s.slice")
      (some "s.scope")
      (some (late_round, good_round))
      12).cleanup_incomplete
    ≡ not (
        cleans_up ends_with (some "s.scope") late_round
        || cleans_up ends_with (some "s.scope") good_round)
finalize_units_complete_example =
    finalize_units_complete ends_with "s.slice" (some "s.scope") late_round good_round 12 ten

second_round_completes :
    (finalize_units ends_with
      (some "s.slice")
      (some "s.scope")
      (some (late_round, good_round))
      12).cleanup_incomplete
    ≡ false
unfolding finalize_units
second_round_completes = refl

abbrev wakes : List Wake
wakes =
    (record {
      proc_stat = none;
      waited = none;
      stop_time = 0;
      stop_instant = 0;
      fin = default_final;
    })
    ∷ (record {
      proc_stat = none;
      waited = some ended;
      stop_time = 150;
      stop_instant = 15;
      fin = default_final;
    })
    ∷ []

undisturbed : LeavesAlone (λ p. p)
undisturbed = record { reaped = λ p. refl; wait_info = λ p. refl; start_instant = λ p. refl }

not_awaited : proc.wait_info ≡ none
unfolding proc new_proc
not_awaited = refl

wait_for_proc-Awaited_example :
    (after : Proc) × (wait_for_proc (λ p. p) wakes proc ≡ done after)
    × Awaited kills wakes proc after
wait_for_proc-Awaited_example =
    wait_for_proc-Awaited kills (λ p. p) wakes proc undisturbed not_awaited

distinct : Distinct (keys wired)
unfolding keys
distinct k = ground arith

check_start_iff_example : (check_start pick wired empty ≡ done (ok tt)) ↔ (
    All (λ id. contains (get_proc_ids empty) id ≡ false) (keys wired)
    × IsWired wired
    × (get_shutdown empty ≡ Shutdown.State.active))
check_start_iff_example = check_start_iff pick wired empty distinct

id_in_use :
    check_start pick plain last_one ≡ done (err (Err.Error.spec (Spec.duplicate_proc_id "a")))
unfolding check_start get_proc_ids keys
id_in_use = refl

abbrev begun : Procs
begun = record {
  heap = λ r. if 1 == r then new_proc (pos 7) none none false 100 10 [] else proc;
  next = 2;
  procs = ("a", 1) ∷ [];
  receivers = 1;
  sent = Notification.start "a" ∷ [];
  shutdown = Shutdown.State.active;
}

starts_one :
    start_procs debug pick flags false answers closes plain empty ≡ returned (ok (1 ∷ []), begun)
unfolding start_procs get_proc_ids get_shutdown keys validate_procs_fds close insert
starts_one = refl

start_procs-Started_example : Started plain [] empty (ok (1 ∷ [])) begun
start_procs-Started_example =
    start_procs-Started debug pick flags false answers closes plain empty begun (ok (1 ∷ []))
      starts_one

abbrev calls : Calls (Unit {0})
calls = record {
  close = λ fd w. (ok tt, w);
  dup2 = λ from to w. (ok tt, w);
  open_file = λ path flags mode w. (ok (pos 5), w);
}

abbrev child_os : ChildAnswers
child_os = record { setsid = ok tt; read_event = ok tt; execve = λ exe. io_error }

abbrev given : ExecArgs
given = ("/bin/true", "true" ∷ [], [])

execs : (run_child calls debug (some "/bin/true") child_os given [] tt).1 ≡ some given
unfolding run_child
execs = refl

run_child-execs_example :
    (given ≡ given)
    × Allows calls debug (some "/bin/true") "/bin/true"
    × (length (run_child calls debug (some "/bin/true") child_os given [] tt).0 ≡ 1)
run_child-execs_example =
    run_child-execs calls debug (some "/bin/true") child_os "/bin/true" ("true" ∷ []) [] given [] tt
      execs

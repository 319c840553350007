-- ===== src/Procs/Table.antt =====
-- `Procs` and `SharedProcs` of src/procs.rs: the table of processes, the notifications sent to
-- subscribers and the shutdown state.
use procstar.Prelude.{
  ℕ, zero, suc, ◌+◌, Bool, true, false, List, [], ◌∷◌, Option, none, some, Result, ok, err, Exec,
  done, bind_exec, BTreeMap, get, insert, remove, keys, string_key, if◌then◌else◌, ◌==◌, ◌&&◌, ltb,
  unwrap_or, length,
}
use procstar.State.{is_running}
use procstar.Shutdown
use procstar.Shutdown.{is_idling}
use procstar.Sig.{Signum}
use procstar.Spec.{ProcId}
use procstar.Err
use procstar.Res.{Res}
use procstar.Sys.Files.{OpenFiles}
use procstar.Procs.Proc.{Proc, Kill, Snapshot, get_state, send_signal, to_result}

-- `SharedProc`: a reference to a process on the heap.
abbrev pub SharedProc : Type 0
SharedProc = ℕ

pub data Notification : Type 0 where
  start : ProcId → Notification
  not_running : ProcId → Notification
  delete : ProcId → Notification
  shut_down : Shutdown.State → Notification

-- `subs` is the broadcast channel: how many receive, and what was sent while any did, latest first.
-- `next` is the first reference that is not in use.
pub record Procs : Type 0 where
  pub heap : SharedProc → Proc
  pub next : SharedProc
  pub procs : BTreeMap ProcId SharedProc
  pub receivers : ℕ
  pub sent : List Notification
  pub shutdown : Shutdown.State

-- `SharedProcs::new`, over any heap: nothing refers into it yet.
unfoldable pub new_procs : (SharedProc → Proc) → Procs
new_procs heap = record {
  heap = heap;
  next = 0;
  procs = [];
  receivers = 0;
  sent = [];
  shutdown = Shutdown.State.active;
}

-- `subscribe`: one more receiver.
unfoldable pub subscribe : Procs → Procs
subscribe w = record w { receivers = w.receivers + 1 }

-- `Rc::new(RefCell::new(proc))`.
abbrev pub update : (SharedProc → Proc) → SharedProc → Proc → SharedProc → Proc
update heap r proc other = if r == other then proc else heap other

unfoldable pub alloc : Proc → Procs → SharedProc × Procs
alloc proc w = (w.next, record w { heap = update w.heap w.next proc; next = suc w.next })

unfoldable pub notify : Notification → Procs → Procs
notify noti w = if ltb 0 w.receivers then record w { sent = noti ∷ w.sent } else w

unfoldable pub insert_proc : ProcId → SharedProc → Procs → Procs
unfolding notify
insert_proc proc_id proc w =
    notify (Notification.start proc_id) (record w { procs = insert proc_id proc w.procs })

unfoldable pub len : Procs → ℕ
len w = length w.procs

abbrev pub is_nil : {A : Type 0} → List A → Bool
is_nil [] = true
is_nil (_ ∷ _) = false

unfoldable pub is_empty : Procs → Bool
is_empty w = is_nil w.procs

unfoldable pub get_proc_ids : Procs → List ProcId
get_proc_ids w = keys w.procs

unfoldable pub get_proc : ProcId → Procs → Option SharedProc
get_proc proc_id w = get proc_id w.procs

abbrev pub head? : BTreeMap ProcId SharedProc → Option (ProcId × SharedProc)
head? [] = none
head? (p ∷ _) = some p

unfoldable pub first : Procs → Option (ProcId × SharedProc)
first w = head? w.procs

abbrev pub runs : (SharedProc → Proc) → SharedProc → Bool
runs heap r = is_running (get_state (heap r))

unfoldable pub first_running_in :
    (SharedProc → Proc) → BTreeMap ProcId SharedProc → Option (ProcId × SharedProc)
first_running_in heap [] = none
first_running_in heap ((proc_id, r) ∷ procs) =
    if runs heap r then some (proc_id, r) else first_running_in heap procs

unfoldable pub first_running : Procs → Option (ProcId × SharedProc)
unfolding first_running_in
first_running w = first_running_in w.heap w.procs

-- The first two statements of `set_shutdown`.
unfoldable pub announce : Shutdown.State → Procs → Procs
unfolding notify
announce state w = notify (Notification.shut_down state) (record w { shutdown = state })

-- `check_idling` and `set_shutdown` call each other; `none` means that the fuel ran out.
unfoldable pub check_idling_from : ℕ → Procs → Option Procs
unfolding announce is_empty
check_idling_from zero w = none
check_idling_from (suc fuel) w =
    let again = check_idling_from fuel (announce Shutdown.State.done w) in
    if is_empty w && is_idling w.shutdown then again else some w

-- Two rounds are enough: `check_idling_from-some`.
unfoldable pub check_idling : Procs → Procs
unfolding check_idling_from
check_idling w = unwrap_or (check_idling_from 2 w) w

unfoldable pub set_shutdown : Shutdown.State → Procs → Procs
unfolding announce check_idling
set_shutdown state w = check_idling (announce state w)

unfoldable pub get_shutdown : Procs → Shutdown.State
get_shutdown w = w.shutdown

unfoldable pub remove_if_not_running : ProcId → Procs → Result Err.Error SharedProc × Procs
unfolding check_idling notify
remove_if_not_running proc_id w = elim (get proc_id w.procs) [
  | none ↦ (err (Err.Error.no_proc_id proc_id), w)
  | some r ↦
      let w' = record w { procs = remove proc_id w.procs } in
      if runs w.heap r
      then (err (Err.Error.proc_running proc_id), w)
      else (ok r, notify (Notification.delete proc_id) (check_idling w'))
]

-- `pop_first`, then the notification, then the check.
abbrev pub pop_from : BTreeMap ProcId SharedProc → Procs → Option (ProcId × SharedProc) × Procs
pop_from [] w = (none, check_idling w)
pop_from ((proc_id, r) ∷ procs) w = (
  some (proc_id, r),
  check_idling (notify (Notification.delete proc_id) (record w { procs = procs })),
)

unfoldable pub pop : Procs → Option (ProcId × SharedProc) × Procs
unfolding check_idling notify
pop w = pop_from w.procs w

-- The results of the processes of a table, in its order.
unfoldable pub results_of :
    Snapshot → (SharedProc → Proc) → OpenFiles → BTreeMap ProcId SharedProc → Exec (Res × OpenFiles)
results_of s heap files [] = done ([], files)
results_of s heap files ((proc_id, r) ∷ procs) =
    bind_exec (to_result s files (heap r)) λ (res, files').
      bind_exec (results_of s heap files' procs) λ (rest, end). done ((proc_id, res) ∷ rest, end)

unfoldable pub all_results : Snapshot → OpenFiles → Procs → Exec (Res × OpenFiles)
unfolding results_of
all_results s files w = results_of s w.heap files w.procs

unfoldable pub notify_deleted : List ProcId → Procs → Procs
unfolding notify
notify_deleted [] w = w
notify_deleted (proc_id ∷ ids) w = notify_deleted ids (notify (Notification.delete proc_id) w)

-- The table after `collect_results` has swapped out the processes.
unfoldable pub clear : Procs → Procs
unfolding notify_deleted check_idling
clear w = check_idling (notify_deleted (keys w.procs) (record w { procs = [] }))

unfoldable pub collect_results : Snapshot → OpenFiles → Procs → Exec ((Res × OpenFiles) × Procs)
unfolding results_of clear
collect_results s files w = bind_exec (results_of s w.heap files w.procs) λ out. done (out, clear w)

-- The later failure stays.
abbrev pub keep_error :
    Result Err.Error (Unit {0}) → Result Err.Error (Unit {0}) → Result Err.Error (Unit {0})
keep_error result (ok _) = result
keep_error result (err e) = err e

unfoldable pub send_signal_from :
    Kill
    → Signum
    → (SharedProc → Proc)
    → BTreeMap ProcId SharedProc
    → Result Err.Error (Unit {0})
    → Result Err.Error (Unit {0})
send_signal_from kill signum heap [] result = result
send_signal_from kill signum heap ((_, r) ∷ procs) result =
    send_signal_from kill signum heap procs
      (if runs heap r then keep_error result (send_signal kill (heap r) signum) else result)

unfoldable pub send_signal_all : Kill → Signum → Procs → Result Err.Error (Unit {0})
unfolding send_signal_from
send_signal_all kill signum w = send_signal_from kill signum w.heap w.procs (ok tt)

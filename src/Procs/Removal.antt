-- ===== src/Procs/Removal.antt =====
-- Removing, signalling and reporting processes of src/procs.rs: what each answers, and what it does to
-- the table and to the log.
use procstar.Prelude.{
  ◌<◌, ◌≡◌, refl, arith, true, false, [], ◌∷◌, none, some, Result, ok, err, done, BTreeMap, get,
  remove, keys, get-remove, string_key, same, if◌then◌else◌, All, ◌↔◌, inl, inr, Option-cases,
  Bool-cases, Exec-cases, same_refl,
}
use procstar.Shutdown
use procstar.Spec.{ProcId}
use procstar.Sig.{Signum}
use procstar.Err
use procstar.Res.{Res}
use procstar.Sys.Files.{OpenFiles}
use procstar.Procs.Proc.{Proc, Kill, Snapshot, send_signal, to_result}
use procstar.Procs.Table.{
  SharedProc, Notification, Procs, runs, pop, check_idling, notify, remove_if_not_running,
  first_running, first_running_in, send_signal_from, send_signal_all, results_of, all_results,
  get_proc_ids, get_proc, is_empty,
}
use procstar.Procs.Idling.{check_idling-procs}

pub notify-procs : (noti : Notification) (w : Procs) → (notify noti w).procs ≡ w.procs
unfolding notify
notify-procs noti w = ground arith

-- What a request to delete a process does, case by case.
pub data Removed (id : ProcId) (w : Procs) (result : Result Err.Error SharedProc) (after : Procs)
    : Type 0 where
  unknown :
      get_proc id w ≡ none
      → result ≡ err (Err.Error.no_proc_id id)
      → after ≡ w
      → Removed id w result after
  refused :
      (r : SharedProc)
      → get_proc id w ≡ some r
      → runs w.heap r ≡ true
      → result ≡ err (Err.Error.proc_running id)
      → after ≡ w
      → Removed id w result after
  gone :
      (r : SharedProc)
      → get_proc id w ≡ some r
      → runs w.heap r ≡ false
      → result ≡ ok r
      → ((other : ProcId)
          → get_proc other after ≡ (if same id other then none else get_proc other w))
      → Removed id w result after

removed_get :
    (id : ProcId) (w : Procs) (other : ProcId)
    → get_proc other
        (notify (Notification.delete id) (check_idling (record w { procs = remove id w.procs })))
      ≡ (if same id other then none else get_proc other w)
unfolding get_proc
removed_get id w other =
    rw
      (
        notify-procs (Notification.delete id)
            (check_idling (record w { procs = remove id w.procs })),
        check_idling-procs (record w { procs = remove id w.procs }),
      )
      (get-remove id other w.procs)

-- Removing a process by its id has one of three outcomes: the id is not in the table, the answer is the
-- error for it and nothing changes; the process is running, the answer says so and nothing changes; or
-- the answer is the process, and afterwards the table lacks exactly its id.
pub remove_if_not_running_cases :
    (id : ProcId) (w : Procs)
    → Removed id w (remove_if_not_running id w).0 (remove_if_not_running id w).1
unfolding remove_if_not_running get_proc
remove_if_not_running_cases id w = elim (Option-cases (get id w.procs)) [
  | inl missing ↦ rw (missing, remove_if_not_running) (Removed.unknown missing refl refl)
  | inr (r, found) ↦ elim (Bool-cases (runs w.heap r)) [
    | inl running ↦
        rw (found, running, remove_if_not_running) (Removed.refused r found running refl refl)
    | inr over ↦
        rw (found, over, remove_if_not_running) (Removed.gone r found over refl (removed_get id w))
  ]
]

-- While an agent is idling and has subscribers, taking its last process out of the table announces both the deletion and
-- the end. `pop` announces the deletion first, `remove_if_not_running`, for a process that is not running, announces it last.
pub last-order :
    (id : ProcId) (r : SharedProc) (w : Procs)
    → w.procs ≡ (id, r) ∷ []
    → w.shutdown ≡ Shutdown.State.idling
    → 0 < w.receivers
    → runs w.heap r ≡ false
    → ((pop w).1.sent
        ≡ Notification.shut_down Shutdown.State.done ∷ Notification.delete id ∷ w.sent)
      × ((remove_if_not_running id w).1.sent
          ≡ Notification.delete id ∷ Notification.shut_down Shutdown.State.done ∷ w.sent)
unfolding pop remove_if_not_running check_idling notify is_empty get remove
last-order id r w one idling heard over =
    (rw (one) (ground arith), rw (one) (ground (arith, same_refl id)))

first_running_in-none :
    (heap : SharedProc → Proc) (m : BTreeMap ProcId SharedProc)
    → (first_running_in heap m ≡ none) ↔ All (λ (id, r). runs heap r ≡ false) m
unfolding first_running_in
first_running_in-none heap [] = ground arith
first_running_in-none heap ((id, r) ∷ m) = ground (arith, first_running_in-none heap m)

-- `wait_running` stops exactly where no process of the table is running.
pub first_running-none :
    (w : Procs) → (first_running w ≡ none) ↔ All (λ (id, r). runs w.heap r ≡ false) w.procs
unfolding first_running
first_running-none w = first_running_in-none w.heap w.procs

-- The signal reached a process, or was not for it.
abbrev pub Delivered : Kill → Signum → (SharedProc → Proc) → ProcId × SharedProc → Type 0
Delivered kill signum heap (id, r) = runs heap r ≡ true → send_signal kill (heap r) signum ≡ ok tt

send_signal_from-ok :
    (kill : Kill) (signum : Signum) (heap : SharedProc → Proc) (m : BTreeMap ProcId SharedProc)
    (result : Result Err.Error (Unit {0}))
    → (send_signal_from kill signum heap m result ≡ ok tt)
      ↔ ((result ≡ ok tt) × All (Delivered kill signum heap) m)
unfolding send_signal_from
send_signal_from-ok kill signum heap [] result = ground arith
send_signal_from-ok kill signum heap ((id, r) ∷ m) result = ground (
  arith,
  send_signal_from-ok kill signum heap m result,
  send_signal_from-ok kill signum heap m (send_signal kill (heap r) signum),
)

-- Signalling all processes succeeds exactly when the signal is delivered to each process that is running.
pub send_signal_all-ok :
    (kill : Kill) (signum : Signum) (w : Procs)
    → (send_signal_all kill signum w ≡ ok tt) ↔ All (Delivered kill signum w.heap) w.procs
unfolding send_signal_all
send_signal_all-ok kill signum w =
    ground (arith, send_signal_from-ok kill signum w.heap w.procs (ok tt))

results_of-keys :
    (s : Snapshot) (heap : SharedProc → Proc) (files : OpenFiles) (m : BTreeMap ProcId SharedProc)
    (res : Res) (after : OpenFiles)
    → results_of s heap files m ≡ done (res, after)
    → keys res ≡ keys m
unfolding results_of keys
results_of-keys s heap files [] res after h = cc
results_of-keys s heap files ((id, r) ∷ m) res after h =
    elim (Exec-cases (to_result s files (heap r))) [
      | inl ((proc_res, files'), e) ↦ elim (Exec-cases (results_of s heap files' m)) [
        | inl ((rest, end), e') ↦
            ground (arith, e, e', h, results_of-keys s heap files' m rest end e')
        | inr e' ↦ ground (arith, e, e', h)
      ]
      | inr e ↦ ground (arith, e, h)
    ]

-- A result, once made, has one entry for each process of the table, in the table's order.
all_results-keys :
    (s : Snapshot) (files : OpenFiles) (w : Procs) (res : Res) (after : OpenFiles)
    → all_results s files w ≡ done (res, after)
    → keys res ≡ get_proc_ids w
unfolding all_results get_proc_ids
all_results-keys s files w res after h = results_of-keys s w.heap files w.procs res after h

-- ===== src/Procs/Refined.antt =====
-- The table of src/procs.rs refines the abstract agent of `Lifecycle`.
use mathlib.Core.Path.{fun_ext}
use procstar.Prelude.{
  suc, ◌<◌, ◌≡◌, refl, ap, sym, subst, arith, Bool, false, List, [], ◌∷◌, BTreeMap, get, keys,
  insert, remove, same_refl, lt→ltb, ◌&&◌, ◌⊎◌, get-insert, get-remove, string_key, Bool-cases,
  Option-cases, inl, inr,
}
use procstar.Prelude.Sorted.{IsSorted, get-Above}
use procstar.Shutdown
use procstar.Shutdown.{is_idling}
use procstar.Spec.{ProcId}
use procstar.Procs.Proc.{Proc}
use procstar.Procs.Table.{
  SharedProc, Notification, Procs, runs, pop_from, update, notify, insert_proc, check_idling,
  set_shutdown, remove_if_not_running, pop, notify_deleted, clear, new_procs, subscribe, alloc,
  announce, is_empty,
}
use procstar.Procs.Changes.{
  is_some, Op, apply, run, Follows, starts, deletes, pops, clears, shuts, ends, changes,
}
use procstar.Procs.Following.{apply-Follows, get-cons, notify_deleted-lem, new_procs-Follows}
use procstar.Procs.Idling.{check_idling-procs, check_idling-receivers, notify_listened}
use procstar.Procs.Lifecycle.{View, Step, Trace, nothing, step, view, new_view}

abbrev Accepts : List Notification → View → Type 0
Accepts log v = Trace new_view log v

same_view :
    {log : List Notification} {p q : ProcId → Bool} {s : Shutdown.State}
    → ((id : ProcId) → p id ≡ q id)
    → Accepts log (record { present = p; state = s })
    → Accepts log (record { present = q; state = s })
same_view {log = log} {s = s} h a =
    subst (λ p. Accepts log (record { present = p; state = s })) (fun_ext h) a

-- With a subscriber, the check for idling does nothing, or it announces the end.
check_idling-cases :
    (w : Procs)
    → 0 < w.receivers
    → (check_idling w ≡ w)
      ⊎ (check_idling w ≡ record w {
        shutdown = Shutdown.State.done;
        sent = Notification.shut_down Shutdown.State.done ∷ w.sent;
      })
unfolding check_idling announce notify
check_idling-cases w heard = elim (Bool-cases (is_empty w && is_idling w.shutdown)) [
  | inr busy ↦ inl (rw (busy, check_idling) refl)
  | inl settles ↦ inr (rw (settles, check_idling, lt→ltb 0 w.receivers heard) (ground arith))
]

check_idling-Accepts :
    (p : ProcId → Bool) (w : Procs)
    → 0 < w.receivers
    → Accepts w.sent (record { present = p; state = w.shutdown })
    → Accepts (check_idling w).sent (record { present = p; state = (check_idling w).shutdown })
check_idling-Accepts p w heard a = elim (check_idling-cases w heard) [
  | inl e ↦ rw (e) a
  | inr e ↦ rw (e) (step a (Step.shut_down Shutdown.State.done))
]

view_checked :
    (w : Procs)
    → Accepts
        (check_idling w).sent
        (record { present = (view w).present; state = (check_idling w).shutdown })
    → Accepts (check_idling w).sent (view (check_idling w))
view_checked w a = same_view (λ id. ap (λ m. is_some (get id m)) (sym (check_idling-procs w))) a

starts-Accepts :
    (id : ProcId) (proc : Proc) (w : Procs)
    → 0 < w.receivers
    → Accepts w.sent (view w)
    → Accepts (apply (starts id proc) w).sent (view (apply (starts id proc) w))
unfolding apply insert_proc alloc
starts-Accepts id proc w heard a =
    rw
      (notify_listened (Notification.start id)
        (record w {
          heap = update w.heap w.next proc;
          next = suc w.next;
          procs = insert id w.next w.procs;
        })
        heard)
      (same_view (λ other. ground (arith, get-insert id other w.next w.procs))
        (step a (Step.start id)))

deletes-Accepts :
    (id : ProcId) (w : Procs)
    → 0 < w.receivers
    → Accepts w.sent (view w)
    → Accepts (apply (deletes id) w).sent (view (apply (deletes id) w))
unfolding apply remove_if_not_running
deletes-Accepts id w heard a = elim (Option-cases (get id w.procs)) [
  | inl missing ↦ rw (missing, apply, remove_if_not_running) a
  | inr (r, found) ↦ elim (Bool-cases (runs w.heap r)) [
    | inl running ↦ rw (found, running, apply, remove_if_not_running) a
    | inr over ↦
        let w' : Procs = record w { procs = remove id w.procs } in
        let heard' : 0 < (check_idling w').receivers =
          omega (arith, check_idling-receivers w', heard) in
        rw
          (
            found,
            over,
            apply,
            remove_if_not_running,
            notify_listened (Notification.delete id) (check_idling w') heard',
          )
          (same_view
            (λ other. ground (
              arith,
              ap (λ m. is_some (get other m)) (check_idling-procs w'),
              get-remove id other w.procs,
            ))
            (step (check_idling-Accepts (view w).present w' heard a)
              (Step.delete id (ap is_some found))))
  ]
]

pop_from-Accepts :
    (m : BTreeMap ProcId SharedProc) (w : Procs)
    → w.procs ≡ m
    → IsSorted m
    → 0 < w.receivers
    → Accepts w.sent (view w)
    → Accepts (pop_from m w).1.sent (view (pop_from m w).1)
pop_from-Accepts [] w e sorted heard a =
    view_checked w (check_idling-Accepts (view w).present w heard a)
pop_from-Accepts ((id, r) ∷ m) w e (above, sorted) heard a =
    let w' : Procs = record w { procs = m; sent = Notification.delete id ∷ w.sent } in
    rw (notify_listened (Notification.delete id) (record w { procs = m }) heard) (
      view_checked w' (
        check_idling-Accepts (view w').present w' heard (
          same_view
            (λ other. ground (
              arith,
              ap (λ n. is_some (get other n)) e,
              get-cons other id r m,
              get-Above id other m above,
            ))
            (step a (
              Step.delete id (
                ground
                  (arith, ap (λ n. is_some (get id n)) e, get-cons id id r m, same_refl id)))))))

-- The deletions of all processes of a table, one after the other.
notify_deleted-Accepts :
    (m : BTreeMap ProcId SharedProc) (w : Procs)
    → IsSorted m
    → 0 < w.receivers
    → Accepts w.sent (record { present = λ id. is_some (get id m); state = w.shutdown })
    → Accepts
        (notify_deleted (keys m) w).sent
        (record { present = λ id. false; state = (notify_deleted (keys m) w).shutdown })
unfolding notify_deleted keys get
notify_deleted-Accepts [] w sorted heard a = a
notify_deleted-Accepts ((id, r) ∷ m) w (above, sorted) heard a =
    rw (notify_listened (Notification.delete id) w heard, notify_deleted)
      (notify_deleted-Accepts m (record w { sent = Notification.delete id ∷ w.sent }) sorted heard
        (same_view (λ other. ground (arith, get-Above id other m above))
          (step a (Step.delete id (ground (arith, same_refl id))))))

clears-Accepts :
    (w : Procs) → Follows w → Accepts w.sent (view w) → Accepts (clear w).sent (view (clear w))
unfolding clear get
clears-Accepts w f a =
    let w' : Procs = record w { procs = [] } in
    let u : Procs = notify_deleted (keys w.procs) w' in
    let (no_procs, heard, log) = notify_deleted-lem (keys w.procs) w' f.listened in
    view_checked u (
      check_idling-Accepts (view u).present u (omega (arith, heard, f.listened)) (
        same_view (λ id. ap (λ m. is_some (get id m)) (sym no_procs))
          (notify_deleted-Accepts w.procs w' f.consistent.sorted f.listened a)))

apply-Accepts :
    (op : Op) (w : Procs)
    → Follows w
    → Accepts w.sent (view w)
    → Accepts (apply op w).sent (view (apply op w))
unfolding apply set_shutdown announce
apply-Accepts (starts id proc) w f a = starts-Accepts id proc w f.listened a
apply-Accepts (deletes id) w f a = deletes-Accepts id w f.listened a
apply-Accepts pops w f a =
    unfold pop in pop_from-Accepts w.procs w refl f.consistent.sorted f.listened a
apply-Accepts clears w f a = clears-Accepts w f a
apply-Accepts (shuts state) w f a =
    let w' : Procs = record w { shutdown = state; sent = Notification.shut_down state ∷ w.sent } in
    rw (notify_listened (Notification.shut_down state) (record w { shutdown = state }) f.listened) (
      view_checked w'
        (check_idling-Accepts (view w').present w' f.listened (step a (Step.shut_down state))))
apply-Accepts (ends id) w f a =
    rw (notify_listened (Notification.not_running id) w f.listened) (step a (Step.not_running id))
apply-Accepts (changes r proc) w f a = a

run_from-Accepts :
    (ops : List Op) (w : Procs)
    → Follows w
    → Accepts w.sent (view w)
    → Accepts (run ops w).sent (view (run ops w))
unfolding run
run_from-Accepts [] w f a = a
run_from-Accepts (op ∷ ops) w f a =
    run_from-Accepts ops (apply op w) (apply-Follows op w f) (apply-Accepts op w f a)

-- The table refines the abstract agent: from a new table with a subscriber, after any sequence of
-- changes, the notifications are steps that the abstract agent takes from no processes and the active
-- state, each deletion one of a process that is present, and they lead it to the processes and the
-- shutdown state of the table.
pub run-Trace :
    (heap : SharedProc → Proc) (ops : List Op)
    → Trace new_view
        (run ops (subscribe (new_procs heap))).sent
        (view (run ops (subscribe (new_procs heap))))
unfolding subscribe new_procs get
run-Trace heap ops =
    run_from-Accepts ops (subscribe (new_procs heap)) (new_procs-Follows heap) nothing

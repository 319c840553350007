-- ===== src/Procs/Evolving.antt =====
-- That one state of the shared table comes from another by the changes of `Changes`.
use procstar.Prelude.{
  ◌≡◌, refl, sym, ap, subst, ◌∙◌, arith, get, remove, keys, string_key, List, [], ◌∷◌, ◌++◌,
  Option-cases, Bool-cases, inl, inr,
}
use procstar.Spec.{ProcId}
use procstar.Prelude.{BTreeMap}
use procstar.Procs.Table.{
  SharedProc, Notification, Procs, notify, runs, announce, remove_if_not_running, insert_proc,
  alloc, pop, set_shutdown, clear, check_idling, notify_deleted, pop_from,
}
use procstar.Procs.Changes.{
  Op, apply, run, Follows, starts, deletes, pops, clears, shuts, ends, changes,
}
use procstar.Procs.Idling.{check_idling-receivers}
use procstar.Procs.Following.{run-Follows-from}

abbrev pub Evolves : Procs → Procs → Type 0
Evolves w w' = (ops : List Op) × (w' ≡ run ops w)

pub stays : (w : Procs) → Evolves w w
unfolding run
stays w = ([], refl)

pub one_change : (op : Op) (w : Procs) → Evolves w (apply op w)
unfolding run
one_change op w = (op ∷ [], refl)

run-append : (ops more : List Op) (w : Procs) → run (ops ++ more) w ≡ run more (run ops w)
unfolding run
run-append [] more w = refl
run-append (op ∷ ops) more w = run-append ops more (apply op w)

pub Evolves-trans : (w1 w2 w3 : Procs) → Evolves w1 w2 → Evolves w2 w3 → Evolves w1 w3
Evolves-trans w1 w2 w3 (ops, e) (more, h) =
    (ops ++ more, h ∙ ap (run more) e ∙ sym (run-append ops more w1))

pub Evolves-Follows : (w w' : Procs) → Evolves w w' → Follows w → Follows w'
Evolves-Follows w w' (ops, e) f = subst Follows (sym e) (run-Follows-from ops w f)

notify-receivers : (noti : Notification) (w : Procs) → (notify noti w).receivers ≡ w.receivers
unfolding notify
notify-receivers noti w = ground arith

notify_deleted-receivers :
    (ids : List ProcId) (w : Procs) → (notify_deleted ids w).receivers ≡ w.receivers
unfolding notify_deleted
notify_deleted-receivers [] w = refl
notify_deleted-receivers (id ∷ ids) w =
    notify_deleted-receivers ids (notify (Notification.delete id) w)
    ∙ notify-receivers (Notification.delete id) w

pop_from-receivers :
    (m : BTreeMap ProcId SharedProc) (w : Procs) → (pop_from m w).1.receivers ≡ w.receivers
pop_from-receivers [] w = check_idling-receivers w
pop_from-receivers ((id, r) ∷ m) w =
    check_idling-receivers (notify (Notification.delete id) (record w { procs = m }))
    ∙ notify-receivers (Notification.delete id) (record w { procs = m })

removed-receivers :
    (id : ProcId) (w : Procs) → (remove_if_not_running id w).1.receivers ≡ w.receivers
unfolding remove_if_not_running
removed-receivers id w = elim (Option-cases (get id w.procs)) [
  | inl missing ↦ rw (missing, remove_if_not_running) refl
  | inr (r, found) ↦ elim (Bool-cases (runs w.heap r)) [
    | inl running ↦ rw (found, running, remove_if_not_running) refl
    | inr over ↦
        let w' = record w { procs = remove id w.procs } in
        rw (found, over, remove_if_not_running)
          (notify-receivers (Notification.delete id) (check_idling w') ∙ check_idling-receivers w')
  ]
]

-- No change subscribes or unsubscribes.
apply-receivers : (op : Op) (w : Procs) → (apply op w).receivers ≡ w.receivers
unfolding apply pop clear
apply-receivers (starts id proc) w = unfold insert_proc in unfold alloc in notify-receivers _ _
apply-receivers (deletes id) w = removed-receivers id w
apply-receivers pops w = pop_from-receivers w.procs w
apply-receivers clears w =
    check_idling-receivers (notify_deleted (keys w.procs) (record w { procs = [] }))
    ∙ notify_deleted-receivers (keys w.procs) (record w { procs = [] })
apply-receivers (shuts state) w =
    unfold set_shutdown in
    (check_idling-receivers (announce state w)
      ∙ notify-receivers (Notification.shut_down state) (record w { shutdown = state }))
apply-receivers (ends id) w = notify-receivers (Notification.not_running id) w
apply-receivers (changes r proc) w = refl

run-receivers : (ops : List Op) (w : Procs) → (run ops w).receivers ≡ w.receivers
unfolding run
run-receivers [] w = refl
run-receivers (op ∷ ops) w = run-receivers ops (apply op w) ∙ apply-receivers op w

pub Evolves-receivers : (w w' : Procs) → Evolves w w' → w'.receivers ≡ w.receivers
Evolves-receivers w w' (ops, e) = ap (λ v. v.receivers) e ∙ run-receivers ops w

-- ===== src/Procs/Growing.antt =====
-- Whatever happens to the table, its log of notifications only grows.
use procstar.Prelude.{
  suc, ◌≡◌, refl, ap, ◌∙◌, sym, arith, true, false, List, [], ◌∷◌, ◌++◌, append_assoc, ltb, ◌&&◌,
  string_key, Bool-cases, Option-cases, inl, inr, get, keys, insert, remove, BTreeMap,
}
use procstar.Shutdown
use procstar.Shutdown.{is_idling}
use procstar.Spec.{ProcId}
use procstar.Procs.Table.{
  SharedProc, Notification, Procs, runs, notify, announce, check_idling, set_shutdown, update,
  is_empty, remove_if_not_running, pop, pop_from, notify_deleted, clear, insert_proc, alloc,
}
use procstar.Procs.Changes.{Op, apply, starts, pops, clears, shuts, ends, changes}

-- The log only grows.
abbrev pub Grows : Procs → Procs → Type 0
Grows w w' = (seg : List Notification) × (w'.sent ≡ seg ++ w.sent)

Grows-trans : (w1 w2 w3 : Procs) → Grows w1 w2 → Grows w2 w3 → Grows w1 w3
Grows-trans w1 w2 w3 (s, e) (t, f) =
    (t ++ s, f ∙ ap (λ l. t ++ l) e ∙ sym (append_assoc t s w1.sent))

notify-Grows : (noti : Notification) (w : Procs) → Grows w (notify noti w)
unfolding notify
notify-Grows noti w = elim (Bool-cases (ltb 0 w.receivers)) [
  | inl heard ↦ (noti ∷ [], rw (heard, notify) refl)
  | inr none_hears ↦ ([], rw (none_hears, notify) refl)
]

announced-check :
    (w : Procs)
    → (is_empty w && is_idling w.shutdown) ≡ true
    → (check_idling w).sent
      ≡ (notify
          (Notification.shut_down Shutdown.State.done)
          (record w { shutdown = Shutdown.State.done })).sent
unfolding check_idling announce is_empty
announced-check w h = ground arith

idle_check :
    (w : Procs) → (is_empty w && is_idling w.shutdown) ≡ false → (check_idling w).sent ≡ w.sent
unfolding check_idling is_empty
idle_check w h = ground arith

check_idling-Grows : (w : Procs) → Grows w (check_idling w)
check_idling-Grows w = elim (Bool-cases (is_empty w && is_idling w.shutdown)) [
  | inl settles ↦
      let (seg, e) =
        notify-Grows (Notification.shut_down Shutdown.State.done)
          (record w { shutdown = Shutdown.State.done }) in
      (seg, announced-check w settles ∙ e)
  | inr busy ↦ ([], idle_check w busy)
]

notify_deleted-Grows : (ids : List ProcId) (w : Procs) → Grows w (notify_deleted ids w)
unfolding notify_deleted
notify_deleted-Grows [] w = ([], refl)
notify_deleted-Grows (id ∷ ids) w =
    Grows-trans w (notify (Notification.delete id) w)
      (notify_deleted ids (notify (Notification.delete id) w))
      (notify-Grows (Notification.delete id) w)
      (notify_deleted-Grows ids (notify (Notification.delete id) w))

deletes-Grows : (id : ProcId) (w : Procs) → Grows w (apply (Op.deletes id) w)
unfolding apply remove_if_not_running
deletes-Grows id w = elim (Option-cases (get id w.procs)) [
  | inl missing ↦ ([], rw (missing, apply, remove_if_not_running) refl)
  | inr (r, found) ↦ elim (Bool-cases (runs w.heap r)) [
    | inl running ↦ ([], rw (found, running, apply, remove_if_not_running) refl)
    | inr over ↦
        let w' : Procs = record w { procs = remove id w.procs } in
        let (seg, e) =
          Grows-trans w (check_idling w') (notify (Notification.delete id) (check_idling w'))
            (check_idling-Grows w') (notify-Grows (Notification.delete id) (check_idling w')) in
        (seg, rw (found, over, apply, remove_if_not_running) e)
  ]
]

pop_from-Grows : (m : BTreeMap ProcId SharedProc) (w : Procs) → Grows w (pop_from m w).1
pop_from-Grows [] w = check_idling-Grows w
pop_from-Grows ((id, r) ∷ m) w =
    let w' : Procs = notify (Notification.delete id) (record w { procs = m }) in
    Grows-trans w w' (check_idling w')
      (notify-Grows (Notification.delete id) (record w { procs = m })) (check_idling-Grows w')

pub apply-Grows : (op : Op) (w : Procs) → Grows w (apply op w)
unfolding apply insert_proc alloc pop clear set_shutdown announce
apply-Grows (starts id proc) w = notify-Grows (Notification.start id) (record w {
  heap = update w.heap w.next proc;
  next = suc w.next;
  procs = insert id w.next w.procs;
})
apply-Grows (Op.deletes id) w = deletes-Grows id w
apply-Grows pops w = pop_from-Grows w.procs w
apply-Grows clears w =
    let w' : Procs = notify_deleted (keys w.procs) (record w { procs = [] }) in
    Grows-trans w w' (check_idling w')
      (notify_deleted-Grows (keys w.procs) (record w { procs = [] })) (check_idling-Grows w')
apply-Grows (shuts state) w =
    let w' : Procs = notify (Notification.shut_down state) (record w { shutdown = state }) in
    Grows-trans w w' (check_idling w')
      (notify-Grows (Notification.shut_down state) (record w { shutdown = state }))
      (check_idling-Grows w')
apply-Grows (ends id) w = notify-Grows (Notification.not_running id) w
apply-Grows (changes r proc) w = ([], refl)

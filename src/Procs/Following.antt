-- ===== src/Procs/Following.antt =====
-- How the changes of `Changes` act on what a subscriber of the table knows.
use procstar.Prelude.{
  suc, ◌<◌, ◌≡◌, refl, ap, ◌∙◌, sym, subst, arith, false, List, [], ◌∷◌, none, some, BTreeMap, get,
  insert, remove, keys, get-insert, get-remove, string_key, same, same_sym, contains, if◌then◌else◌,
  Bool-cases, Option-cases, inl, inr,
}
use procstar.Prelude.Sorted.{IsSorted, insert-IsSorted, remove-IsSorted, get-Above}
use procstar.Shutdown
use procstar.Shutdown.{is_idling}
use procstar.Spec.{ProcId}
use procstar.Procs.Proc.{Proc}
use procstar.Procs.Table.{
  SharedProc, Notification, Procs, runs, is_nil, pop_from, update, alloc, notify, insert_proc,
  is_empty, announce, check_idling, set_shutdown, remove_if_not_running, pop, notify_deleted, clear,
  new_procs, subscribe,
}
use procstar.Procs.Changes.{
  live, is_some, Op, apply, run, Follows, starts, deletes, pops, clears, shuts, ends, changes,
}
use procstar.Procs.Idling.{
  check_idling-procs, check_idling-receivers, check_idling-live, check_idling-settled,
  check_idling-Follows, notify_listened,
}

is_nil-insert :
    (id : ProcId) (r : SharedProc) (m : BTreeMap ProcId SharedProc) → is_nil (insert id r m) ≡ false
unfolding insert
is_nil-insert id r [] = refl
is_nil-insert id r ((j, s) ∷ m) = ground arith

starts-Follows :
    (id : ProcId) (proc : Proc) (w : Procs) → Follows w → Follows (apply (starts id proc) w)
unfolding apply insert_proc alloc is_empty
starts-Follows id proc w f =
    rw
      (notify_listened (Notification.start id)
        (record w {
          heap = update w.heap w.next proc;
          next = suc w.next;
          procs = insert id w.next w.procs;
        })
        f.listened)
      (record {
        consistent = record {
          sorted = insert-IsSorted id w.next w.procs f.consistent.sorted;
          settled = rw (is_nil-insert id w.next w.procs) refl;
        };
        listened = f.listened;
        tracks = λ other. ground (arith, get-insert id other w.next w.procs, f.tracks other);
      })

-- The entry is out of the table when the check is made, and the deletion is announced after it.
delete_checked-Follows :
    (id : ProcId) (w : Procs)
    → Follows w
    → Follows
        (notify (Notification.delete id) (check_idling (record w { procs = remove id w.procs })))
unfolding is_empty
delete_checked-Follows id w f =
    let w' : Procs = record w { procs = remove id w.procs } in
    let heard : 0 < (check_idling w').receivers =
      omega (arith, check_idling-receivers w', f.listened) in
    rw (notify_listened (Notification.delete id) (check_idling w') heard) (record {
      consistent = record {
        sorted =
            subst IsSorted (sym (check_idling-procs w'))
              (remove-IsSorted id w.procs f.consistent.sorted);
        settled = check_idling-settled w';
      };
      listened = heard;
      tracks = λ other. ground (
        arith,
        check_idling-live w' other,
        ap (λ m. is_some (get other m)) (check_idling-procs w'),
        get-remove id other w.procs,
        f.tracks other,
      );
    })

deletes-Follows : (id : ProcId) (w : Procs) → Follows w → Follows (apply (deletes id) w)
unfolding apply remove_if_not_running
deletes-Follows id w f = elim (Option-cases (get id w.procs)) [
  | inl missing ↦ rw (missing, apply, remove_if_not_running) f
  | inr (r, found) ↦ elim (Bool-cases (runs w.heap r)) [
    | inl running ↦ rw (found, running, apply, remove_if_not_running) f
    | inr over ↦ rw (found, over, apply, remove_if_not_running) (delete_checked-Follows id w f)
  ]
]

pub get-cons :
    (id j : ProcId) (r : SharedProc) (m : BTreeMap ProcId SharedProc)
    → get id ((j, r) ∷ m) ≡ (if same j id then some r else get id m)
unfolding get
get-cons id j r m = refl

get-nil : (id : ProcId) → get {V = SharedProc} id [] ≡ none
unfolding get
get-nil id = refl

pop_from-Follows :
    (m : BTreeMap ProcId SharedProc) (w : Procs)
    → w.procs ≡ m
    → Follows w
    → Follows (pop_from m w).1
pop_from-Follows [] w e f = check_idling-Follows w f.consistent.sorted f.listened f.tracks
pop_from-Follows ((id, r) ∷ m) w e f =
    let w' : Procs = record w { procs = m } in
    let (above, sorted) = subst IsSorted e f.consistent.sorted in
    rw (notify_listened (Notification.delete id) w' f.listened) (
      check_idling-Follows (record w' { sent = Notification.delete id ∷ w.sent }) sorted f.listened
        λ other. ground (
          arith,
          f.tracks other,
          ap (λ n. is_some (get other n)) e,
          get-cons other id r m,
          get-Above id other m above,
        ))

get-contains :
    (id : ProcId) (m : BTreeMap ProcId SharedProc) → is_some (get id m) ≡ contains (keys m) id
unfolding get keys
get-contains id [] = refl
get-contains id ((j, r) ∷ m) = ground (arith, get-contains id m, same_sym id j)

pub notify_deleted-lem :
    (ids : List ProcId) (w : Procs)
    → 0 < w.receivers
    → ((notify_deleted ids w).procs ≡ w.procs)
      × ((notify_deleted ids w).receivers ≡ w.receivers)
      × ((id : ProcId)
          → live id (notify_deleted ids w).sent
            ≡ (if contains ids id then false else live id w.sent))
unfolding notify_deleted
notify_deleted-lem [] w h = (refl, refl, λ id. refl)
notify_deleted-lem (j ∷ ids) w h =
    let (same_procs, same_receivers, log) =
      notify_deleted-lem ids (record w { sent = Notification.delete j ∷ w.sent }) h in
    rw (notify_listened (Notification.delete j) w h, notify_deleted)
      (same_procs, same_receivers, λ id. log id ∙ ground (arith, same_sym id j))

clears-Follows : (w : Procs) → Follows w → Follows (apply clears w)
unfolding apply clear
clears-Follows w f =
    let w' : Procs = record w { procs = [] } in
    let (no_procs, heard, log) = notify_deleted-lem (keys w.procs) w' f.listened in
    check_idling-Follows (notify_deleted (keys w.procs) w') (subst IsSorted (sym no_procs) tt)
      (omega (arith, heard, f.listened))
      λ id. ground (
        arith,
        log id,
        f.tracks id,
        get-contains id w.procs,
        ap (λ m. is_some (get id m)) no_procs,
        get-nil id,
      )

shuts-Follows : (state : Shutdown.State) (w : Procs) → Follows w → Follows (apply (shuts state) w)
unfolding apply set_shutdown announce
shuts-Follows state w f =
    rw (notify_listened (Notification.shut_down state) (record w { shutdown = state }) f.listened) (
      check_idling-Follows
        (record w { shutdown = state; sent = Notification.shut_down state ∷ w.sent })
        f.consistent.sorted f.listened f.tracks)

ends-Follows : (id : ProcId) (w : Procs) → Follows w → Follows (apply (ends id) w)
unfolding apply is_empty
ends-Follows id w f = rw (notify_listened (Notification.not_running id) w f.listened) (record {
  consistent = record { sorted = f.consistent.sorted; settled = f.consistent.settled };
  listened = f.listened;
  tracks = f.tracks;
})

pub apply-Follows : (op : Op) (w : Procs) → Follows w → Follows (apply op w)
unfolding apply is_empty
apply-Follows (starts id proc) w f = starts-Follows id proc w f
apply-Follows (deletes id) w f = deletes-Follows id w f
apply-Follows pops w f = unfold pop in pop_from-Follows w.procs w refl f
apply-Follows clears w f = clears-Follows w f
apply-Follows (shuts state) w f = shuts-Follows state w f
apply-Follows (ends id) w f = ends-Follows id w f
apply-Follows (changes r proc) w f = record {
  consistent = record { sorted = f.consistent.sorted; settled = f.consistent.settled };
  listened = f.listened;
  tracks = f.tracks;
}

pub run-Follows-from : (ops : List Op) (w : Procs) → Follows w → Follows (run ops w)
unfolding run
run-Follows-from [] w f = f
run-Follows-from (op ∷ ops) w f = run-Follows-from ops (apply op w) (apply-Follows op w f)

pub new_procs-Follows : (heap : SharedProc → Proc) → Follows (subscribe (new_procs heap))
unfolding subscribe new_procs is_empty get
new_procs-Follows heap = record {
  consistent = record { sorted = tt; settled = refl };
  listened = omega arith;
  tracks = λ id. refl;
}

-- From a new table with a subscriber, after any sequence of changes: the table is in the order of its
-- keys, an idling agent has a process left, and the log of notifications says of every process id whether
-- it is in the table.
pub run-Follows :
    (heap : SharedProc → Proc) (ops : List Op) → Follows (run ops (subscribe (new_procs heap)))
run-Follows heap ops = run-Follows-from ops (subscribe (new_procs heap)) (new_procs-Follows heap)

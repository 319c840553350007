-- ===== src/Procs/Alert.antt =====
-- A task that waits for the deletion of a process, as `wait_idle` of src/procs.rs does, cannot miss it.
use procstar.Prelude.{
  ℕ, suc, ◌≤◌, ◌≡◌, refl, ap, ◌∙◌, sym, subst, arith, true, false, List, [], ◌∷◌, some, length,
  length-append, string_key, Bool-cases, inl, inr, ◌⊎◌, get, BTreeMap, same_refl,
}
use procstar.Spec.{ProcId}
use procstar.Procs.Table.{SharedProc, Notification, Procs, is_empty, first, head?, subscribe}
use procstar.Procs.Changes.{live, is_some, Op, apply, Follows}
use procstar.Procs.Following.{get-cons, apply-Follows}
use procstar.Procs.Waiting.{
  at_position, recv, Phase, Waiting, Event, id_of, look, start_waiting, turn, turns, deletes,
  wait_idle, Received, await_target, on_received,
}
use procstar.Procs.Growing.{apply-Grows}
use procstar.Procs.Unread.{
  unread, unread-append, unread_deletion, unread-received, at_position-length,
}

-- The process that a task waits for is in the table, or its deletion is still to be read.
pub record Alert (w : Procs) (read : ℕ) (id : ProcId) : Type 0 where
  pub follows : Follows w
  pub position : read ≤ length w.sent
  pub alert : (is_some (get id w.procs) ≡ true) ⊎ (unread id read w.sent ≡ true)

abbrev pub IsAlert : Procs → ℕ → Phase → Type 0
IsAlert w read (Phase.awaits id) = Alert w read id
IsAlert w read Phase.returned = Unit
IsAlert w read Phase.panicked = Unit

apply-Alert :
    (op : Op) (w : Procs) (read : ℕ) (id : ProcId) → Alert w read id → Alert (apply op w) read id
apply-Alert op w read id a =
    let (seg, e) = apply-Grows op w in
    let f : Follows (apply op w) = apply-Follows op w a.follows in
    record {
      follows = f;
      position = omega (arith, a.position, ap length e, length-append seg w.sent);
      alert = elim a.alert [
        | inr waits ↦
            inr (
              subst (λ l. unread id read l ≡ true) (sym e) (unread-append id read seg w.sent waits))
        | inl there ↦ elim (Bool-cases (is_some (get id (apply op w).procs))) [
          | inl still ↦ inl still
          | inr gone ↦ inr (
              subst (λ l. unread id read l ≡ true) (sym e)
                (unread_deletion id read seg w.sent a.position (a.follows.tracks id ∙ there)
                  (ap (live id) (sym e) ∙ f.tracks id ∙ gone)))
        ]
      ];
    }

abbrev Ready : Waiting → Type 0
Ready s = IsAlert s.procs s.read s.phase

first-Alert :
    (m : BTreeMap ProcId SharedProc) (w : Procs) (read : ℕ)
    → w.procs ≡ m
    → Follows w
    → read ≤ length w.sent
    → Ready (await_target first deletes w read (id_of (head? m)))
first-Alert [] w read e f h = tt
first-Alert ((id, r) ∷ m) w read e f h = record {
  follows = f;
  position = h;
  alert = inl (ground (arith, ap (λ n. is_some (get id n)) e, get-cons id id r m, same_refl id));
}

look-Ready :
    (w : Procs) (read : ℕ) → Follows w → read ≤ length w.sent → Ready (look first deletes w read)
unfolding look first
look-Ready w read f h = first-Alert w.procs w read refl f h

recv-position :
    (read : ℕ) (w : Procs) (noti : Notification)
    → recv read w ≡ Received.got noti
    → at_position read w.sent ≡ some noti
unfolding recv
recv-position read w noti e = ground (arith, e)

-- A notification that does not end the wait.
pub passed-Alert :
    (w : Procs) (read : ℕ) (id : ProcId) (noti : Notification)
    → at_position read w.sent ≡ some noti
    → deletes id noti ≡ false
    → Alert w read id
    → Alert w (suc read) id
passed-Alert w read id noti here passed a = record {
  follows = a.follows;
  position = at_position-length read w.sent noti here;
  alert = elim a.alert [
    | inl there ↦ inl there
    | inr waits ↦ inr (unread-received id read w.sent noti waits here passed)
  ];
}

receive-Ready :
    (w : Procs) (read : ℕ) (id : ProcId) (got : Received)
    → recv read w ≡ got
    → Alert w read id
    → Ready (
        on_received first deletes
          (record { procs = w; read = read; phase = Phase.awaits id })
          id
          got)
receive-Ready w read id Received.pending e a = a
receive-Ready w read id Received.lagged e a = tt
receive-Ready w read id (Received.got noti) e a =
    let here : at_position read w.sent ≡ some noti = recv-position read w noti e in
    elim (Bool-cases (deletes id noti)) [
      | inl woken ↦
          rw (woken) (look-Ready w (suc read) a.follows (at_position-length read w.sent noti here))
      | inr passed ↦ rw (passed) (passed-Alert w read id noti here passed a)
    ]

turn-Ready :
    (event : Event) (w : Procs) (read : ℕ) (phase : Phase)
    → IsAlert w read phase
    → Ready (turn first deletes event (record { procs = w; read = read; phase = phase }))
unfolding turn
turn-Ready Event.receive w read (Phase.awaits id) a = receive-Ready w read id (recv read w) refl a
turn-Ready Event.receive w read Phase.returned a = tt
turn-Ready Event.receive w read Phase.panicked a = tt
turn-Ready (Event.other op) w read (Phase.awaits id) a = apply-Alert op w read id a
turn-Ready (Event.other op) w read Phase.returned a = tt
turn-Ready (Event.other op) w read Phase.panicked a = tt

turns-Ready : (events : List Event) (s : Waiting) → Ready s → Ready (turns first deletes events s)
unfolding turns
turns-Ready [] s a = a
turns-Ready (event ∷ events) s a =
    turns-Ready events (turn first deletes event s) (turn-Ready event s.procs s.read s.phase a)

pub subscribe-Follows : (w : Procs) → Follows w → Follows (subscribe w)
unfolding subscribe is_empty
subscribe-Follows w f = record {
  consistent = record { sorted = f.consistent.sorted; settled = f.consistent.settled };
  listened = omega arith;
  tracks = f.tracks;
}

pub wait_idle-Ready : (events : List Event) (w : Procs) → Follows w → Ready (wait_idle events w)
unfolding wait_idle start_waiting subscribe
wait_idle-Ready events w f =
    turns-Ready events (start_waiting first deletes w)
      (look-Ready (subscribe w) (length w.sent) (subscribe-Follows w f) (omega arith))

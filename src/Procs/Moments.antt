-- ===== src/Procs/Moments.antt =====
-- A task that waits, by a target and the notifications that wake it, returns at a moment at which it finds
-- no target.
use procstar.Prelude.{
  suc, ℕ, ◌≡◌, ◌≢◌, refl, ap, arith, Bool, true, false, List, [], ◌∷◌, ◌++◌, ◌⊎◌, length, inl, inr,
  if◌then◌else◌, string_key, Option, none, some,
}
use procstar.Spec.{ProcId}
use procstar.Procs.Table.{SharedProc, Notification, Procs, subscribe}
use procstar.Procs.Waiting.{
  Phase, Waiting, Event, Received, recv, id_of, await_target, look, on_received, turn, turns,
  start_waiting, unsubscribe,
}

awaits-ne : {id : ProcId} → Phase.awaits id ≢ Phase.returned
awaits-ne h = ground (arith, h)

phase_cases : (phase : Phase) → (phase ≡ Phase.returned) ⊎ (phase ≢ Phase.returned)
phase_cases (Phase.awaits id) = inr awaits-ne
phase_cases Phase.returned = inl refl
phase_cases Phase.panicked = inr (λ h. ground (arith, h))

module _ (target : Procs → Option (ProcId × SharedProc)) (wakes : ProcId → Notification → Bool)
    (Quiet : Procs → Type 0) where
  -- A task that has returned finds the table quiet.
  abbrev pub Found : Waiting → Type 0
  Found s = s.phase ≡ Phase.returned → Quiet s.procs

  -- The moment at which a task returns, among the events from some state on.
  pub record Moment (events : List Event) (s : Waiting) : Type 0 where
    pub until : List Event
    pub since : List Event
    pub split : until ++ since ≡ events
    pub over : (turns target wakes until s).phase ≡ Phase.returned
    pub quiet : Quiet (turns target wakes until s).procs

  at_once :
      (events : List Event) (s : Waiting) → Found s → s.phase ≡ Phase.returned → Moment events s
  unfolding turns
  at_once events s found h = record {
    until = [];
    since = events;
    split = refl;
    over = h;
    quiet = found h;
  }

  one_later :
      (event : Event) (events : List Event) (s : Waiting)
      → Moment events (turn target wakes event s)
      → Moment (event ∷ events) s
  unfolding turns
  one_later event events s m = record {
    until = event ∷ m.until;
    since = m.since;
    split = ap (λ es. event ∷ es) m.split;
    over = m.over;
    quiet = m.quiet;
  }

-- `quiet_if` says that the table is quiet where there is no target.
module _ (target : Procs → Option (ProcId × SharedProc)) (wakes : ProcId → Notification → Bool)
    (Quiet : Procs → Type 0)
    (quiet_if : (w : Procs) → target w ≡ none → Quiet (unsubscribe w)) where
  target-Found :
      (w : Procs) (read : ℕ) (found : Option (ProcId × SharedProc))
      → target w ≡ found
      → Found target wakes Quiet (await_target target wakes w read (id_of found))
  target-Found w read none e h = quiet_if w e
  target-Found w read (some (id, r)) e h = absurd (awaits-ne h)

  look-Found : (w : Procs) (read : ℕ) → Found target wakes Quiet (look target wakes w read)
  unfolding look
  look-Found w read = target-Found w read (target w) refl

  got-Found :
      (w : Procs) (read : ℕ) (id : ProcId) (woken : Bool)
      → Found target wakes Quiet (
          if woken
          then look target wakes w (suc read)
          else record { procs = w; read = suc read; phase = Phase.awaits id })
  got-Found w read id true = look-Found w (suc read)
  got-Found w read id false = λ h. absurd (awaits-ne h)

  on_received-Found :
      (w : Procs) (read : ℕ) (id : ProcId) (got : Received)
      → Found target wakes Quiet (
          on_received target wakes
            (record { procs = w; read = read; phase = Phase.awaits id })
            id
            got)
  on_received-Found w read id Received.pending = λ h. absurd (awaits-ne h)
  on_received-Found w read id Received.lagged = λ h. absurd (ground (arith, h))
  on_received-Found w read id (Received.got noti) = got-Found w read id (wakes id noti)

  turn-Found :
      (event : Event) (w : Procs) (read : ℕ) (phase : Phase)
      → phase ≢ Phase.returned
      → Found target wakes Quiet
          (turn target wakes event (record { procs = w; read = read; phase = phase }))
  unfolding turn
  turn-Found Event.receive w read (Phase.awaits id) going =
      on_received-Found w read id (recv read w)
  turn-Found Event.receive w read Phase.returned going = λ h. absurd (going refl)
  turn-Found Event.receive w read Phase.panicked going = λ h. absurd (going h)
  turn-Found (Event.other op) w read phase going = λ h. absurd (going h)

  turns-Moment :
      (events : List Event) (s : Waiting)
      → Found target wakes Quiet s
      → (turns target wakes events s).phase ≡ Phase.returned
      → Moment target wakes Quiet events s
  unfolding turns
  turns-Moment [] s found h = at_once target wakes Quiet [] s found h
  turns-Moment (event ∷ events) s found h = elim (phase_cases s.phase) [
    | inl over ↦ at_once target wakes Quiet (event ∷ events) s found over
    | inr going ↦ one_later target wakes Quiet event events s (
        turns-Moment events (turn target wakes event s)
          (turn-Found event s.procs s.read s.phase going) h)
  ]

  -- A task that has returned did so at a moment at which the table was quiet.
  pub start_waiting-Moment :
      (events : List Event) (w : Procs)
      → (turns target wakes events (start_waiting target wakes w)).phase ≡ Phase.returned
      → Moment target wakes Quiet events (start_waiting target wakes w)
  unfolding start_waiting
  start_waiting-Moment events w h =
      turns-Moment events (start_waiting target wakes w) (look-Found (subscribe w) (length w.sent))
        h

-- ===== src/Procs/Waiting.antt =====
-- Waiting for the processes, of src/procs.rs: a subscription to the notifications, `wait_running` and
-- `wait_idle`. The task that waits and the changes of other tasks take turns in any order (`Event`).
use procstar.Prelude.{
  ℕ, suc, ◌-◌, Bool, false, List, [], ◌∷◌, Option, none, some, length, ltb, ◌==◌, same, string_key,
  if◌then◌else◌,
}
use procstar.Spec.{ProcId}
use procstar.Shutdown.{is_done}
use procstar.Procs.Table.{
  SharedProc, Notification, Procs, subscribe, first, first_running, get_shutdown,
}
use procstar.Procs.Changes.{Op, apply}

-- `broadcast::channel(1024)`: a receiver that has more to read has lost some.
abbrev pub capacity : ℕ
capacity = 1024

-- The notification that was sent as number `k`, of a log with the latest first.
abbrev pub at_position : ℕ → List Notification → Option Notification
at_position k [] = none
at_position k (noti ∷ log) =
    let earlier = at_position k log in if length log == k then some noti else earlier

pub data Received : Type 0 where
  pending : Received
  lagged : Received
  got : Notification → Received

abbrev pub got_or_pending : Option Notification → Received
got_or_pending none = Received.pending
got_or_pending (some noti) = Received.got noti

-- `Receiver::recv` of a subscription that has read the first `read` notifications.
unfoldable pub recv : ℕ → Procs → Received
recv read w =
    if ltb capacity (length w.sent - read)
    then Received.lagged
    else got_or_pending (at_position read w.sent)

-- Where a task stands: in its inner loop for one process, or at its end. `NotificationSub::recv`
-- panics where notifications were lost.
pub data Phase : Type 0 where
  awaits : ProcId → Phase
  returned : Phase
  panicked : Phase

pub record Waiting : Type 0 where
  pub procs : Procs
  pub read : ℕ
  pub phase : Phase

pub data Event : Type 0 where
  receive : Event
  other : Op → Event

abbrev pub id_of : Option (ProcId × SharedProc) → Option ProcId
id_of none = none
id_of (some (proc_id, _)) = some proc_id

-- A subscription ends with the function that has it.
abbrev pub unsubscribe : Procs → Procs
unsubscribe w = record w { receivers = w.receivers - 1 }

-- Both functions: `target` is the process to wait for next, and `wakes` the notifications that end the
-- wait for it.
module _ (target : Procs → Option (ProcId × SharedProc))
    (wakes : ProcId → Notification → Bool) where
  abbrev pub await_target : Procs → ℕ → Option ProcId → Waiting
  await_target w read none = record { procs = unsubscribe w; read = read; phase = Phase.returned }
  await_target w read (some proc_id) = record {
    procs = w;
    read = read;
    phase = Phase.awaits proc_id;
  }

  -- The condition of the outer loop.
  unfoldable pub look : Procs → ℕ → Waiting
  look w read = await_target w read (id_of (target w))

  unfoldable pub start_waiting : Procs → Waiting
  unfolding look subscribe
  start_waiting w = look (subscribe w) (length w.sent)

  -- The inner loop, for one receipt.
  abbrev pub on_received : Waiting → ProcId → Received → Waiting
  on_received s proc_id Received.pending = s
  on_received s proc_id Received.lagged = record s { phase = Phase.panicked }
  on_received s proc_id (Received.got noti) =
      if wakes proc_id noti then look s.procs (suc s.read) else record s { read = suc s.read }

  abbrev pub on_turn : Waiting → Phase → Waiting
  on_turn s (Phase.awaits proc_id) = on_received s proc_id (recv s.read s.procs)
  on_turn s Phase.returned = s
  on_turn s Phase.panicked = s

  unfoldable pub turn : Event → Waiting → Waiting
  unfolding look recv apply
  turn Event.receive s = on_turn s s.phase
  turn (Event.other op) s = record s { procs = apply op s.procs }

  unfoldable pub turns : List Event → Waiting → Waiting
  unfolding turn
  turns [] s = s
  turns (event ∷ events) s = turns events (turn event s)

-- `NotRunning(i) | Delete(i) if i == proc_id`.
abbrev pub stops : ProcId → Notification → Bool
stops proc_id (Notification.not_running i) = same i proc_id
stops proc_id (Notification.delete i) = same i proc_id
stops proc_id _ = false

abbrev pub deletes : ProcId → Notification → Bool
deletes proc_id (Notification.delete i) = same i proc_id
deletes proc_id _ = false

unfoldable pub wait_running : List Event → Procs → Waiting
unfolding turns start_waiting first_running
wait_running events w = turns first_running stops events (start_waiting first_running stops w)

unfoldable pub wait_idle : List Event → Procs → Waiting
unfolding turns start_waiting first
wait_idle events w = turns first deletes events (start_waiting first deletes w)

-- `wait_for_shutdown`, whenever it is polled: a watch channel has the latest state alone.
unfoldable pub wait_for_shutdown : Procs → Bool
wait_for_shutdown w = is_done (get_shutdown w)

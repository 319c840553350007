-- ===== src/Agent/Session.antt =====
-- A session of an agent: `handle`, `notification_to_message`, `send_message` and the inner loop of `run` of
-- src/agent.rs, over the events of one connection.
use procstar.Prelude.{
  Bool, true, false, String, List, [], ◌∷◌, Option, none, some, Result, ok, err, if◌then◌else◌,
}
use procstar.Shutdown
use procstar.Io.{Bytes}
use procstar.Spec.{ProcId}
use procstar.Err
use procstar.Message.{IncomingMessage, OutgoingMessage, closed, wrong_message_type}
use procstar.Sys.Files.{OpenFiles}
use procstar.Procs.Proc.{to_result}
use procstar.Procs.Table.{Procs, Notification, get_proc}
use procstar.Procs.Changes.{Op, run}
use procstar.Procs.Start.{Outcome, returned, and_next, or_panic}
use procstar.Proto.{Machine, handle_incoming}

-- `tungstenite::Message`; any other message by its debug text.
pub data WsMessage : Type 0 where
  binary : Bytes → WsMessage
  ping : Bytes → WsMessage
  pong : Bytes → WsMessage
  close : WsMessage
  other : String → WsMessage

-- MessagePack.
pub record Wire : Type 0 where
  pub decode : Bytes → Result String IncomingMessage
  pub encode : OutgoingMessage → Result String Bytes

-- The shared state and the open files.
pub record World : Type 0 where
  pub procs : Procs
  pub files : OpenFiles

unfoldable pub serialize : Wire → OutgoingMessage → Result Err.Error Bytes
serialize wire msg = elim (wire.encode msg) [
  | ok data_ ↦ ok data_
  | err e ↦ err (Err.Error.rmp_encode e)
]

abbrev pub as_binary : Result Err.Error Bytes → Result Err.Error (Option WsMessage)
as_binary (ok bytes) = ok (some (WsMessage.binary bytes))
as_binary (err e) = err e

-- What the inner loop waits for: the ping is due, and its sending succeeds or not; the stream of messages
-- ends, or times out, or fails, or gives a message, whose response is sent or not; a notification comes,
-- whose message is sent or not; the subscription is closed. Between two events other tasks change the state.
pub data Event : Type 0 where
  ping_due : (sent : Bool) → Event
  stream_ended : Event
  timed_out : Event
  receive_failed : Event
  received : WsMessage → (sent : Bool) → Event
  notified : Notification → Event
  unsubscribed : Event
  others : List Op → Event

-- How the inner loop stands: the world, the messages handed to the socket, whether it
-- has sent them or not, latest first, and whether the loop
-- goes on, has been broken off, or is done.
pub data Status : Type 0 where
  open_ broken is_over : Status

pub record Session : Type 0 where
  pub world : World
  pub sent : List WsMessage
  pub status : Status

abbrev pub is_open : Status → Bool
is_open open_ = true
is_open _ = false

abbrev pub over_after : Notification → Status → Status
over_after (Notification.shut_down Shutdown.State.done) status = is_over
over_after _ status = status

abbrev pub broken_off : Session → Session
broken_off s = record s { status = broken }

module _ (m : Machine) (wire : Wire) where
  abbrev pub reply : Option OutgoingMessage → Result Err.Error (Option WsMessage)
  reply none = ok none
  reply (some rsp) = as_binary (serialize wire rsp)

  abbrev pub Reply : Type 0
  Reply = Result Err.Error (Option WsMessage) × World

  -- A message that is not understood is passed over.
  abbrev pub handle_decoded : Result String IncomingMessage → World → Outcome Reply
  handle_decoded (err e) w = returned (ok none, w)
  handle_decoded (ok msg) w =
      and_next (handle_incoming m msg w.procs w.files)
        λ out. returned (reply out.response, record { procs = out.procs; files = out.files })

  unfoldable pub handle : WsMessage → World → Outcome Reply
  unfolding handle_incoming serialize
  handle (WsMessage.binary bytes) w = handle_decoded (wire.decode bytes) w
  handle (WsMessage.ping payload) w = returned (ok (some (WsMessage.pong payload)), w)
  handle (WsMessage.pong _) w = returned (ok none, w)
  handle WsMessage.close w = returned (err (Err.Error.proto closed), w)
  handle (WsMessage.other text) w = returned (err (Err.Error.proto (wrong_message_type text)), w)

  abbrev pub current_result : ProcId → World → Outcome (Option OutgoingMessage × World)
  current_result proc_id w = elim (get_proc proc_id w.procs) [
    | none ↦ returned (none, w)
    | some r ↦ and_next (or_panic (to_result m.snapshot w.files (w.procs.heap r))) λ (res, files').
        returned (
          some (OutgoingMessage.proc_result proc_id res),
          record { procs = w.procs; files = files' },
        )
  ]

  unfoldable pub notification_to_message :
      Notification → World → Outcome (Option OutgoingMessage × World)
  unfolding get_proc to_result
  notification_to_message (Notification.start proc_id) w = current_result proc_id w
  notification_to_message (Notification.not_running proc_id) w = current_result proc_id w
  notification_to_message (Notification.delete proc_id) w =
      returned (some (OutgoingMessage.proc_delete proc_id), w)
  notification_to_message (Notification.shut_down state) w =
      returned (some (OutgoingMessage.shut_down state), w)

  -- The response goes to the socket; an error breaks the loop off.
  abbrev pub respond : Bool → Reply → Session → Session
  respond sent (ok none, w) s = record s { world = w }
  respond true (ok (some rsp), w) s = record s { world = w; sent = rsp ∷ s.sent }
  respond false (ok (some rsp), w) s = record s { world = w; sent = rsp ∷ s.sent; status = broken }
  respond sent (err e, w) s = record s { world = w; status = broken }

  -- `send_message`: a message that cannot be serialized is not sent.
  abbrev pub send_message : Option OutgoingMessage → List WsMessage → List WsMessage
  send_message none sent = sent
  send_message (some msg) sent = elim (serialize wire msg) [
    | ok bytes ↦ WsMessage.binary bytes ∷ sent
    | err e ↦ sent
  ]

  abbrev pub close_or_handle : WsMessage → Bool → Session → Outcome Session
  close_or_handle WsMessage.close sent s = returned (broken_off s)
  close_or_handle msg sent s = and_next (handle msg s.world) λ rsp. returned (respond sent rsp s)

  unfoldable pub on_event : Event → Session → Outcome Session
  unfolding handle notification_to_message serialize
  on_event (ping_due true) s = returned (record s { sent = WsMessage.ping [] ∷ s.sent })
  on_event (ping_due false) s =
      returned (broken_off (record s { sent = WsMessage.ping [] ∷ s.sent }))
  on_event stream_ended s = returned (broken_off s)
  on_event timed_out s = returned (broken_off s)
  on_event receive_failed s = returned (broken_off s)
  on_event (received msg sent) s = close_or_handle msg sent s
  on_event (notified noti) s = and_next (notification_to_message noti s.world) λ (msg, w').
      returned
        (record { world = w'; sent = send_message msg s.sent; status = over_after noti s.status })
  on_event unsubscribed s = returned s
  on_event (others ops) s =
      returned
        (record s { world = record { procs = run ops s.world.procs; files = s.world.files } })

  -- The inner loop, as long as it goes on and there are events.
  unfoldable pub run_session : List Event → Session → Outcome Session
  unfolding on_event
  run_session [] s = returned s
  run_session (event ∷ events) s =
      let rest = and_next (on_event event s) λ s'. run_session events s' in
      if is_open s.status then rest else returned s

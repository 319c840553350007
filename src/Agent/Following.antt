-- ===== src/Agent/Following.antt =====
-- What a session does to the shared state of the agent.
use procstar.Prelude.{
  ◌≡◌, refl, sym, ap, subst, Bool, true, false, List, [], ◌∷◌, Option, none, some, Result, ok, err,
  Option-cases, Bool-cases, inl, inr, String,
}
use procstar.Message.{IncomingMessage, OutgoingMessage}
use procstar.Spec.{ProcId}
use procstar.Procs.Table.{Notification, get_proc}
use procstar.Procs.Proc.{to_result}
use procstar.Procs.Changes.{Follows}
use procstar.Procs.Evolving.{Evolves, stays, Evolves-trans, Evolves-Follows}
use procstar.Procs.Start.{returned, or_panic, and_next}
use procstar.Procs.Returned.{and_next-eq, returned_inj}
use procstar.Proto.{Machine, handle_incoming}
use procstar.Proto.Laws.{handle_incoming-Evolves}
use procstar.Agent.Session.{
  Wire, World, WsMessage, Event, Session, ping_due, stream_ended, timed_out, receive_failed,
  received, notified, unsubscribed, others, binary, ping, pong, close, other, handle,
  handle_decoded, current_result, notification_to_message, respond, close_or_handle, on_event,
  run_session, is_open,
}

module _ (m : Machine) (wire : Wire) where
  handle_decoded-Evolves :
      (got : Result String IncomingMessage) (w w' : World) (rsp : _)
      → handle_decoded m wire got w ≡ returned (rsp, w')
      → Evolves w.procs w'.procs
  handle_decoded-Evolves (err e) w w' rsp h =
      subst (λ p. Evolves w.procs p.1.procs) (returned_inj h) (stays w.procs)
  handle_decoded-Evolves (ok msg) w w' rsp h =
      let (out, e, h1) = and_next-eq (handle_incoming m msg w.procs w.files) _ h in
      subst (λ p. Evolves w.procs p.1.procs) (returned_inj h1)
        (handle_incoming-Evolves m msg w.procs w.files out e)

  handle-Evolves :
      (msg : WsMessage) (w w' : World) (rsp : _)
      → handle m wire msg w ≡ returned (rsp, w')
      → Evolves w.procs w'.procs
  unfolding handle
  handle-Evolves (binary bytes) w w' rsp h = handle_decoded-Evolves (wire.decode bytes) w w' rsp h
  handle-Evolves (ping payload) w w' rsp h =
      subst (λ p. Evolves w.procs p.1.procs) (returned_inj h) (stays w.procs)
  handle-Evolves (pong payload) w w' rsp h =
      subst (λ p. Evolves w.procs p.1.procs) (returned_inj h) (stays w.procs)
  handle-Evolves close w w' rsp h =
      subst (λ p. Evolves w.procs p.1.procs) (returned_inj h) (stays w.procs)
  handle-Evolves (other text) w w' rsp h =
      subst (λ p. Evolves w.procs p.1.procs) (returned_inj h) (stays w.procs)

  respond-world :
      (sent : Bool) (rsp : _) (w : World) (s : Session) → (respond m wire sent (rsp, w) s).world ≡ w
  respond-world sent (ok none) w s = refl
  respond-world true (ok (some msg)) w s = refl
  respond-world false (ok (some msg)) w s = refl
  respond-world sent (err e) w s = refl

  handled-Evolves :
      (msg : WsMessage) (sent : Bool) (s s' : Session)
      → and_next (handle m wire msg s.world) (λ rsp. returned (respond m wire sent rsp s))
        ≡ returned s'
      → Evolves s.world.procs s'.world.procs
  handled-Evolves msg sent s s' h =
      let ((rsp, w'), e, h1) = and_next-eq (handle m wire msg s.world) _ h in
      subst (λ t. Evolves s.world.procs t.world.procs) (returned_inj h1)
        (subst (λ w. Evolves s.world.procs w.procs) (sym (respond-world sent rsp w' s))
          (handle-Evolves msg s.world w' rsp e))

  close_or_handle-Evolves :
      (msg : WsMessage) (sent : Bool) (s s' : Session)
      → close_or_handle m wire msg sent s ≡ returned s'
      → Evolves s.world.procs s'.world.procs
  close_or_handle-Evolves close sent s s' h =
      subst (λ t. Evolves s.world.procs t.world.procs) (returned_inj h) (stays s.world.procs)
  close_or_handle-Evolves (binary bytes) sent s s' h = handled-Evolves (binary bytes) sent s s' h
  close_or_handle-Evolves (ping payload) sent s s' h = handled-Evolves (ping payload) sent s s' h
  close_or_handle-Evolves (pong payload) sent s s' h = handled-Evolves (pong payload) sent s s' h
  close_or_handle-Evolves (other text) sent s s' h = handled-Evolves (other text) sent s s' h

  -- Looking up a result leaves the table alone.
  current_result-procs :
      (id : ProcId) (w w' : World) (msg : Option OutgoingMessage)
      → current_result m wire id w ≡ returned (msg, w')
      → w'.procs ≡ w.procs
  current_result-procs id w w' msg h = elim (Option-cases (get_proc id w.procs)) [
    | inl missing ↦ ap (λ p. p.1.procs) (sym (returned_inj (rw (missing, current_result) at h)))
    | inr (r, found) ↦
        let ((res, files'), _, h1) =
          and_next-eq (or_panic (to_result m.snapshot w.files (w.procs.heap r))) _
            (rw (found, current_result) at h) in
        ap (λ p. p.1.procs) (sym (returned_inj h1))
  ]

  notification-procs :
      (noti : Notification) (w w' : World) (msg : Option OutgoingMessage)
      → notification_to_message m wire noti w ≡ returned (msg, w')
      → w'.procs ≡ w.procs
  unfolding notification_to_message
  notification-procs (Notification.start id) w w' msg h = current_result-procs id w w' msg h
  notification-procs (Notification.not_running id) w w' msg h = current_result-procs id w w' msg h
  notification-procs (Notification.delete id) w w' msg h =
      ap (λ p. p.1.procs) (sym (returned_inj h))
  notification-procs (Notification.shut_down state) w w' msg h =
      ap (λ p. p.1.procs) (sym (returned_inj h))

  on_event-Evolves :
      (event : Event) (s s' : Session)
      → on_event m wire event s ≡ returned s'
      → Evolves s.world.procs s'.world.procs
  unfolding on_event
  on_event-Evolves (ping_due true) s s' h =
      subst (λ t. Evolves s.world.procs t.world.procs) (returned_inj h) (stays s.world.procs)
  on_event-Evolves (ping_due false) s s' h =
      subst (λ t. Evolves s.world.procs t.world.procs) (returned_inj h) (stays s.world.procs)
  on_event-Evolves stream_ended s s' h =
      subst (λ t. Evolves s.world.procs t.world.procs) (returned_inj h) (stays s.world.procs)
  on_event-Evolves timed_out s s' h =
      subst (λ t. Evolves s.world.procs t.world.procs) (returned_inj h) (stays s.world.procs)
  on_event-Evolves receive_failed s s' h =
      subst (λ t. Evolves s.world.procs t.world.procs) (returned_inj h) (stays s.world.procs)
  on_event-Evolves (received msg sent) s s' h = close_or_handle-Evolves msg sent s s' h
  on_event-Evolves (notified noti) s s' h =
      let ((msg, w'), e, h1) = and_next-eq (notification_to_message m wire noti s.world) _ h in
      subst (λ t. Evolves s.world.procs t.world.procs) (returned_inj h1)
        (subst (Evolves s.world.procs) (sym (notification-procs noti s.world w' msg e))
          (stays s.world.procs))
  on_event-Evolves unsubscribed s s' h =
      subst (λ t. Evolves s.world.procs t.world.procs) (returned_inj h) (stays s.world.procs)
  on_event-Evolves (others ops) s s' h =
      subst (λ t. Evolves s.world.procs t.world.procs) (returned_inj h) (ops, refl)

  pub run_session-Evolves :
      (events : List Event) (s s' : Session)
      → run_session m wire events s ≡ returned s'
      → Evolves s.world.procs s'.world.procs
  unfolding run_session
  run_session-Evolves [] s s' h =
      subst (λ t. Evolves s.world.procs t.world.procs) (returned_inj h) (stays s.world.procs)
  run_session-Evolves (event ∷ events) s s' h = elim (Bool-cases (is_open s.status)) [
    | inr ended ↦
        subst (λ t. Evolves s.world.procs t.world.procs)
          (returned_inj (rw (ended, run_session) at h)) (stays s.world.procs)
    | inl going ↦
        let (s1, e, h1) = and_next-eq (on_event m wire event s) _ (rw (going, run_session) at h) in
        Evolves-trans s.world.procs s1.world.procs s'.world.procs (on_event-Evolves event s s1 e)
          (run_session-Evolves events s1 s' h1)
  ]

  -- If the inner loop of an agent returns, then a subscriber that followed the notifications before the session
  -- still does so after it, whatever has come over the connection and whatever other tasks have
  -- changed in between.
  pub run_session-Follows :
      (events : List Event) (s s' : Session)
      → run_session m wire events s ≡ returned s'
      → Follows s.world.procs
      → Follows s'.world.procs
  run_session-Follows events s s' h =
      Evolves-Follows s.world.procs s'.world.procs (run_session-Evolves events s s' h)

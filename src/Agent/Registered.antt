-- ===== src/Agent/Registered.antt =====
-- When an agent is connected to its server.
use procstar.Prelude.{
  ◌≡◌, ◌≢◌, ◌↔◌, arith, Result-cases, refl, ap, ◌∙◌, true, Option, none, some, Result, ok, err,
  and_then, if◌then◌else◌, and_then-eq-ok, Bool-cases, inl, inr,
}
use procstar.Io.{Bytes}
use procstar.Err
use procstar.Message.{IncomingMessage, OutgoingMessage, registered}
use procstar.Procs.Table.{Procs}
use procstar.Agent.Session.{Wire, WsMessage, serialize}
use procstar.Agent.Connect.{
  Connection, Network, send, deserialize, received, first_of, receive, expect_registered,
  registration, do_register, connect,
}

err-ne : {E A : Type 0} {e : E} {a : A} → err e ≢ ok a
err-ne h = ground (arith, h)

ok_inj : {E A : Type 0} {a b : A} → Path (Result E A) (ok a) (ok b) → a ≡ b
ok_inj h = cc

and_then_ok :
    {E A B : Type 0} (m : Result E A) (f : A → Result E B) {a : A} → m ≡ ok a → and_then m f ≡ f a
and_then_ok m f h = rw (h) refl

same_ok :
    {E F A : Type 0} {a b : A} → Path (Result E A) (ok a) (ok b) → Path (Result F A) (ok a) (ok b)
same_ok h = ap ok (ok_inj h)

module _ (wire : Wire) (net : Network) where
  -- What a connection needs.
  pub record Registers (c : Connection) (w : Procs) : Type 0 where
    pub tls : net.tls_connector ≡ ok tt
    pub socket : net.web_socket ≡ ok tt
    pub bytes : Bytes
    pub encoded : wire.encode (registration wire net c w) ≡ ok bytes
    pub sent : net.sends bytes ≡ ok tt
    pub reply : Bytes
    pub first : net.first ≡ some (ok (WsMessage.binary reply))
    pub decoded : wire.decode reply ≡ ok registered
    pub timely : net.in_time ≡ true

  send_ok :
      (msg : OutgoingMessage) (bytes : Bytes)
      → wire.encode msg ≡ ok bytes
      → net.sends bytes ≡ ok tt
      → send wire net msg ≡ ok tt
  unfolding send serialize
  send_ok msg bytes e h = rw (e, send, serialize) h

  receive_ok :
      (reply : Bytes) (msg : IncomingMessage)
      → net.first ≡ some (ok (WsMessage.binary reply))
      → wire.decode reply ≡ ok msg
      → receive wire net ≡ ok msg
  unfolding receive deserialize
  receive_ok reply msg e h = ap (first_of wire net) e ∙ rw (h, deserialize) refl

  Registers-connect : (c : Connection) (w : Procs) → Registers c w → connect wire net c w ≡ ok tt
  unfolding connect do_register
  Registers-connect c w r =
      and_then_ok net.tls_connector _ r.tls
      ∙ ap (λ b. if b then do_register wire net c w else err Err.Error.register_timeout) r.timely
      ∙ and_then_ok net.web_socket _ r.socket
      ∙ and_then_ok (send wire net (registration wire net c w)) _
          (send_ok (registration wire net c w) r.bytes r.encoded r.sent)
      ∙ and_then_ok (receive wire net) _ (receive_ok r.reply registered r.first r.decoded)

  serialize-ok :
      (msg : OutgoingMessage) (bytes : Bytes)
      → serialize wire msg ≡ ok bytes
      → wire.encode msg ≡ ok bytes
  unfolding serialize
  serialize-ok msg bytes h = elim (Result-cases (wire.encode msg)) [
    | inl (b, e) ↦ e ∙ same_ok (rw (e, serialize) at h)
    | inr (x, e) ↦ absurd (err-ne (rw (e, serialize) at h))
  ]

  deserialize-ok :
      (bytes : Bytes) (msg : IncomingMessage)
      → deserialize wire net bytes ≡ ok msg
      → wire.decode bytes ≡ ok msg
  unfolding deserialize
  deserialize-ok bytes msg h = elim (Result-cases (wire.decode bytes)) [
    | inl (m, e) ↦ e ∙ same_ok (rw (e, deserialize) at h)
    | inr (x, e) ↦ absurd (err-ne (rw (e, deserialize) at h))
  ]

  expect_registered-ok :
      (msg : IncomingMessage) → expect_registered wire net msg ≡ ok tt → msg ≡ registered
  expect_registered-ok msg h = ground arith

  received-ok :
      (m : WsMessage) (msg : IncomingMessage)
      → received wire net m ≡ ok msg
      → (bytes : Bytes) × (m ≡ WsMessage.binary bytes) × (wire.decode bytes ≡ ok msg)
  received-ok (WsMessage.binary bytes) msg h = (bytes, refl, deserialize-ok bytes msg h)
  received-ok (WsMessage.ping _) msg h = absurd (err-ne h)
  received-ok (WsMessage.pong _) msg h = absurd (err-ne h)
  received-ok WsMessage.close msg h = absurd (err-ne h)
  received-ok (WsMessage.other _) msg h = absurd (err-ne h)

  first_of-ok :
      (first : Option (Result Err.Error WsMessage)) (msg : IncomingMessage)
      → first_of wire net first ≡ ok msg
      → (bytes : Bytes) × (first ≡ some (ok (WsMessage.binary bytes)))
        × (wire.decode bytes ≡ ok msg)
  first_of-ok none msg h = absurd (err-ne h)
  first_of-ok (some (err e)) msg h = absurd (err-ne h)
  first_of-ok (some (ok m)) msg h =
      let (bytes, e, d) = received-ok m msg h in (bytes, ap (λ x. some (ok x)) e, d)

  do_register-Registers :
      (c : Connection) (w : Procs)
      → net.tls_connector ≡ ok tt
      → net.in_time ≡ true
      → do_register wire net c w ≡ ok tt
      → Registers c w
  unfolding do_register send receive
  do_register-Registers c w tls timely h =
      let (_, socket, h1) = and_then-eq-ok net.web_socket _ h in
      let (_, sent, h2) = and_then-eq-ok (send wire net (registration wire net c w)) _ h1 in
      let (msg, got, h3) = and_then-eq-ok (receive wire net) _ h2 in
      let (bytes, coded, took) =
        and_then-eq-ok (serialize wire (registration wire net c w)) _ sent in
      let (reply, first, decoded) = first_of-ok net.first msg got in
      record {
        tls = tls;
        socket = socket;
        bytes = bytes;
        encoded = serialize-ok (registration wire net c w) bytes coded;
        sent = took;
        reply = reply;
        first = first;
        decoded = decoded ∙ ap ok (expect_registered-ok msg h3);
        timely = timely;
      }

  connect-ok : (c : Connection) (w : Procs) → connect wire net c w ≡ ok tt → Registers c w
  unfolding connect
  connect-ok c w h =
      let (_, tls, h1) = and_then-eq-ok net.tls_connector _ h in
      elim (Bool-cases net.in_time) [
        | inl timely ↦ do_register-Registers c w tls timely (rw (timely) at h1)
        | inr late ↦ absurd (err-ne (rw (late) at h1))
      ]

  -- The agent connects exactly if there is a TLS connector and a websocket, the registration, with the ids of all
  -- processes and the shutdown state, is encoded and sent, the first message is a binary one that
  -- reads as `Registered`, and all this is in time.
  pub connect_iff : (c : Connection) (w : Procs) → (connect wire net c w ≡ ok tt) ↔ Registers c w
  connect_iff c w = (connect-ok c w, Registers-connect c w)

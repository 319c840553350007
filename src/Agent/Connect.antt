-- ===== src/Agent/Connect.antt =====
-- Connecting to a server, of src/agent.rs: `Connection::new`, `send`, `receive` and `connect`. What the network
-- answers is the argument `Network`.
use procstar.Prelude.{
  Bool, String, Option, none, some, Result, ok, err, and_then, map_err, unwrap_or, if◌then◌else◌,
}
use Prim.Native.String.{◌++◌}
use procstar.Io.{Bytes}
use procstar.Err
use procstar.Message.{
  IncomingMessage, OutgoingMessage, ConnectionInfo, registered, register, closed,
  unexpected_message, wrong_message_type,
}
use procstar.Procinfo.{ProcessInfo}
use procstar.Procs.Table.{Procs, get_proc_ids, get_shutdown}
use procstar.Proto.{default_group}
use procstar.Agent.Session.{Wire, WsMessage, serialize}

pub record Connection : Type 0 where
  pub conn : ConnectionInfo
  pub proc : ProcessInfo

-- `default_conn_id` is a random one.
unfoldable pub new_connection :
    String → Option String → ProcessInfo → Option String → Option String → Connection
new_connection default_conn_id restricted_exe proc conn_id group_id = record {
  conn = record {
    conn_id = unwrap_or conn_id default_conn_id;
    group_id = unwrap_or group_id default_group;
    restricted_exe = restricted_exe;
  };
  proc = proc;
}

pub record Network : Type 0 where
  -- The TLS connector, and the websocket over it.
  pub tls_connector : Result Err.Error (Unit {0})
  pub web_socket : Result Err.Error (Unit {0})
  pub access_token : String
  -- The answer of the socket to a message.
  pub sends : Bytes → Result Err.Error (Unit {0})
  -- The first message of the server; `none` where the stream has ended.
  pub first : Option (Result Err.Error WsMessage)
  -- Whether all this took no longer than the time to register.
  pub in_time : Bool
  -- The `Debug` of a message.
  pub debug : WsMessage → String

module _ (wire : Wire) (net : Network) where
  unfoldable pub send : OutgoingMessage → Result Err.Error (Unit {0})
  unfolding serialize
  send msg = and_then (serialize wire msg) net.sends

  unfoldable pub deserialize : Bytes → Result Err.Error IncomingMessage
  deserialize bytes = map_err Err.Error.rmp_decode (wire.decode bytes)

  abbrev pub received : WsMessage → Result Err.Error IncomingMessage
  received (WsMessage.binary bytes) = deserialize bytes
  received WsMessage.close = err (Err.Error.proto (wrong_message_type "websocket closed"))
  received msg = err (Err.Error.proto (wrong_message_type ("unexpected ws msg: " ++ net.debug msg)))

  abbrev pub first_of : Option (Result Err.Error WsMessage) → Result Err.Error IncomingMessage
  first_of none = err (Err.Error.proto closed)
  first_of (some value) = and_then value received

  unfoldable pub receive : Result Err.Error IncomingMessage
  unfolding deserialize
  receive = first_of net.first

  -- The first message must be `Registered`.
  abbrev pub expect_registered : IncomingMessage → Result Err.Error (Unit {0})
  expect_registered registered = ok tt
  expect_registered msg = err (Err.Error.proto (unexpected_message msg))

  abbrev pub registration : Connection → Procs → OutgoingMessage
  registration c w = register c.conn c.proc (get_proc_ids w) net.access_token (get_shutdown w)

  unfoldable pub do_register : Connection → Procs → Result Err.Error (Unit {0})
  unfolding send receive get_proc_ids get_shutdown
  do_register c w =
      and_then net.web_socket
        λ _. and_then (send (registration c w)) λ _. and_then receive expect_registered

  unfoldable pub connect : Connection → Procs → Result Err.Error (Unit {0})
  unfolding do_register
  connect c w =
      and_then net.tls_connector
        λ _. if net.in_time then do_register c w else err Err.Error.register_timeout

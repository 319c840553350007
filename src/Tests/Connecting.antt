-- ===== src/Tests/Connecting.antt =====
-- Connecting to a server.
use procstar.Prelude.{◌≡◌, ◌↔◌, pos, [], ◌∷◌, some, none, ok, true}
use procstar.Shutdown.{State}
use procstar.Message.{IncomingMessage}
use procstar.Procinfo.{ProcessInfo}
use procstar.Procs.Table.{Procs}
use procstar.Agent.Session.{Wire, WsMessage}
use procstar.Agent.Connect.{Connection, Network, connect, new_connection}
use procstar.Agent.Registered.{Registers, connect_iff}
use procstar.Tests.Data.{proc, table, one}

abbrev pub info : ProcessInfo
info = record {
  pid = pos 3;
  ppid = pos 1;
  uid = 1000;
  euid = 1000;
  username = some "agent";
  gid = 1000;
  egid = 1000;
  groupname = none;
  hostname = "host";
}

abbrev pub connection : Connection
connection = new_connection "random" none info (some "first") none

abbrev pub wire : Wire
wire = record { decode = λ b. ok IncomingMessage.registered; encode = λ msg. ok (7 ∷ []) }

abbrev pub network : Network
network = record {
  tls_connector = ok tt;
  web_socket = ok tt;
  access_token = "token";
  sends = λ b. ok tt;
  first = some (ok (WsMessage.binary (9 ∷ [])));
  in_time = true;
  debug = λ m. "message";
}

abbrev pub one_process : Procs
one_process = table one proc State.active

connect_iff_example :
    (connect wire network connection one_process ≡ ok tt)
    ↔ Registers wire network connection one_process
connect_iff_example = connect_iff wire network connection one_process

-- ===== src/Err.antt =====
-- src/err.rs: what can go wrong while setting up or running a process. The payload of an error from
-- another crate is the text that it displays; of a D-Bus error the code also reads the error's name.
use Prim.Native.String.{◌++◌}
use procstar.Prelude.{String}
use procstar.Prelude.Decimal.{show_ℤ}
use procstar.Io.{IoError}
use procstar.Shutdown
use procstar.Shutdown.{display_state}
use procstar.Spec
use procstar.Spec.{ProcId, RawFd, display_error}
use procstar.Message.{IncomingMessage, ProtoError, closed, unexpected_message, wrong_message_type}

-- `zbus::Error`: a method error with its name, or another error.
pub data DbusError : Type 0 where
  method_error : (name : String) (text : String) → DbusError
  other_error : (text : String) → DbusError

abbrev pub dbus_text : DbusError → String
dbus_text (method_error name text) = text
dbus_text (other_error text) = text

pub data Error : Type 0 where
  none : Error
  eof : Error
  io : IoError → Error
  json : String → Error
  native_tls_error : String → Error
  no_fd : RawFd → Error
  no_proc : Error
  no_proc_id : ProcId → Error
  parse_int : String → Error
  proc_not_running : ProcId → Error
  proc_running : ProcId → Error
  proto : ProtoError → Error
  register_timeout : Error
  rmp_decode : String → Error
  rmp_encode : String → Error
  shutting_down : Shutdown.State → Error
  spec : Spec.Error → Error
  systemd : DbusError → Error
  websocket : String → Error

-- The derived `Debug` of a message is the argument `debug`.
module _ (debug : IncomingMessage → String) where
  unfoldable pub display_proto : ProtoError → String
  display_proto closed = "closed"
  display_proto (unexpected_message msg) = "wrong message: " ++ debug msg
  display_proto (wrong_message_type msg) = "wrong WebSocket message: " ++ msg

  unfoldable pub display : Error → String
  unfolding display_proto
  display none = "(no error)"
  display eof = "EOF"
  display (io e) = e.text
  display (json e) = e
  display (native_tls_error e) = e
  display (no_fd fd) = "no fd: " ++ show_ℤ fd
  display no_proc = "no process"
  display (no_proc_id proc_id) = "unknown proc ID: " ++ proc_id
  display (parse_int e) = e
  display (proc_not_running proc_id) = "process not running: " ++ proc_id
  display (proc_running proc_id) = "process running: " ++ proc_id
  display (proto e) = display_proto e
  display register_timeout = "registration took too long"
  display (rmp_decode e) = e
  display (rmp_encode e) = e
  display (shutting_down state) = "agent shutting down: " ++ display_state state
  display (spec e) = display_error e
  display (systemd e) = "error with systemd: " ++ dbus_text e
  display (websocket e) = e

-- ===== src/Message.antt =====
-- The messages of src/proto.rs, between an agent and its server.
use procstar.Prelude.{String, List, Option, ℤ}
use procstar.Io.{Bytes}
use procstar.Sig.{Signum}
use procstar.Shutdown
use procstar.Procinfo.{ProcessInfo}
use procstar.Res.{ProcRes}
use procstar.Spec
use procstar.Spec.{ProcId, FdName, CaptureEncoding}

pub record ConnectionInfo : Type 0 where
  pub conn_id : String
  pub group_id : String
  pub restricted_exe : Option String

-- `start` and `stop` of a data request are `i64`.
pub data IncomingMessage : Type 0 where
  registered : IncomingMessage
  proc_start_request : (specs : Spec.Procs) → IncomingMessage
  procid_list_request : IncomingMessage
  proc_result_request : (proc_id : ProcId) → IncomingMessage
  proc_signal_request : (proc_id : ProcId) (signum : Signum) → IncomingMessage
  proc_fd_data_request :
      (proc_id : ProcId) (fd : FdName) (start : ℤ) (stop : Option ℤ) → IncomingMessage
  proc_delete_request : (proc_id : ProcId) → IncomingMessage

pub data OutgoingMessage : Type 0 where
  request_error : (msg : IncomingMessage) (err : String) → OutgoingMessage
  proc_unknown : (proc_id : ProcId) → OutgoingMessage
  register :
      (conn : ConnectionInfo) (proc : ProcessInfo) (proc_ids : List ProcId) (access_token : String)
      (shutdown_state : Shutdown.State)
      → OutgoingMessage
  procid_list : (proc_ids : List ProcId) → OutgoingMessage
  proc_result : (proc_id : ProcId) (res : ProcRes) → OutgoingMessage
  proc_fd_data :
      (proc_id : ProcId) (fd : FdName) (start stop : ℤ) (encoding : Option CaptureEncoding)
      (payload : Bytes)
      → OutgoingMessage
  proc_delete : (proc_id : ProcId) → OutgoingMessage
  shut_down : (shutdown_state : Shutdown.State) → OutgoingMessage

-- `proto::Error`.
pub data ProtoError : Type 0 where
  closed : ProtoError
  unexpected_message : IncomingMessage → ProtoError
  wrong_message_type : String → ProtoError

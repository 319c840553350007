-- ===== src/Http/Handlers.antt =====
-- The handlers of src/http.rs, one for each route and method.
use procstar.Prelude.{String, Option, none, some, Result, ok, err}
use procstar.Spec
use procstar.Spec.{ProcId, CaptureEncoding, utf8, display_error}
use procstar.Spec.Fds.{parse_fd}
use procstar.Sig.{parse_signum}
use procstar.Err
use procstar.Err.{display}
use procstar.Fd.{FdData, empty_data}
use procstar.Sys.Files.{OpenFiles}
use procstar.Procs.Proc.{to_result, send_signal, get_fd_data}
use procstar.Procs.Table.{Procs, all_results, get_proc, remove_if_not_running}
use procstar.Procs.Start.{Outcome, and_next, or_panic, start_procs}
use procstar.Proto.{Machine}
use procstar.Http.Status.{StatusCode}
use procstar.Http.{
  Value, RspError, rsp_error, bad_request, JsonResult, Body, Rsp, Crates, Reply, replied,
  json_response,
}

abbrev pub not_found : RspError
not_found = rsp_error StatusCode.not_found none

module _ (m : Machine) where
  unfoldable pub procs_get : Procs → OpenFiles → Outcome (Reply JsonResult)
  unfolding all_results
  procs_get w files =
      and_next (or_panic (all_results m.snapshot files w))
        λ (res, files'). replied (ok (Value.object1 "procs" (Value.results res))) w files'

  unfoldable pub procs_id_get : ProcId → Procs → OpenFiles → Outcome (Reply JsonResult)
  unfolding to_result get_proc
  procs_id_get proc_id w files = elim (get_proc proc_id w) [
    | none ↦ replied (err not_found) w files
    | some r ↦ and_next (or_panic (to_result m.snapshot files (w.heap r))) λ (res, files').
        replied (ok (Value.object1 "procs" (Value.object1 proc_id (Value.result res)))) w files'
  ]

  abbrev pub deleted_json : {A : Type 0} → Result Err.Error A → JsonResult
  deleted_json (ok _) = ok Value.empty
  deleted_json (err (Err.Error.no_proc_id _)) = err not_found
  deleted_json (err e) = err (bad_request (display m.debug e))

  unfoldable pub procs_id_delete : ProcId → Procs → OpenFiles → Outcome (Reply JsonResult)
  unfolding remove_if_not_running bad_request
  procs_id_delete proc_id w files =
      let (result, w') = remove_if_not_running proc_id w in replied (deleted_json result) w' files

  -- A result without a value of its own.
  abbrev pub done_json : {A : Type 0} → Result Err.Error A → JsonResult
  done_json (ok _) = ok Value.empty
  done_json (err e) = err (bad_request (display m.debug e))

  unfoldable pub procs_post : Spec.Procs → Procs → OpenFiles → Outcome (Reply JsonResult)
  unfolding start_procs bad_request
  procs_post specs w files =
      and_next (start_procs m.debug m.pick m.flags m.systemd m.answers m.sys_close specs w)
        λ (result, w'). replied (done_json result) w' files

  unfoldable pub procs_signal_signum_post :
      ProcId → String → Procs → OpenFiles → Outcome (Reply JsonResult)
  unfolding parse_signum get_proc send_signal bad_request
  procs_signal_signum_post proc_id signum w files = elim (parse_signum signum) [
    | none ↦ replied (err (bad_request "unknwon signum")) w files
    | some n ↦ elim (get_proc proc_id w) [
      | none ↦ replied (err not_found) w files
      | some r ↦ replied (done_json (send_signal m.kill (w.heap r) n)) w files
    ]
  ]

abbrev pub content_type_of : Option CaptureEncoding → String
content_type_of none = "application/octet-stream"
content_type_of (some utf8) = "text/plain; charset=utf-8"

abbrev pub data_rsp : FdData → Rsp
data_rsp d = record {
  status = StatusCode.ok;
  content_type = content_type_of d.encoding;
  body = Body.data_ d.payload;
}

module _ (c : Crates) (m : Machine) where
  -- Sends a result as JSON.
  abbrev pub respond_json : Reply JsonResult → Outcome (Reply Rsp)
  respond_json reply =
      and_next (json_response c reply.answer) λ rsp. replied rsp reply.procs reply.files

  abbrev pub data_or_error :
      Procs → OpenFiles → Result Err.Error (Option FdData) → Outcome (Reply Rsp)
  data_or_error w files (ok (some d)) = replied (data_rsp d) w files
  data_or_error w files (ok none) = replied (data_rsp empty_data) w files
  data_or_error w files (err e) =
      respond_json
        (record { answer = err (bad_request (display m.debug e)); procs = w; files = files })

  unfoldable pub procs_output_data_get : ProcId → String → Procs → OpenFiles → Outcome (Reply Rsp)
  unfolding parse_fd get_proc get_fd_data bad_request json_response
  procs_output_data_get proc_id fd w files = elim (parse_fd fd) [
    | err e ↦
        respond_json
          (record { answer = err (bad_request (display_error e)); procs = w; files = files })
    | ok n ↦ elim (get_proc proc_id w) [
      | none ↦ respond_json (record { answer = err not_found; procs = w; files = files })
      | some r ↦
          and_next (or_panic (get_fd_data files (w.heap r) n 0 none))
            λ (got, files'). data_or_error w files' got
    ]
  ]

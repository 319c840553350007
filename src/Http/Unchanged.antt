-- ===== src/Http/Unchanged.antt =====
-- The handlers of the HTTP service that only read leave the shared state as it is.
use procstar.Prelude.{
  ◌≡◌, sym, ap, String, none, some, ok, err, Option-cases, Result-cases, inl, inr,
}
use procstar.Spec.{ProcId, display_error}
use procstar.Err
use procstar.Spec.Fds.{parse_fd}
use procstar.Sys.Files.{OpenFiles}
use procstar.Procs.Proc.{to_result, get_fd_data}
use procstar.Procs.Table.{Procs, get_proc, all_results}
use procstar.Procs.Start.{returned, or_panic}
use procstar.Procs.Returned.{and_next-eq, returned_inj}
use procstar.Proto.{Machine}
use procstar.Http.{RspError, bad_request, JsonResult, Rsp, Crates, Reply, json_response}
use procstar.Http.Handlers.{
  not_found, procs_get, procs_id_get, procs_output_data_get, respond_json, data_or_error,
}
use procstar.Http.Router.{fail}

module _ (c : Crates) (m : Machine) where
  pub respond_json-procs :
      (r : Reply JsonResult) (reply : Reply Rsp)
      → respond_json c m r ≡ returned reply
      → reply.procs ≡ r.procs
  respond_json-procs r reply h =
      let (rsp, _, h1) = and_next-eq (json_response c r.answer) _ h in
      ap (λ s. s.procs) (sym (returned_inj h1))

  pub fail-procs :
      (e : RspError) (w : Procs) (files : OpenFiles) (reply : Reply Rsp)
      → fail c m e w files ≡ returned reply
      → reply.procs ≡ w
  fail-procs e w files reply h =
      respond_json-procs (record { answer = err e; procs = w; files = files }) reply h

  pub procs_get-procs :
      (w : Procs) (files : OpenFiles) (r : Reply JsonResult)
      → procs_get m w files ≡ returned r
      → r.procs ≡ w
  unfolding procs_get
  procs_get-procs w files r h =
      let (_, _, h1) = and_next-eq (or_panic (all_results m.snapshot files w)) _ h in
      ap (λ s. s.procs) (sym (returned_inj h1))

  pub procs_id_get-procs :
      (id : ProcId) (w : Procs) (files : OpenFiles) (r : Reply JsonResult)
      → procs_id_get m id w files ≡ returned r
      → r.procs ≡ w
  unfolding procs_id_get
  procs_id_get-procs id w files r h = elim (Option-cases (get_proc id w)) [
    | inl missing ↦ ap (λ s. s.procs) (sym (returned_inj (rw (missing, procs_id_get) at h)))
    | inr (p, found) ↦
        let (_, _, h1) =
          and_next-eq (or_panic (to_result m.snapshot files (w.heap p))) _
            (rw (found, procs_id_get) at h) in
        ap (λ s. s.procs) (sym (returned_inj h1))
  ]

  pub data_or_error-procs :
      (w : Procs) (files : OpenFiles) (got : _) (reply : Reply Rsp)
      → data_or_error c m w files got ≡ returned reply
      → reply.procs ≡ w
  data_or_error-procs w files (ok (some d)) reply h = ap (λ s. s.procs) (sym (returned_inj h))
  data_or_error-procs w files (ok none) reply h = ap (λ s. s.procs) (sym (returned_inj h))
  data_or_error-procs w files (err e) reply h =
      fail-procs (bad_request (Err.display m.debug e)) w files reply h

  pub procs_output_data_get-procs :
      (id : ProcId) (fd : String) (w : Procs) (files : OpenFiles) (reply : Reply Rsp)
      → procs_output_data_get c m id fd w files ≡ returned reply
      → reply.procs ≡ w
  unfolding procs_output_data_get
  procs_output_data_get-procs id fd w files reply h = elim (Result-cases (parse_fd fd)) [
    | inr (e, bad) ↦
        fail-procs (bad_request (display_error e)) w files reply
          (rw (bad, procs_output_data_get) at h)
    | inl (n, parsed) ↦ elim (Option-cases (get_proc id w)) [
      | inl missing ↦
          fail-procs not_found w files reply (rw (parsed, missing, procs_output_data_get) at h)
      | inr (r, found) ↦
          let ((got, files'), _, h1) =
            and_next-eq (or_panic (get_fd_data files (w.heap r) n 0 none)) _
              (rw (parsed, found, procs_output_data_get) at h) in
          data_or_error-procs w files' got reply h1
    ]
  ]

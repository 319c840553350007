-- ===== src/Http/Agreement.antt =====
-- The handlers of src/http.rs beside the messages of src/proto.rs that ask for the same.
use procstar.Prelude.{
  ◌≡◌, refl, String, Option, none, some, Result, ok, err, Option-cases, inl, inr, arith, ℕ, arith,
}
use procstar.Spec
use procstar.Spec.{ProcId}
use procstar.Sig.{Signum, parse_signum}
use procstar.Err
use procstar.Sys.Files.{OpenFiles}
use procstar.Message.{
  IncomingMessage, OutgoingMessage, proc_start_request, proc_result_request, proc_signal_request,
  proc_delete_request, proc_unknown, request_error, proc_result,
}
use procstar.Res.{ProcRes}
use procstar.Procs.Proc.{to_result, send_signal}
use procstar.Procs.Table.{Procs, get_proc, remove_if_not_running}
use procstar.Procs.Start.{Outcome, returned, panics, exits, and_next, or_panic, start_procs}
use procstar.Proto.{
  Machine, Handled, handle_incoming, handle_start, handle_result, handle_signal, unless_error,
  deleted, incoming_error,
}
use procstar.Http.{Value, rsp_error, bad_request, JsonResult, Reply}
use procstar.Http.Status.{StatusCode}
use procstar.Http.Handlers.{
  procs_id_get, procs_id_delete, procs_post, procs_signal_signum_post, done_json, deleted_json,
}

-- A response to the server and an HTTP result that say the same.
pub data Agrees : Option OutgoingMessage → JsonResult → Type 0 where
  accepted : Agrees none (ok Value.empty)
  unknown :
      (id : ProcId) → Agrees (some (proc_unknown id)) (err (rsp_error StatusCode.not_found none))
  refused :
      (msg : IncomingMessage) (text : String)
      → Agrees (some (request_error msg text)) (err (rsp_error StatusCode.bad_request (some text)))
  found :
      (id : ProcId) (res : ProcRes)
      → Agrees
          (some (proc_result id res))
          (ok (Value.object1 "procs" (Value.object1 id (Value.result res))))

-- Both return, in the same state, and agree; or both panic; or both end the program alike.
pub data Same : Outcome Handled → Outcome (Reply JsonResult) → Type 0 where
  both_return :
      (h : Handled) (r : Reply JsonResult)
      → r.procs ≡ h.procs
      → r.files ≡ h.files
      → Agrees h.response r.answer
      → Same (returned h) (returned r)
  both_panic : Same panics panics
  both_exit : (code : ℕ) → Same (exits code) (exits code)

module _ (m : Machine) where
  -- The handler of the HTTP request that asks for what a message asks for.
  pub data Twin : IncomingMessage → (Procs → OpenFiles → Outcome (Reply JsonResult)) → Type 0 where
    post : (specs : Spec.Procs) → Twin (proc_start_request specs) (procs_post m specs)
    get : (id : ProcId) → Twin (proc_result_request id) (procs_id_get m id)
    signal :
        (id : ProcId) (text : String) (signum : Signum)
        → parse_signum text ≡ some signum
        → Twin (proc_signal_request id signum) (procs_signal_signum_post m id text)
    delete : (id : ProcId) → Twin (proc_delete_request id) (procs_id_delete m id)

  -- Two continuations of the same code.
  and_next-Same :
      {A : Type 0} (o : Outcome A) (f : A → Outcome Handled) (g : A → Outcome (Reply JsonResult))
      → ((a : A) → Same (f a) (g a))
      → Same (and_next o f) (and_next o g)
  and_next-Same (returned a) f g h = h a
  and_next-Same panics f g h = both_panic
  and_next-Same (exits code) f g h = both_exit code

  unless_error-Agrees :
      {A : Type 0} (msg : IncomingMessage) (result : Result Err.Error A)
      → Agrees (unless_error m msg result) (done_json m result)
  unfolding incoming_error bad_request
  unless_error-Agrees msg (ok a) = accepted
  unless_error-Agrees msg (err e) = refused msg (Err.display m.debug e)

  abbrev id_of : Err.Error → Option ProcId
  id_of (Err.Error.no_proc_id id) = some id
  id_of _ = none

  id_of-some : (e : Err.Error) (id : ProcId) → id_of e ≡ some id → e ≡ Err.Error.no_proc_id id
  id_of-some e id h = ground arith

  id_of-none :
      (A : Type 0) (msg : IncomingMessage) (e : Err.Error)
      → id_of e ≡ none
      → (deleted m {A = A} msg (err e) ≡ some (incoming_error msg (Err.display m.debug e)))
        × (deleted_json m {A = A} (err e) ≡ err (bad_request (Err.display m.debug e)))
  id_of-none A msg e h = ground arith

  deleted-Agrees :
      {A : Type 0} (msg : IncomingMessage) (result : Result Err.Error A)
      → Agrees (deleted m msg result) (deleted_json m result)
  deleted-Agrees msg (ok a) = accepted
  deleted-Agrees {A = A} msg (err e) = elim (Option-cases (id_of e)) [
    | inr (id, h) ↦ rw (id_of-some e id h) (unknown id)
    | inl h ↦
        let (e1, e2) = id_of-none A msg e h in
        rw (e1, e2) (unfold incoming_error bad_request in refused msg (Err.display m.debug e))
  ]

  -- A request over HTTP to start processes, for a process's result, to signal a process or to delete it does to the
  -- processes and the open files what the message that asks for the same does, and it answers the
  -- same: success where there is no error, 404 where the process is unknown, 400 with the same text
  -- where the message is answered by an error; and one panics or ends the program exactly where the other does.
  pub handle_incoming-Same :
      (msg : IncomingMessage) (handler : Procs → OpenFiles → Outcome (Reply JsonResult)) (w : Procs)
      (files : OpenFiles)
      → Twin msg handler
      → Same (handle_incoming m msg w files) (handler w files)
  unfolding handle_incoming procs_id_get procs_signal_signum_post
  handle_incoming-Same msg handler w files (post specs) =
      unfold handle_start procs_post in
      and_next-Same (start_procs m.debug m.pick m.flags m.systemd m.answers m.sys_close specs w) _ _
        λ (result, w').
          both_return _ _ refl refl (unless_error-Agrees (proc_start_request specs) result)
  handle_incoming-Same msg handler w files (get id) = elim (Option-cases (get_proc id w)) [
    | inl missing ↦
        rw (missing, handle_result, procs_id_get) (both_return _ _ refl refl (unknown id))
    | inr (r, known) ↦
        rw (known, handle_result, procs_id_get)
          (and_next-Same (or_panic (to_result m.snapshot files (w.heap r))) _ _
            λ (res, files'). both_return _ _ refl refl (found id res))
  ]
  handle_incoming-Same msg handler w files (signal id text signum read) =
      elim (Option-cases (get_proc id w)) [
        | inl missing ↦
            rw (read, missing, handle_signal, procs_signal_signum_post)
              (both_return _ _ refl refl (unknown id))
        | inr (r, known) ↦
            rw (read, known, handle_signal, procs_signal_signum_post)
              (both_return _ _ refl refl (
                unless_error-Agrees (proc_signal_request id signum)
                  (send_signal m.kill (w.heap r) signum)))
      ]
  handle_incoming-Same msg handler w files (delete id) =
      unfold procs_id_delete in
      both_return _ _ refl refl
        (deleted-Agrees (proc_delete_request id) (remove_if_not_running id w).0)

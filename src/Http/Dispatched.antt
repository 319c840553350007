-- ===== src/Http/Dispatched.antt =====
-- What a request to the HTTP service does to the shared state of the agent.
use procstar.Prelude.{
  ℕ, zero, suc, ◌≡◌, ◌≢◌, arith, refl, sym, subst, ap, ◌∙◌, String, Option, none, some, Result, ok,
  err, Option-cases, inl, inr,
}
use procstar.Spec
use procstar.Spec.{ProcId, display_error}
use procstar.Sig.{parse_signum}
use procstar.Sys.Files.{OpenFiles}
use procstar.Message.{IncomingMessage}
use procstar.Procs.Table.{Procs}
use procstar.Procs.Changes.{Follows}
use procstar.Procs.Start.{Outcome, returned, and_next}
use procstar.Procs.Returned.{and_next-eq, returned_inj}
use procstar.Proto.{Machine, Handled, handle_incoming}
use procstar.Proto.Laws.{handle_incoming-Follows}
use procstar.Http.{RspError, rsp_error, bad_request, JsonResult, Rsp, Request, Crates, Reply}
use procstar.Http.Status.{StatusCode, Method}
use procstar.Http.Handlers.{
  not_found, procs_get, procs_id_get, procs_id_delete, procs_post, procs_signal_signum_post,
  respond_json,
}
use procstar.Http.Router.{routes, get_body_json, with_param, post_specs, route, dispatch}
use procstar.Http.Agreement.{Same, Twin, both_return, both_panic, both_exit, handle_incoming-Same}
use procstar.Http.Unchanged.{
  respond_json-procs, fail-procs, procs_get-procs, procs_id_get-procs, procs_output_data_get-procs,
}

-- A subscriber that followed the notifications still does so, and GET changes nothing.
pub record Dispatched {A : Type 0} (method : Method) (w : Procs) (reply : Reply A) : Type 0 where
  pub follows : Follows w → Follows reply.procs
  pub safe : method ≡ Method.get → reply.procs ≡ w

unchanged :
    {A : Type 0} {method : Method} {w : Procs} {reply : Reply A}
    → reply.procs ≡ w
    → Dispatched method w reply
unchanged e = record { follows = λ f. subst Follows (sym e) f; safe = λ _. e }

Same-returned :
    (o : Outcome Handled) (p : Outcome (Reply JsonResult)) (r : Reply JsonResult)
    → Same o p
    → p ≡ returned r
    → (h : Handled) × (o ≡ returned h) × (r.procs ≡ h.procs)
Same-returned _ _ r (both_return h r' e _ _) q =
    (h, refl, ap (λ s. s.procs) (sym (returned_inj q)) ∙ e)
Same-returned _ _ r both_panic q = cc
Same-returned _ _ r (both_exit code) q = cc

module _ (c : Crates) (m : Machine) where
  Twin-Follows :
      (msg : IncomingMessage) (handler : Procs → OpenFiles → Outcome (Reply JsonResult)) (w : Procs)
      (files : OpenFiles) (r : Reply JsonResult)
      → Twin m msg handler
      → handler w files ≡ returned r
      → Follows w
      → Follows r.procs
  Twin-Follows msg handler w files r twin h f =
      let (out, e, same) =
        Same-returned (handle_incoming m msg w files) (handler w files) r
          (handle_incoming-Same m msg handler w files twin) h in
      subst Follows (sym same) (handle_incoming-Follows m msg w files out e f)

  -- A handler's state is that of the response.
  responded-Dispatched :
      (method : Method) (w : Procs) (o : Outcome (Reply JsonResult)) (reply : Reply Rsp)
      → and_next o (respond_json c m) ≡ returned reply
      → ((r : Reply JsonResult) → o ≡ returned r → Dispatched method w r)
      → Dispatched method w reply
  responded-Dispatched method w o reply h handler =
      let (r, e, h1) = and_next-eq o _ h in
      let same = respond_json-procs c m r reply h1 in
      let d = handler r e in
      record { follows = λ f. subst Follows (sym same) (d.follows f); safe = λ g. same ∙ d.safe g }

  with_param-eq :
      (value : Option String) (f : String → Outcome (Reply Rsp)) (reply : Reply Rsp)
      → with_param c m value f ≡ returned reply
      → (v : String) × (f v ≡ returned reply)
  with_param-eq none f reply h = cc
  with_param-eq (some v) f reply h = (v, h)

  -- A handler that the client does not reach by GET, and that a message of the server matches.
  twin-Dispatched :
      (method : Method) (w : Procs) (files : OpenFiles) (reply : Reply Rsp) (msg : IncomingMessage)
      (handler : Procs → OpenFiles → Outcome (Reply JsonResult))
      → Twin m msg handler
      → method ≢ Method.get
      → and_next (handler w files) (respond_json c m) ≡ returned reply
      → Dispatched method w reply
  twin-Dispatched method w files reply msg handler twin not_get h =
      responded-Dispatched method w (handler w files) reply h λ r e. record {
        follows = Twin-Follows msg handler w files r twin e;
        safe = λ g. absurd (not_get g);
      }

  post_specs-Dispatched :
      (specs : Result RspError Spec.Procs) (w : Procs) (files : OpenFiles) (reply : Reply Rsp)
      → post_specs c m specs w files ≡ returned reply
      → Dispatched Method.post w reply
  post_specs-Dispatched (ok specs) w files reply h =
      twin-Dispatched Method.post w files reply _ (procs_post m specs) (Twin.post specs)
        (ground arith) h
  post_specs-Dispatched (err e) w files reply h = unchanged (fail-procs c m e w files reply h)

  -- A signal changes nothing either: whether the name is read or not.
  signal-Dispatched :
      (id : ProcId) (text : String) (w : Procs) (files : OpenFiles) (reply : Reply Rsp)
      → and_next (procs_signal_signum_post m id text w files) (respond_json c m) ≡ returned reply
      → Dispatched Method.post w reply
  unfolding procs_signal_signum_post
  signal-Dispatched id text w files reply h = elim (Option-cases (parse_signum text)) [
    | inl bad ↦ unchanged (
        fail-procs c m (bad_request "unknwon signum") w files reply
          (rw (bad, procs_signal_signum_post) at h))
    | inr (n, read) ↦
        twin-Dispatched Method.post w files reply _ (procs_signal_signum_post m id text)
          (Twin.signal id text n read) (ground arith) h
  ]

  route-Dispatched :
      (n : ℕ) (method : Method) (param : String → Option String) (req : Request) (w : Procs)
      (files : OpenFiles) (reply : Reply Rsp)
      → route c m n method param req w files ≡ returned reply
      → Dispatched method w reply
  route-Dispatched zero Method.get param req w files reply h =
      responded-Dispatched Method.get w (procs_get m w files) reply h
        λ r e. unchanged (procs_get-procs c m w files r e)
  route-Dispatched zero Method.post param req w files reply h =
      post_specs-Dispatched (get_body_json c req) w files reply h
  route-Dispatched (suc zero) Method.get param req w files reply h =
      let (id, h1) = with_param-eq (param "id") _ reply h in
      responded-Dispatched Method.get w (procs_id_get m id w files) reply h1
        λ r e. unchanged (procs_id_get-procs c m id w files r e)
  route-Dispatched (suc zero) Method.delete param req w files reply h =
      let (id, h1) = with_param-eq (param "id") _ reply h in
      twin-Dispatched Method.delete w files reply _ (procs_id_delete m id) (Twin.delete id)
        (ground arith) h1
  route-Dispatched (suc (suc zero)) Method.post param req w files reply h =
      let (id, h1) = with_param-eq (param "id") _ reply h in
      let (text, h2) = with_param-eq (param "signum") _ reply h1 in
      signal-Dispatched id text w files reply h2
  route-Dispatched (suc (suc (suc zero))) Method.get param req w files reply h =
      let (id, h1) = with_param-eq (param "id") _ reply h in
      let (fd, h2) = with_param-eq (param "fd") _ reply h1 in
      unchanged (procs_output_data_get-procs c m id fd w files reply h2)
  route-Dispatched zero Method.delete param req w files reply h =
      unchanged (fail-procs c m (rsp_error StatusCode.method_not_allowed none) w files reply h)
  route-Dispatched zero Method.other param req w files reply h =
      unchanged (fail-procs c m (rsp_error StatusCode.method_not_allowed none) w files reply h)
  route-Dispatched (suc zero) Method.post param req w files reply h =
      unchanged (fail-procs c m (rsp_error StatusCode.method_not_allowed none) w files reply h)
  route-Dispatched (suc zero) Method.other param req w files reply h =
      unchanged (fail-procs c m (rsp_error StatusCode.method_not_allowed none) w files reply h)
  route-Dispatched (suc (suc zero)) Method.get param req w files reply h =
      unchanged (fail-procs c m (rsp_error StatusCode.method_not_allowed none) w files reply h)
  route-Dispatched (suc (suc zero)) Method.delete param req w files reply h =
      unchanged (fail-procs c m (rsp_error StatusCode.method_not_allowed none) w files reply h)
  route-Dispatched (suc (suc zero)) Method.other param req w files reply h =
      unchanged (fail-procs c m (rsp_error StatusCode.method_not_allowed none) w files reply h)
  route-Dispatched (suc (suc (suc zero))) Method.post param req w files reply h =
      unchanged (fail-procs c m (rsp_error StatusCode.method_not_allowed none) w files reply h)
  route-Dispatched (suc (suc (suc zero))) Method.delete param req w files reply h =
      unchanged (fail-procs c m (rsp_error StatusCode.method_not_allowed none) w files reply h)
  route-Dispatched (suc (suc (suc zero))) Method.other param req w files reply h =
      unchanged (fail-procs c m (rsp_error StatusCode.method_not_allowed none) w files reply h)
  route-Dispatched (suc (suc (suc (suc n)))) method param req w files reply h =
      unchanged (fail-procs c m (rsp_error StatusCode.method_not_allowed none) w files reply h)

  -- If a request is answered, then a subscriber that followed the notifications before still does so after it;
  -- and a GET request, whatever its path, leaves the processes, the notifications and the shutdown state
  -- as they were.
  pub dispatch-Dispatched :
      (req : Request) (w : Procs) (files : OpenFiles) (reply : Reply Rsp)
      → dispatch c m req w files ≡ returned reply
      → Dispatched req.method w reply
  unfolding dispatch
  dispatch-Dispatched req w files reply h = elim (Option-cases (c.at routes req.path)) [
    | inl missing ↦ unchanged (fail-procs c m not_found w files reply (rw (missing, dispatch) at h))
    | inr (found, matched) ↦
        route-Dispatched found.value req.method found.param req w files reply
          (rw (matched, dispatch) at h)
  ]

-- ===== src/Http/Router.antt =====
-- The router of src/http.rs: which handler a request gets. The path is matched first, the method second.
use Prim.Native.String.{◌++◌ as cat}
use procstar.Prelude.{
  ℕ, zero, suc, String, List, [], ◌∷◌, Option, none, some, Result, ok, err, str_eq, if◌then◌else◌,
}
use procstar.Spec
use procstar.Sys.Files.{OpenFiles}
use procstar.Procs.Table.{Procs}
use procstar.Procs.Start.{Outcome, and_next, panics}
use procstar.Proto.{Machine}
use procstar.Io.{Bytes}
use procstar.Http.Status.{StatusCode, Method}
use procstar.Http.{RspError, rsp_error, bad_request, Rsp, Request, Crates, Reply, json_response}
use procstar.Http.Handlers.{
  not_found, procs_get, procs_id_get, procs_id_delete, procs_post, procs_signal_signum_post,
  procs_output_data_get, respond_json,
}

-- `Router::new`.
abbrev pub routes : List (String × ℕ)
routes =
    ("/procs", 0)
    ∷ ("/procs/:id", 1)
    ∷ ("/procs/:id/signals/:signum", 2)
    ∷ ("/procs/:id/output/:fd/data", 3)
    ∷ []

module _ (c : Crates) where
  abbrev pub parsed_body : Result String Spec.Procs → Result RspError Spec.Procs
  parsed_body (ok specs) = ok specs
  parsed_body (err e) = err (bad_request (cat "parsing body: " e))

  abbrev pub body_with : Option String → Bytes → Result RspError Spec.Procs
  body_with none bytes = err (bad_request "body not JSON")
  body_with (some content_type) [] =
      if str_eq content_type "application/json"
      then err (bad_request "no body")
      else err (bad_request "body not JSON")
  body_with (some content_type) (b ∷ bytes) =
      if str_eq content_type "application/json"
      then parsed_body (c.from_slice (b ∷ bytes))
      else err (bad_request "body not JSON")

  unfoldable pub get_body_json : Request → Result RspError Spec.Procs
  unfolding bad_request
  get_body_json req = elim req.body [
    | err e ↦ err (bad_request (cat "reading body: " e))
    | ok bytes ↦ body_with req.content_type bytes
  ]

  module _ (m : Machine) where
    -- `json_response(Err(..))`.
    abbrev pub fail : RspError → Procs → OpenFiles → Outcome (Reply Rsp)
    fail e w files = respond_json c m (record { answer = err e; procs = w; files = files })

    -- `m.params.get(p).unwrap()`.
    abbrev pub with_param : Option String → (String → Outcome (Reply Rsp)) → Outcome (Reply Rsp)
    with_param none f = panics
    with_param (some value) f = f value

    abbrev pub post_specs : Result RspError Spec.Procs → Procs → OpenFiles → Outcome (Reply Rsp)
    post_specs (ok specs) w files = and_next (procs_post m specs w files) (respond_json c m)
    post_specs (err e) w files = fail e w files

    -- The match on the route's number and the method.
    abbrev pub route :
        ℕ → Method → (String → Option String) → Request → Procs → OpenFiles → Outcome (Reply Rsp)
    route zero Method.get param req w files = and_next (procs_get m w files) (respond_json c m)
    route zero Method.post param req w files = post_specs (get_body_json req) w files
    route (suc zero) Method.get param req w files =
        with_param (param "id") λ id. and_next (procs_id_get m id w files) (respond_json c m)
    route (suc zero) Method.delete param req w files =
        with_param (param "id") λ id. and_next (procs_id_delete m id w files) (respond_json c m)
    route (suc (suc zero)) Method.post param req w files = with_param (param "id") λ id.
        with_param (param "signum")
          λ signum. and_next (procs_signal_signum_post m id signum w files) (respond_json c m)
    route (suc (suc (suc zero))) Method.get param req w files =
        with_param (param "id")
          λ id. with_param (param "fd") λ fd. procs_output_data_get c m id fd w files
    route _ _ param req w files = fail (rsp_error StatusCode.method_not_allowed none) w files

    unfoldable pub dispatch : Request → Procs → OpenFiles → Outcome (Reply Rsp)
    unfolding get_body_json procs_get procs_id_get procs_id_delete procs_post
        procs_signal_signum_post procs_output_data_get json_response
    dispatch req w files = elim (c.at routes req.path) [
      | some found ↦ route found.value req.method found.param req w files
      | none ↦ fail not_found w files
    ]

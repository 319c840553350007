-- ===== src/Http.antt =====
-- src/http.rs: the HTTP service of a procstar process. This file has its values and responses; hyper, the
-- matchit router and serde_json are the argument `Crates`, and a connection is a request at a time.
pub mod Status
pub mod Handlers
pub mod Router
pub mod Agreement
pub mod Unchanged
pub mod Dispatched
pub mod Service
pub mod Served
use procstar.Prelude.{ℕ, Bool, String, List, [], ◌∷◌, Option, none, some, Result, ok, err}
use procstar.Io.{Bytes}
use procstar.Spec
use procstar.Spec.{CaptureEncoding, utf8, ProcId}
use procstar.Res.{Res, ProcRes}
use procstar.Procs.Table.{Procs}
use procstar.Sys.Files.{OpenFiles}
use procstar.Http.Status.{StatusCode, Method}
use procstar.Procs.Start.{Outcome, returned, panics}

-- What is built with `json!`; a result is serialized as it is.
pub data Value : Type 0 where
  null : Value
  text : String → Value
  result : ProcRes → Value
  results : Res → Value
  empty : Value
  object1 : (name : String) → Value → Value
  object2 : (name1 : String) → Value → (name2 : String) → Value → Value

pub data RspError : Type 0 where
  rsp_error : StatusCode → Option String → RspError

unfoldable pub bad_request : String → RspError
bad_request msg = rsp_error StatusCode.bad_request (some msg)

abbrev pub JsonResult : Type 0
JsonResult = Result RspError Value

pub data Body : Type 0 where
  json : String → Body
  data_ : Bytes → Body

pub record Rsp : Type 0 where
  pub status : StatusCode
  pub content_type : String
  pub body : Body

-- `http::Request`: what of it the service reads. A body that cannot be read to its end is an error.
pub record Request : Type 0 where
  pub method : Method
  pub path : String
  pub content_type : Option String
  pub body : Result String Bytes

-- The number of the route that a path matches, and the values of its parameters.
pub record Match : Type 0 where
  pub value : ℕ
  pub param : String → Option String

pub record Crates : Type 0 where
  -- The `Display` of a status.
  pub show_status : StatusCode → String
  -- `serde_json::to_string`.
  pub to_string : Value → Result String String
  -- `serde_json::from_slice::<Input>`.
  pub from_slice : Bytes → Result String Spec.Procs
  -- `matchit::Router::at`, on the routes that were inserted.
  pub at : List (String × ℕ) → String → Option Match

-- What a handler gives back, with the shared state and the open files after it.
pub record Reply (A : Type 0) : Type 0 where
  pub answer : A
  pub procs : Procs
  pub files : OpenFiles

abbrev pub replied : {A : Type 0} → A → Procs → OpenFiles → Outcome (Reply A)
replied answer w files = returned (record { answer = answer; procs = w; files = files })

abbrev pub json_rsp : StatusCode → String → Rsp
json_rsp status body = record {
  status = status;
  content_type = "application/json";
  body = Body.json body;
}

abbrev pub detail : Option String → Value
detail none = Value.null
detail (some msg) = Value.text msg

module _ (c : Crates) where
  unfoldable pub wrap_error : StatusCode → Option String → Value
  wrap_error status msg =
      Value.object1 "errors"
        (Value.object2 "status" (Value.text (c.show_status status)) "detail" (detail msg))

  -- The status and the value of a result.
  abbrev pub status_and_data : JsonResult → StatusCode × Value
  status_and_data (ok v) = (StatusCode.ok, Value.object1 "data" v)
  status_and_data (err (rsp_error status msg)) = (status, wrap_error status msg)

  -- `serde_json::to_string(..).unwrap()` for the error of the first attempt.
  abbrev pub second_try : Result String String → Outcome Rsp
  second_try (ok body) = returned (json_rsp StatusCode.internal_server_error body)
  second_try (err e) = panics

  abbrev pub encoded : StatusCode → Result String String → Outcome Rsp
  encoded status (ok body) = returned (json_rsp status body)
  encoded status (err e) =
      second_try (c.to_string (wrap_error StatusCode.internal_server_error (some e)))

  unfoldable pub json_response : JsonResult → Outcome Rsp
  unfolding wrap_error
  json_response rsp = let (status, v) = status_and_data rsp in encoded status (c.to_string v)

-- ===== src/Http/Service.antt =====
-- `run_http` of src/http.rs: the loop that accepts connections, and the task of each connection, which
-- answers its requests one after the other. A panic of a request ends the run of the model.
use procstar.Prelude.{
  ℕ, suc, Bool, false, ◌==◌, ◌||◌, String, List, [], ◌∷◌, Option, none, some, Result, ok, err,
  if◌then◌else◌,
}
use procstar.Sys.Files.{OpenFiles}
use procstar.Procs.Table.{Procs}
use procstar.Procs.Changes.{Op, run}
use procstar.Procs.Start.{Outcome, returned, and_next}
use procstar.Proto.{Machine}
use procstar.Http.{Rsp, Request, Crates, Reply}
use procstar.Http.Router.{dispatch}

-- What may come next: a connection, or the failure to accept one; a request on a connection, or its end,
-- maybe with an error, which is only printed; and changes that other tasks make.
pub data Event : Type 0 where
  accepted : Event
  accept_failed : (error : String) → Event
  request : (connection : ℕ) (req : Request) → Event
  served : (connection : ℕ) (result : Result String (Unit {0})) → Event
  others : (ops : List Op) → Event

-- `ended` is the error with which the service returns. Connections are numbered as they come; the
-- responses are the latest first.
pub record Service : Type 0 where
  pub procs : Procs
  pub files : OpenFiles
  pub count : ℕ
  pub open_connections : List ℕ
  pub responses : List (ℕ × Rsp)
  pub ended : Option String

-- The task of connection `k` is there.
abbrev pub has : List ℕ → ℕ → Bool
has [] k = false
has (j ∷ ks) k = (j == k) || has ks k

abbrev pub without : ℕ → List ℕ → List ℕ
without k [] = []
without k (j ∷ ks) = let rest = without k ks in if j == k then rest else j ∷ rest

abbrev pub accept : Service → Service
accept s = record s { count = suc s.count; open_connections = s.count ∷ s.open_connections }

abbrev pub respond : ℕ → Service → Reply Rsp → Service
respond k s reply = record s {
  procs = reply.procs;
  files = reply.files;
  responses = (k, reply.answer) ∷ s.responses;
}

abbrev pub new_service : Option String → Procs → OpenFiles → Service
new_service ended w files = record {
  procs = w;
  files = files;
  count = 0;
  open_connections = [];
  responses = [];
  ended = ended;
}

module _ (c : Crates) (m : Machine) where
  -- What follows one event; a connection that is not open brings no request.
  unfoldable pub on_event : Event → Service → Outcome Service
  unfolding dispatch run
  on_event accepted s = returned (accept s)
  on_event (accept_failed e) s = returned (record s { ended = some e })
  on_event (request k req) s =
      let answered =
        and_next (dispatch c m req s.procs s.files) (λ reply. returned (respond k s reply)) in
      if has s.open_connections k then answered else returned s
  on_event (served k result) s =
      returned (record s { open_connections = without k s.open_connections })
  on_event (others ops) s = returned (record s { procs = run ops s.procs })

  -- The loop of `run_http`, up to its end or to where the events have come.
  unfoldable pub serve : List Event → Service → Outcome Service
  unfolding on_event
  serve [] s = returned s
  serve (event ∷ events) s = elim s.ended [
    | some e ↦ returned s
    | none ↦ and_next (on_event event s) (serve events)
  ]

  -- `run_http`; the answer of `bind` comes first.
  unfoldable pub run_http :
      Result String (Unit {0}) → List Event → Procs → OpenFiles → Outcome Service
  unfolding serve
  run_http bound events w files = elim bound [
    | ok _ ↦ serve events (new_service none w files)
    | err e ↦ returned (new_service (some e) w files)
  ]

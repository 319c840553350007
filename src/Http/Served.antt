-- ===== src/Http/Served.antt =====
-- What the service of src/http.rs does to the shared state of the agent, and when it ends.
use procstar.Prelude.{
  ℕ, ◌≡◌, refl, subst, ap, ◌∙◌, String, List, [], ◌∷◌, Option, none, some, Result, ok, err,
  Bool-cases, Option-cases, inl, inr,
}
use procstar.Sys.Files.{OpenFiles}
use procstar.Procs.Table.{Procs}
use procstar.Procs.Changes.{Follows}
use procstar.Procs.Following.{run-Follows-from}
use procstar.Procs.Start.{returned, and_next}
use procstar.Procs.Returned.{and_next-eq, returned_inj}
use procstar.Proto.{Machine}
use procstar.Http.{Request, Crates}
use procstar.Http.Status.{Method}
use procstar.Http.Router.{dispatch}
use procstar.Http.Dispatched.{dispatch-Dispatched}
use procstar.Http.Service.{
  Event, accepted, accept_failed, request, served, others, Service, has, respond, new_service,
  on_event, serve, run_http,
}

-- The error of `bind`, or else the first failure to accept a connection.
abbrev pub first_failure : Option String → List Event → Option String
first_failure (some e) events = some e
first_failure none [] = none
first_failure none (accept_failed e ∷ events) = some e
first_failure none (accepted ∷ events) = first_failure none events
first_failure none (request k req ∷ events) = first_failure none events
first_failure none (served k result ∷ events) = first_failure none events
first_failure none (others ops ∷ events) = first_failure none events

abbrev pub failed : Result String (Unit {0}) → Option String
failed (ok _) = none
failed (err e) = some e

-- The clients only read, and no other task changes anything.
abbrev pub Reads : List Event → Type 0
Reads [] = Unit
Reads (request k req ∷ events) = (req.method ≡ Method.get) × Reads events
Reads (others ops ∷ events) = ⊥
Reads (accepted ∷ events) = Reads events
Reads (accept_failed e ∷ events) = Reads events
Reads (served k result ∷ events) = Reads events

-- What the service has done by the time of `s'`.
pub record Served (events : List Event) (ended : Option String) (w : Procs) (s' : Service)
    : Type 0 where
  pub follows : Follows w → Follows s'.procs
  pub safe : Reads events → s'.procs ≡ w
  pub over : s'.ended ≡ first_failure ended events

module _ (c : Crates) (m : Machine) where
  unchanged :
      (s : Service) (events : List Event)
      → s.ended ≡ first_failure s.ended events
      → Served events s.ended s.procs s
  unchanged s events e = record { follows = λ f. f; safe = λ r. refl; over = e }

  responded-Served :
      (k : ℕ) (req : Request) (s s' : Service)
      → s.ended ≡ none
      → and_next (dispatch c m req s.procs s.files) (λ reply. returned (respond k s reply))
        ≡ returned s'
      → Served (request k req ∷ []) none s.procs s'
  responded-Served k req s s' going h =
      let (reply, e, h1) = and_next-eq (dispatch c m req s.procs s.files) _ h in
      let d = dispatch-Dispatched c m req s.procs s.files reply e in
      subst (Served (request k req ∷ []) none s.procs) (returned_inj h1)
        (record { follows = d.follows; safe = λ r. d.safe r.0; over = going })

  on_event-Served :
      (event : Event) (s s' : Service)
      → s.ended ≡ none
      → on_event c m event s ≡ returned s'
      → Served (event ∷ []) none s.procs s'
  unfolding on_event
  on_event-Served accepted s s' going h =
      subst (Served (accepted ∷ []) none s.procs) (returned_inj h)
        (record { follows = λ f. f; safe = λ r. refl; over = going })
  on_event-Served (accept_failed e) s s' going h =
      subst (Served (accept_failed e ∷ []) none s.procs) (returned_inj h)
        (record { follows = λ f. f; safe = λ r. refl; over = refl })
  on_event-Served (request k req) s s' going h = elim (Bool-cases (has s.open_connections k)) [
    | inl there ↦ responded-Served k req s s' going (rw (there, on_event) at h)
    | inr closed ↦
        subst (Served (request k req ∷ []) none s.procs) (returned_inj (rw (closed, on_event) at h))
          (record { follows = λ f. f; safe = λ r. refl; over = going })
  ]
  on_event-Served (served k result) s s' going h =
      subst (Served (served k result ∷ []) none s.procs) (returned_inj h)
        (record { follows = λ f. f; safe = λ r. refl; over = going })
  on_event-Served (others ops) s s' going h =
      subst (Served (others ops ∷ []) none s.procs) (returned_inj h)
        (record { follows = run-Follows-from ops s.procs; safe = λ r. absurd r; over = going })

  first_failure-cons :
      (event : Event) (events : List Event)
      → first_failure (first_failure none (event ∷ [])) events ≡ first_failure none (event ∷ events)
  first_failure-cons accepted events = refl
  first_failure-cons (accept_failed e) events = refl
  first_failure-cons (request k req) events = refl
  first_failure-cons (served k result) events = refl
  first_failure-cons (others ops) events = refl

  Reads-cons :
      (event : Event) (events : List Event)
      → Reads (event ∷ events)
      → Reads (event ∷ []) × Reads events
  Reads-cons accepted events r = (tt, r)
  Reads-cons (accept_failed e) events r = (tt, r)
  Reads-cons (request k req) events r = ((r.0, tt), r.1)
  Reads-cons (served k result) events r = (tt, r)
  Reads-cons (others ops) events r = absurd r

  Served-cons :
      (event : Event) (events : List Event) (w : Procs) (s s' : Service)
      → Served (event ∷ []) none w s
      → Served events s.ended s.procs s'
      → Served (event ∷ events) none w s'
  Served-cons event events w s s' first rest = record {
    follows = λ f. rest.follows (first.follows f);
    safe = λ r. let (now, later) = Reads-cons event events r in rest.safe later ∙ first.safe now;
    over =
        rest.over ∙ ap (λ e. first_failure e events) first.over ∙ first_failure-cons event events;
  }

  first_failure-nil : (ended : Option String) → ended ≡ first_failure ended []
  first_failure-nil none = refl
  first_failure-nil (some e) = refl

  serve-Served :
      (events : List Event) (s s' : Service)
      → serve c m events s ≡ returned s'
      → Served events s.ended s.procs s'
  unfolding serve
  serve-Served [] s s' h =
      subst (Served [] s.ended s.procs) (returned_inj h)
        (unchanged s [] (first_failure-nil s.ended))
  serve-Served (event ∷ events) s s' h = elim (Option-cases s.ended) [
    | inl going ↦
        let (s1, e, h1) = and_next-eq (on_event c m event s) _ (rw (going, serve) at h) in
        rw (going) (
          Served-cons event events s.procs s1 s' (on_event-Served event s s1 going e)
            (serve-Served events s1 s' h1))
    | inr (e, over) ↦
        subst (Served (event ∷ events) s.ended s.procs) (returned_inj (rw (over, serve) at h))
          (unchanged s (event ∷ events) (rw (over) refl))
  ]

  -- As long as no request panics or makes the program exit: a subscriber that followed the notifications
  -- still does so, whatever requests come over whatever connections and whatever other tasks change; if
  -- all requests are GET and no other task changes anything, the shared state stays as it was; and the
  -- service has ended exactly with the failure to bind its address, or else with the first failure to
  -- accept a connection.
  pub run_http-Served :
      (bound : Result String (Unit {0})) (events : List Event) (w : Procs) (files : OpenFiles)
      (s : Service)
      → run_http c m bound events w files ≡ returned s
      → Served events (failed bound) w s
  unfolding run_http
  run_http-Served (ok _) events w files s h = serve-Served events (new_service none w files) s h
  run_http-Served (err e) events w files s h =
      subst (Served events (some e) w) (returned_inj h)
        (unchanged (new_service (some e) w files) events refl)

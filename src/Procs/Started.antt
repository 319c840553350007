-- ===== src/Procs/Started.antt =====
-- When processes are started, and what is registered of them.
use procstar.Prelude.{
  ℤ, ◌+◌, ◌≡◌, refl, sym, ap, ◌∙◌, ◌↔◌, arith, Bool, false, List, [], ◌∷◌, ◌++◌, Option, none, some,
  Result, ok, err, Exec, done, panicked, ◌⊎◌, contains, string_key, All, keys, length,
  length-append, Result-cases, inl, inr,
}
use procstar.Io.{IoError}
use procstar.Message.{IncomingMessage}
use procstar.Prelude.{String}
use procstar.Shutdown
use procstar.Shutdown.{is_active}
use procstar.Spec
use procstar.Spec.{ProcId, RawFd}
use procstar.Spec.Validate.{validate_procs_fds}
use procstar.Spec.Wired.{Distinct, IsWired}
use procstar.Spec.Laws.{validate_procs_fds_iff}
use procstar.Err
use procstar.Environ.{build_from}
use procstar.Fd.{OpenFlags}
use procstar.Fd.Pipes.{Pipes, close}
use procstar.Fd.Handlers.{make_fd_handlers}
use procstar.Spec.Properties.{set_up_slice}
use procstar.Procs.Proc.{Proc, FdHandlers, new_proc}
use procstar.Procs.Table.{SharedProc, Procs, get_proc_ids, get_shutdown}
use procstar.Procs.Changes.{Op, run, apply}
use procstar.Procs.Start.{
  Answers, find_used, check_with, check_start, start_procs, start_all, start_one, parent_errors,
  after_fork, register, returned, or_panic, or_exit, unwrap, get_exe, enabled,
}
use procstar.Procs.Returned.{
  and_next-eq, returned_inj, assert_none-value, try_step-ok, try_step-err,
}

find_used-none :
    (old : List ProcId) (specs : Spec.Procs)
    → (find_used old specs ≡ none) ↔ All (λ id. contains old id ≡ false) (keys specs)
unfolding keys
find_used-none old [] = ground arith
find_used-none old ((id, spec) ∷ specs) = ground (arith, find_used-none old specs)

check_with-ok :
    (used : Option ProcId) (valid : Exec (Result Spec.Error (Unit {0}))) (state : Shutdown.State)
    → (check_with used valid state ≡ done (ok tt))
      ↔ ((used ≡ none) × (valid ≡ done (ok tt)) × (state ≡ Shutdown.State.active))
check_with-ok (some id) valid state = ground arith
check_with-ok none panicked state = ground arith
check_with-ok none (done (err e)) state = ground arith
check_with-ok none (done (ok _)) Shutdown.State.active = ((λ h. (refl, refl, refl)), λ h. refl)
check_with-ok none (done (ok _)) Shutdown.State.idling = ground arith
check_with-ok none (done (ok _)) Shutdown.State.done = ground arith

-- The checks on specs under distinct proc ids pass exactly when none of the ids is in use, the specs are
-- well wired and the agent is not shutting down.
pub check_start_iff :
    (pick : ProcId × RawFd → List (ProcId × RawFd) → ProcId × RawFd) (specs : Spec.Procs)
    (w : Procs)
    → Distinct (keys specs)
    → (check_start pick specs w ≡ done (ok tt)) ↔ (
        All (λ id. contains (get_proc_ids w) id ≡ false) (keys specs)
        × IsWired specs
        × (get_shutdown w ≡ Shutdown.State.active))
unfolding check_start
check_start_iff pick specs w d =
    let used = find_used-none (get_proc_ids w) specs in
    let valid = validate_procs_fds_iff pick specs d in
    let all =
      check_with-ok (find_used (get_proc_ids w) specs) (validate_procs_fds pick specs)
        (get_shutdown w) in
    (
      λ h. let (a, b, c) = all.0 h in (used.0 a, valid.0 b, c),
      λ (fresh, wired, active). all.1 (used.1 fresh, valid.1 wired, active),
    )

-- The changes that starting processes makes, one after the other.
abbrev pub starts : List (ProcId × Proc) → List Op
starts [] = []
starts ((id, proc) ∷ started) = Op.starts id proc ∷ starts started

-- Processes of the first specs, in the specs' order, have been started, and all of them if there is no error.
pub record Started (specs : Spec.Procs) (tasks : List SharedProc) (w : Procs)
    (result : Result Err.Error (List SharedProc)) (after : Procs) : Type 0 where
  pub started : List (ProcId × Proc)
  pub rest : List ProcId
  pub registered : after ≡ run (starts started) w
  pub in_order : keys started ++ rest ≡ keys specs
  pub all :
      (all_tasks : List SharedProc)
      → result ≡ ok all_tasks
      → (rest ≡ []) × (length all_tasks ≡ length tasks + length specs)

module _ (debug : IncomingMessage → String) (flags : OpenFlags) (systemd : Bool)
    (os : ProcId → Answers) (sys_close : RawFd → Result IoError (Unit {0})) where
  after_fork_cases :
      (answers : Answers) (id : ProcId) (pid : ℤ) (handlers : FdHandlers) (pipes : Pipes)
      (w after : Procs) (result : Result Err.Error (SharedProc × Pipes))
      (units : Result Err.Error (Option String × Option String))
      → after_fork debug systemd answers id pid handlers pipes w units ≡ returned (result, after)
      → ((e : Err.Error) × (result ≡ err e) × (after ≡ w))
        ⊎ ((out : SharedProc × Pipes) × (proc : Proc) × (result ≡ ok out)
            × (after ≡ apply (Op.starts id proc) w))
  unfolding apply register new_proc
  after_fork_cases answers id pid handlers pipes w after result (err e) h =
      let p = returned_inj h in inl (e, sym (ap (λ q. q.0) p), sym (ap (λ q. q.1) p))
  after_fork_cases answers id pid handlers pipes w after result (ok (slice, scope)) h =
      let (_, _, h1) = and_next-eq (unwrap answers.write_event) _ h in
      let p = returned_inj h1 in
      inr (
        (w.next, pipes),
        record (new_proc pid slice scope systemd answers.start_time answers.start_instant
            handlers) { errors = parent_errors debug answers.sys_close handlers },
        sym (ap (λ q. q.0) p),
        sym (ap (λ q. q.1) p),
      )

  -- A step of the loop fails and leaves the state alone, or registers one process.
  start_one_cases :
      (answers : Answers) (id : ProcId) (spec : Spec.Proc) (pipes : Pipes) (w after : Procs)
      (result : Result Err.Error (SharedProc × Pipes))
      → start_one debug flags systemd answers id spec pipes w ≡ returned (result, after)
      → ((e : Err.Error) × (result ≡ err e) × (after ≡ w))
        ⊎ ((out : SharedProc × Pipes) × (proc : Proc) × (result ≡ ok out)
            × (after ≡ apply (Op.starts id proc) w))
  unfolding start_one apply register
  start_one_cases answers id spec pipes w after result h =
      let (exe, _, h1) = and_next-eq (or_panic (get_exe spec.exe spec.argv)) _ h in
      let (env, _, h1') = and_next-eq (or_panic (build_from answers.env_vars spec.env)) _ h1 in
      let (_, _, h2) = and_next-eq (or_exit answers.error_pipe) _ h1' in
      let (_, _, h3) = and_next-eq (or_exit answers.event_fd) _ h2 in
      let ((handlers, pipes'), _, h4) =
        and_next-eq (or_panic (make_fd_handlers flags answers.fd_os 0 pipes id spec.fds)) _ h3 in
      let (pid, _, h5) = and_next-eq (unwrap answers.fork) _ h4 in
      after_fork_cases answers id pid handlers pipes' w after result
        (set_up_slice pid spec.systemd_properties (enabled systemd answers.start_unit)) h5

  start_all-Started :
      (specs : Spec.Procs) (pipes : Pipes) (tasks : List SharedProc) (w after : Procs)
      (result : Result Err.Error (List SharedProc))
      → start_all debug flags systemd os sys_close specs pipes tasks w ≡ returned (result, after)
      → Started specs tasks w result after
  unfolding start_all keys run
  start_all-Started [] pipes tasks w after result h =
      let (r, a) = assert_none-value (close sys_close pipes) tasks w after result h in
      record {
        started = [];
        rest = [];
        registered = a;
        in_order = refl;
        all = λ all_tasks e. (refl, omega (arith, r all_tasks e));
      }
  start_all-Started ((id, spec) ∷ specs) pipes tasks w after result h =
      let ((step, w'), e, h1) =
        and_next-eq (start_one debug flags systemd (os id) id spec pipes w) _ h in
      elim (start_one_cases (os id) id spec pipes w w' step e) [
        | inl (bad, failed, same_state) ↦
            let p = returned_inj (try_step-err _ failed h1) in
            record {
              started = [];
              rest = id ∷ keys specs;
              registered = sym (ap (λ q. q.1) p) ∙ same_state;
              in_order = refl;
              all = λ all_tasks f. cc (ap (λ q. q.0) p, f);
            }
        | inr ((r, pipes'), proc, made, next) ↦
            let more =
              start_all-Started specs pipes' (tasks ++ r ∷ []) w' after result
                (try_step-ok _ made h1) in
            record {
              started = (id, proc) ∷ more.started;
              rest = more.rest;
              registered = more.registered ∙ ap (run (starts more.started)) next;
              in_order = ap (λ ids. id ∷ ids) more.in_order;
              all = λ all_tasks f.
                  let (none_left, n) = more.all all_tasks f in
                  (none_left, omega (arith, n, length-append tasks (r ∷ [])));
            }
      ]

-- If `start_procs` returns, then it has registered processes for the first of the specs, in their order,
-- and made no other change to the shared state; if it returns tasks, these are as many as the specs, and
-- every spec has its process.
pub start_procs-Started :
    (debug : IncomingMessage → String)
    (pick : ProcId × RawFd → List (ProcId × RawFd) → ProcId × RawFd) (flags : OpenFlags)
    (systemd : Bool) (os : ProcId → Answers) (sys_close : RawFd → Result IoError (Unit {0}))
    (specs : Spec.Procs) (w after : Procs) (result : Result Err.Error (List SharedProc))
    → start_procs debug pick flags systemd os sys_close specs w ≡ returned (result, after)
    → Started specs [] w result after
unfolding start_procs run keys
start_procs-Started debug pick flags systemd os sys_close specs w after result h =
    let (checked, _, h1) = and_next-eq (or_panic (check_start pick specs w)) _ h in
    elim (Result-cases checked) [
      | inl (_, passed) ↦
          start_all-Started debug flags systemd os sys_close specs [] [] w after result
            (try_step-ok _ passed h1)
      | inr (bad, failed) ↦
          let p = returned_inj (try_step-err _ failed h1) in
          record {
            started = [];
            rest = keys specs;
            registered = sym (ap (λ q. q.1) p);
            in_order = refl;
            all = λ all_tasks f. cc (ap (λ q. q.0) p, f);
          }
    ]

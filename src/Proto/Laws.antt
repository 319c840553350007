-- ===== src/Proto/Laws.antt =====
-- What an agent answers to its server, and what the messages do to the shared state.
use procstar.Prelude.{
  ℤ, ◌≡◌, refl, subst, arith, String, Option, none, some, Result, ok, err, Option-cases,
  Result-cases, inl, inr,
}
use procstar.Message.{
  IncomingMessage, OutgoingMessage, registered, proc_start_request, procid_list_request,
  proc_result_request, proc_signal_request, proc_fd_data_request, proc_delete_request,
  request_error, proc_unknown,
}
use procstar.Spec
use procstar.Spec.{ProcId, FdName}
use procstar.Spec.Fds.{parse_fd}
use procstar.Sig.{Signum}
use procstar.Err
use procstar.Sys.Files.{OpenFiles}
use procstar.Fd.{FdData}
use procstar.Procs.Table.{Procs, get_proc, remove_if_not_running}
use procstar.Procs.Changes.{Op, apply, Follows}
use procstar.Procs.Evolving.{Evolves, stays, one_change, Evolves-Follows}
use mathlib.Core.Option
use procstar.Res.{as_u64}
use procstar.Procs.Proc.{to_result, get_fd_data}
use procstar.Procs.Start.{Outcome, returned, or_panic, start_procs}
use procstar.Procs.Started.{start_procs-Started, starts}
use procstar.Procs.Returned.{and_next-eq, returned_inj}
use procstar.Proto.{
  Machine, Handled, handle_start, handle_result, handle_signal, handle_fd_data, handle_incoming,
  fd_data, incoming_error, unless_error, deleted,
}

-- An error names the request that it answers.
abbrev pub Echoes : IncomingMessage → Option OutgoingMessage → Type 0
Echoes msg response =
    (other : IncomingMessage) (text : String)
    → response ≡ some (request_error other text)
    → other ≡ msg

module _ (m : Machine) where
  unless_error-Echoes :
      {A : Type 0} (msg : IncomingMessage) (result : Result Err.Error A)
      → Echoes msg (unless_error m msg result)
  unfolding incoming_error
  unless_error-Echoes msg (ok a) other text h = cc
  unless_error-Echoes msg (err e) other text h = cc

  deleted-Echoes :
      {A : Type 0} (msg : IncomingMessage) (result : Result Err.Error A)
      → Echoes msg (deleted m msg result)
  unfolding incoming_error
  deleted-Echoes msg result other text h = ground (arith, h)

  fd_data-Echoes :
      (id : ProcId) (fd : FdName) (start : ℤ) (stop : Option ℤ)
      (got : Result Err.Error (Option FdData))
      → Echoes
          (proc_fd_data_request id fd start stop)
          (some (fd_data m (proc_fd_data_request id fd start stop) id fd start stop got))
  unfolding incoming_error
  fd_data-Echoes id fd start stop (ok (some d)) other text h = cc
  fd_data-Echoes id fd start stop (ok none) other text h = cc
  fd_data-Echoes id fd start stop (err e) other text h = cc

  -- What every request does.
  record Keeps (msg : IncomingMessage) (w : Procs) (out : Handled) : Type 0 where
    pub evolves : Evolves w out.procs
    pub echoes : Echoes msg out.response

  returned-Keeps :
      {msg : IncomingMessage} {w : Procs} {made out : Handled}
      → returned made ≡ returned out
      → Keeps msg w made
      → Keeps msg w out
  returned-Keeps {msg = msg} {w = w} h k = subst (Keeps msg w) (returned_inj h) k

  handle_start-Keeps :
      (specs : Spec.Procs) (w : Procs) (files : OpenFiles) (out : Handled)
      → handle_start m specs w files ≡ returned out
      → Keeps (proc_start_request specs) w out
  unfolding handle_start
  handle_start-Keeps specs w files out h =
      let ((result, w'), e, h1) =
        and_next-eq (start_procs m.debug m.pick m.flags m.systemd m.answers m.sys_close specs w) _
          h in
      let st =
        start_procs-Started m.debug m.pick m.flags m.systemd m.answers m.sys_close specs w w' result
          e in
      returned-Keeps h1 (record {
        evolves = (starts st.started, st.registered);
        echoes = unless_error-Echoes (proc_start_request specs) result;
      })

  handle_result-Keeps :
      (id : ProcId) (w : Procs) (files : OpenFiles) (out : Handled)
      → handle_result m id w files ≡ returned out
      → Keeps (proc_result_request id) w out
  unfolding handle_result
  handle_result-Keeps id w files out h = elim (Option-cases (get_proc id w)) [
    | inl missing ↦
        returned-Keeps (rw (missing, handle_result) at h)
          (record { evolves = stays w; echoes = λ other text e. cc })
    | inr (r, found) ↦
        let ((res, files'), _, h1) =
          and_next-eq (or_panic (to_result m.snapshot files (w.heap r))) _
            (rw (found, handle_result) at h) in
        returned-Keeps h1 (record { evolves = stays w; echoes = λ other text e. cc })
  ]

  handle_signal-Keeps :
      (id : ProcId) (signum : Signum) (w : Procs) (files : OpenFiles) (out : Handled)
      → handle_signal m id signum w files ≡ returned out
      → Keeps (proc_signal_request id signum) w out
  unfolding handle_signal
  handle_signal-Keeps id signum w files out h = elim (Option-cases (get_proc id w)) [
    | inl missing ↦
        returned-Keeps (rw (missing, handle_signal) at h)
          (record { evolves = stays w; echoes = λ other text e. cc })
    | inr (r, found) ↦ returned-Keeps (rw (found, handle_signal) at h) (record {
      evolves = stays w;
      echoes = unless_error-Echoes (proc_signal_request id signum) _;
    })
  ]

  handle_fd_data-Keeps :
      (id : ProcId) (fd : FdName) (start : ℤ) (stop : Option ℤ) (w : Procs) (files : OpenFiles)
      (out : Handled)
      → handle_fd_data m id fd start stop w files ≡ returned out
      → Keeps (proc_fd_data_request id fd start stop) w out
  unfolding handle_fd_data incoming_error
  handle_fd_data-Keeps id fd start stop w files out h = elim (Result-cases (parse_fd fd)) [
    | inr (e, bad) ↦
        returned-Keeps (rw (bad, handle_fd_data) at h)
          (record { evolves = stays w; echoes = λ other text e. cc })
    | inl (n, parsed) ↦ elim (Option-cases (get_proc id w)) [
      | inl missing ↦
          returned-Keeps (rw (parsed, missing, handle_fd_data) at h)
            (record { evolves = stays w; echoes = λ other text e. cc })
      | inr (r, found) ↦
          let ((got, files'), _, h1) =
            and_next-eq
              (or_panic (get_fd_data files (w.heap r) n (as_u64 start) (Option.map as_u64 stop))) _
              (rw (parsed, found, handle_fd_data) at h) in
          returned-Keeps h1
            (record { evolves = stays w; echoes = fd_data-Echoes id fd start stop got })
    ]
  ]

  handle_incoming-Keeps :
      (msg : IncomingMessage) (w : Procs) (files : OpenFiles) (out : Handled)
      → handle_incoming m msg w files ≡ returned out
      → Keeps msg w out
  unfolding handle_incoming apply
  handle_incoming-Keeps registered w files out h =
      returned-Keeps h (record { evolves = stays w; echoes = λ other text e. cc })
  handle_incoming-Keeps procid_list_request w files out h =
      returned-Keeps h (record { evolves = stays w; echoes = λ other text e. cc })
  handle_incoming-Keeps (proc_start_request specs) w files out h =
      handle_start-Keeps specs w files out h
  handle_incoming-Keeps (proc_result_request id) w files out h =
      handle_result-Keeps id w files out h
  handle_incoming-Keeps (proc_signal_request id signum) w files out h =
      handle_signal-Keeps id signum w files out h
  handle_incoming-Keeps (proc_fd_data_request id fd start stop) w files out h =
      handle_fd_data-Keeps id fd start stop w files out h
  handle_incoming-Keeps (proc_delete_request id) w files out h = returned-Keeps h (record {
    evolves = one_change (Op.deletes id) w;
    echoes = deleted-Echoes (proc_delete_request id) (remove_if_not_running id w).0;
  })

  pub handle_incoming-Evolves :
      (msg : IncomingMessage) (w : Procs) (files : OpenFiles) (out : Handled)
      → handle_incoming m msg w files ≡ returned out
      → Evolves w out.procs
  handle_incoming-Evolves msg w files out h = (handle_incoming-Keeps msg w files out h).evolves

  -- If an incoming message is handled, a subscriber that followed the notifications before still does so
  -- after it.
  pub handle_incoming-Follows :
      (msg : IncomingMessage) (w : Procs) (files : OpenFiles) (out : Handled)
      → handle_incoming m msg w files ≡ returned out
      → Follows w
      → Follows out.procs
  handle_incoming-Follows msg w files out h =
      Evolves-Follows w out.procs (handle_incoming-Evolves msg w files out h)

  -- A response that reports an error carries the request that it answers.
  pub handle_incoming-Echoes :
      (msg : IncomingMessage) (w : Procs) (files : OpenFiles) (out : Handled)
      → handle_incoming m msg w files ≡ returned out
      → Echoes msg out.response
  handle_incoming-Echoes msg w files out h = (handle_incoming-Keeps msg w files out h).echoes

  -- A request for the result of a process, to signal it or to delete it, where the process is not known, is
  -- answered by exactly that, and changes nothing.
  handle_incoming-unknown :
      (id : ProcId) (signum : Signum) (w : Procs) (files : OpenFiles)
      → get_proc id w ≡ none
      → let out : Outcome Handled =
          returned (record { response = some (proc_unknown id); procs = w; files = files }) in
        (handle_incoming m (proc_result_request id) w files ≡ out)
        × (handle_incoming m (proc_signal_request id signum) w files ≡ out)
        × (handle_incoming m (proc_delete_request id) w files ≡ out)
  unfolding handle_incoming handle_result handle_signal remove_if_not_running get_proc
  handle_incoming-unknown id signum w files missing = (
    rw (missing, handle_incoming, handle_result) refl,
    rw (missing, handle_signal) refl,
    rw (missing, remove_if_not_running) refl,
  )

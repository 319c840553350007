-- ===== src/Procs/Looped.antt =====
-- The loop of `start_procs` of src/procs.rs: every pass registers a process and takes the ends of its pipes.
use procstar.Prelude.{
  ℤ, ◌≡◌, ◌⊎◌, inl, inr, refl, Bool, String, List, [], ◌∷◌, ◌++◌, Result, ok, err, All, string_key,
  pair_key, Result-cases, Option, none, BTreeMap, Exec, done, bind_exec,
}
use procstar.Io.{IoError}
use procstar.Message.{IncomingMessage}
use procstar.Spec
use procstar.Spec.{ProcId, RawFd}
use procstar.Spec.Validate.{PipeFds}
use procstar.Spec.Wired.{Names, Writes, Reads, AllWrites, AllReads, HasDistinctFds}
use procstar.Spec.Properties.{set_up_slice}
use procstar.Err
use procstar.Environ.{build, start_vars, build_from}
use procstar.Fd.{OpenFlags}
use procstar.Fd.Pipes.{Pipes}
use procstar.Fd.Balanced.{IsBalanced, close_balanced}
use procstar.Fd.Wiring.{MakesPipes, make_fd_handlers-Set}
use procstar.Procs.Table.{SharedProc, Procs}
use procstar.Procs.Start.{
  Answers, Outcome, returned, get_exe, enabled, start_one, start_all, register,
}

-- The system does what it is asked for, but for systemd, which may fail; and the variables of this process
-- are Unicode text.
pub record Works (answers : Answers) : Type 0 where
  pub vars : List (String × String)
  pub env_vars : answers.env_vars ≡ done vars
  pub error_pipe : answers.error_pipe ≡ ok tt
  pub event_fd : answers.event_fd ≡ ok tt
  pub makes_pipes : MakesPipes answers.fd_os
  pub pid : ℤ
  pub forks : answers.fork ≡ ok pid
  pub write_event : answers.write_event ≡ ok tt

build_from-done :
    (vars : Exec (List (String × String))) (known : List (String × String)) (spec : Spec.Env)
    → vars ≡ done known
    → (env : BTreeMap String String) × (build_from vars spec ≡ done env)
unfolding build_from
build_from-done vars known spec e = built spec.inherit
  where
    built :
        (inherit : Spec.EnvInherit)
        → (env : BTreeMap String String) × (bind_exec
              (start_vars inherit vars)
              (λ start_env. done (build start_env spec))
            ≡ done env)
    built Spec.EnvInherit.none = (_, refl)
    built Spec.EnvInherit.all = (build known spec, rw e refl)
    built (Spec.EnvInherit.vars names) = (build known spec, rw e refl)

-- The specs name something to run.
abbrev pub HasArgv : Spec.Proc → Type 0
HasArgv spec = (arg : String) × (argv : List String) × (spec.argv ≡ arg ∷ argv)

module _ (debug : IncomingMessage → String) (flags : OpenFlags) (systemd : Bool)
    (os : ProcId → Answers) (sys_close : RawFd → Result IoError (Unit {0})) where
  -- systemd fails to set up the units of one of the processes.
  pub data Fails : Spec.Procs → Err.Error → Type 0 where
    here :
        {id : ProcId} {spec : Spec.Proc} {specs : Spec.Procs} {e : Err.Error} (pid : ℤ)
        → set_up_slice pid spec.systemd_properties (enabled systemd (os id).start_unit) ≡ err e
        → Fails ((id, spec) ∷ specs) e
    later :
        {id : ProcId} {spec : Spec.Proc} {specs : Spec.Procs} {e : Err.Error}
        → Fails specs e
        → Fails ((id, spec) ∷ specs) e

  -- The parent has one more process and the pipes for the others, or systemd has failed.
  abbrev pub Stepped :
      ProcId
      → Spec.Proc
      → Pipes
      → Procs
      → PipeFds
      → PipeFds
      → Outcome (Result Err.Error (SharedProc × Pipes) × Procs)
      → Type 0
  Stepped id spec pipes w writes reads outcome =
      ((r : SharedProc) × (pipes' : Pipes) × (after : Procs) × (outcome
          ≡ returned (ok (r, pipes'), after))
        × IsBalanced pipes' writes reads)
      ⊎ ((e : Err.Error) × (pid : ℤ) × (after : Procs) × (outcome ≡ returned (err e, after))
          × (set_up_slice pid spec.systemd_properties (enabled systemd (os id).start_unit) ≡ err e))

  abbrev units_or_none :
      Result Err.Error (Option String × Option String) → Option String × Option String
  units_or_none (ok units) = units
  units_or_none (err e) = (none, none)

  start_one-Stepped :
      (id : ProcId) (spec : Spec.Proc) (pipes : Pipes) (w : Procs) (ns : List RawFd)
      (ks rs writes reads : PipeFds)
      → Works (os id)
      → HasArgv spec
      → Names spec.fds ns
      → Writes id spec.fds ks
      → Reads spec.fds rs
      → IsBalanced pipes (ks ++ writes) (rs ++ reads)
      → Stepped id spec pipes w writes reads (start_one debug flags systemd (os id) id spec pipes w)
  unfolding start_one get_exe
  start_one-Stepped id spec pipes w ns ks rs writes reads works (arg, argv, has) names ws rs' b =
      let (handlers, pipes', made, b') =
        make_fd_handlers-Set flags (os id).fd_os 0 pipes id spec.fds ns ks rs writes reads
          works.makes_pipes names ws rs' b in
      let (env, built) = build_from-done (os id).env_vars works.vars spec.env works.env_vars in
      let units =
        set_up_slice works.pid spec.systemd_properties (enabled systemd (os id).start_unit) in
      let (r, after) =
        register debug (os id) id works.pid systemd (units_or_none units) handlers w in
      elim (Result-cases units) [
        | inl (pair, started) ↦ inl (
          r,
          pipes',
          after,
          rw
              (
                has, get_exe, built, works.error_pipe, works.event_fd, made, works.forks, started,
                works.write_event,
              )
              refl,
          b',
        )
        | inr (e, failed) ↦ inr (
          e,
          works.pid,
          w,
          rw (has, get_exe, built, works.error_pipe, works.event_fd, made, works.forks, failed)
              refl,
          failed,
        )
      ]

  -- The loop ends with tasks, or with the failure of systemd for one of the processes.
  abbrev pub Ended : Spec.Procs → Outcome (Result Err.Error (List SharedProc) × Procs) → Type 0
  Ended specs outcome =
      ((tasks : List SharedProc) × (after : Procs) × (outcome ≡ returned (ok tasks, after)))
      ⊎ ((e : Err.Error) × (after : Procs) × (outcome ≡ returned (err e, after)) × Fails specs e)

  pub start_all-Ended :
      (specs : Spec.Procs) (pipes : Pipes) (tasks : List SharedProc) (w : Procs) (ks rs : PipeFds)
      → ((id : ProcId) → Works (os id))
      → All (λ p. HasArgv p.1) specs
      → All (λ p. HasDistinctFds p.1.fds) specs
      → AllWrites specs ks
      → AllReads specs rs
      → IsBalanced pipes ks rs
      → Ended specs (start_all debug flags systemd os sys_close specs pipes tasks w)
  unfolding start_all
  start_all-Ended [] pipes tasks w ks rs works _ _ AllWrites.nil AllReads.nil b =
      inl (tasks, w, rw (start_all, close_balanced sys_close pipes b) refl)
  start_all-Ended ((id, spec) ∷ specs) pipes tasks w ks rs works (argv, argvs) (names, namess)
        (AllWrites.cons {ks = ks1} {ls = ks2} ws wss ks_split)
        (AllReads.cons {ks = rs1} {ls = rs2} rd rds rs_split) b =
      let b' : IsBalanced pipes (ks1 ++ ks2) (rs1 ++ rs2) = rw (← ks_split, ← rs_split) b in
      elim (start_one-Stepped id spec pipes w names.numbers ks1 rs1 ks2 rs2 (works id) argv
        names.parsed ws rd b') [
          | inr (e, pid, after, stepped, failed) ↦
              inr (e, after, rw (stepped, start_all) refl, Fails.here pid failed)
          | inl (r, pipes', after, stepped, balanced) ↦
              elim (start_all-Ended specs pipes' (tasks ++ r ∷ []) after ks2 rs2 works argvs namess
                wss rds balanced) [
                  | inl (all_tasks, end, run) ↦ inl (all_tasks, end, rw (stepped, start_all) run)
                  | inr (e, end, run, failed) ↦
                      inr (e, end, rw (stepped, start_all) run, Fails.later failed)
                ]
        ]

-- ===== src/Main/Starts.antt =====
-- How the start of the program ends, of src/main.rs.
use procstar.Prelude.{
  ℕ, ◌≡◌, ◌⊎◌, Bool, true, false, String, List, [], Option, none, some, Result, ok, err, string_key,
}
use procstar.Io.{IoError}
use procstar.Message.{IncomingMessage}
use procstar.Spec
use procstar.Spec.{ProcId, RawFd, Input}
use procstar.Spec.Validate.{PipeFds}
use procstar.Err
use procstar.Fd.{OpenFlags}
use procstar.Procs.Proc.{Proc}
use procstar.Procs.Table.{SharedProc, Procs, new_procs}
use procstar.Procs.Start.{Answers, Outcome, returned, exits, start_procs}
use procstar.Procs.Started.{Started}
use procstar.Main.Startup.{Options, implied, has_mode, Files, load, Setup}

-- The values of the option that clap lets pass.
pub data IsLevel : Option String → Type 0 where
  default : IsLevel none
  trace : IsLevel (some "trace")
  debug : IsLevel (some "debug")
  info : IsLevel (some "info")
  warn : IsLevel (some "warn")
  error : IsLevel (some "error")

module _ (debug : IncomingMessage → String) (flags : OpenFlags) (systemd : Bool)
    (os : ProcId → Answers) (sys_close : RawFd → Result IoError (Unit {0}))
    (pick : ProcId × RawFd → PipeFds → ProcId × RawFd) (dataerr : ℕ)
    (heap : SharedProc → Proc) where
  abbrev pub start : Spec.Procs → Procs → Outcome (Result Err.Error (List SharedProc) × Procs)
  start = start_procs debug pick flags systemd os sys_close

  -- The program has exited, for want of a mode or at its input or its processes, or it runs with the processes of its input.
  pub data Starts (files : Files) (o : Options) : Outcome Setup → Type 0 where
    no_mode : has_mode (implied o) ≡ false → Starts files o (exits dataerr)
    not_loaded : (e : Spec.Error) → load files o.input ≡ err e → Starts files o (exits 2)
    not_started :
        (input : Input) (e : Err.Error) (w : Procs)
        → load files o.input ≡ ok input
        → start input.specs (new_procs heap) ≡ returned (err e, w)
        → Starts files o (exits dataerr)
    runs :
        (input : Input) (tasks : List SharedProc) (setup : Setup)
        → load files o.input ≡ ok input
        → Started input.specs [] (new_procs heap) (ok tasks) setup.procs
        → setup.options ≡ implied o
        → has_mode setup.options ≡ true
        → setup.restricted_exe ≡ o.restrict_exe
        → Starts files o (returned setup)

  -- What `start_input` gives for specs that can be started on a machine that works.
  abbrev Begins : Spec.Procs → Outcome Procs → Type 0
  Begins specs out =
      ((tasks : List SharedProc) × (w : Procs) × (out ≡ returned w)
        × Started specs [] (new_procs heap) (ok tasks) w)
      ⊎ ((e : Err.Error) × (w : Procs) × (out ≡ exits dataerr)
          × (start specs (new_procs heap) ≡ returned (err e, w)))

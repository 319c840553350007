-- ===== src/Main/Startup.antt =====
-- The start of the program, of src/main.rs and src/argv.rs: the options, the log level, and the specs that are
-- given on the command line. clap, the exitcode crate, the files and the clients are arguments.
use procstar.Prelude.{
  ℕ, Bool, true, false, String, List, [], Option, none, some, Result, ok, err, ◌||◌, str_eq,
  if◌then◌else◌,
}
use procstar.Io.{IoError}
use procstar.Spec
use procstar.Spec.{ProcId, RawFd, Input}
use procstar.Spec.Load.{new_input, load_stdin, load_file}
use procstar.Err
use procstar.Procs.Proc.{Proc}
use procstar.Procs.Table.{SharedProc, Procs, new_procs}
use procstar.Procs.Start.{Outcome, returned, panics, exits, and_next}

pub data Level : Type 0 where
  trace debug info warn error : Level

-- The names of the log levels; no other is read.
unfoldable pub parse_log_level : String → Option Level
parse_log_level level =
    if str_eq level "trace"
    then some trace
    else if str_eq level "debug"
    then some debug
    else if str_eq level "info"
    then some info
    else if str_eq level "warn"
    then some warn
    else if str_eq level "error"
    then some error
    else none

-- The options that the start reads.
pub record Options : Type 0 where
  pub log_level : Option String
  pub restrict_exe : Option String
  pub print : Bool
  pub output : Option String
  pub exit : Bool
  pub wait : Bool
  pub serve : Bool
  pub agent : Bool
  pub input : Option String

abbrev pub is_given : Option String → Bool
is_given none = false
is_given (some text) = true

-- To print or write results is to exit after them.
abbrev pub implied : Options → Options
implied o = record o { exit = o.exit || (o.print || is_given o.output) }

abbrev pub has_mode : Options → Bool
has_mode o = o.exit || (o.wait || (o.serve || o.agent))

-- `argv::parse`, from the options that clap has read.
unfoldable pub parse : ℕ → Options → Outcome Options
parse dataerr o = if has_mode (implied o) then returned (implied o) else exits dataerr

abbrev pub unwrap_level : Option Level → Outcome Level
unwrap_level none = panics
unwrap_level (some level) = returned level

-- The level to log at.
unfoldable pub log_level : Option String → Outcome Level
unfolding parse_log_level
log_level none = returned warn
log_level (some l) = unwrap_level (parse_log_level l)

-- What the files hold, and what serde_json makes of it.
pub record Files : Type 0 where
  pub stdin : Result String Input
  pub open_file : String → Result IoError (Unit {0})
  pub from_reader : String → Result String Input

unfoldable pub load : Files → Option String → Result Spec.Error Input
unfolding load_stdin load_file
load files none = ok new_input
load files (some p) =
    if str_eq p "-" then load_stdin files.stdin else load_file files.open_file files.from_reader p

-- `unwrap_or_else(.. exit(2))`.
abbrev pub or_exit : Result Spec.Error Input → Outcome Input
or_exit (ok input) = returned input
or_exit (err e) = exits 2

-- What the program runs with once it has started.
pub record Setup : Type 0 where
  pub options : Options
  pub level : Level
  pub restricted_exe : Option String
  pub procs : Procs

-- `unwrap_or_else(.. exit(DATAERR))`; the tasks are dropped, which does not end them.
abbrev pub started : ℕ → Result Err.Error (List SharedProc) × Procs → Outcome Procs
started dataerr (ok tasks, w) = returned w
started dataerr (err e, w) = exits dataerr

module _ (start : Spec.Procs → Procs → Outcome (Result Err.Error (List SharedProc) × Procs))
    (dataerr : ℕ) (heap : SharedProc → Proc) where
  -- The processes are started before any server; without specs nothing is started.
  abbrev pub start_input : Spec.Procs → Outcome Procs
  start_input [] = returned (new_procs heap)
  start_input specs = and_next (start specs (new_procs heap)) (started dataerr)

  -- `main`, up to the servers. `start` is `start_procs` with what the system answers to it.
  unfoldable pub start_up : Files → Options → Outcome Setup
  unfolding parse log_level load new_procs
  start_up files o = and_next (parse dataerr o) λ options.
      and_next (log_level options.log_level) λ level.
        and_next (or_exit (load files options.input)) λ input.
          and_next (start_input input.specs) λ procs. returned (record {
            options = options;
            level = level;
            restricted_exe = options.restrict_exe;
            procs = procs;
          })

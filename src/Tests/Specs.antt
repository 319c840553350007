-- ===== src/Tests/Specs.antt =====
-- Specs, environments, descriptors, signals and results.
use procstar.Prelude.{
  ◌⊎◌, ◌<◌, ◌≤◌, ℕ, insert, remove, ℤ, pos, ◌≡◌, ◌↔◌, refl, arith, String, List, [], ◌∷◌, none,
  some, Result, ok, err, done, panicked, get, keys, string_key, int_key, FitsI32, length,
}
use procstar.Io.{IoError}
use procstar.Sig.{parse_signum, get_abbrev, parse_signum-get_abbrev}
use procstar.Spec
use procstar.Spec.Fds.{parse_fd, get_fd_name, parse_fd-get_fd_name}
use procstar.Spec.Validate.{validate_procs_fds}
use procstar.Spec.Wired.{Distinct, IsWired}
use procstar.Spec.Laws.{validate_procs_fds_iff, validate_procs_fds_returns}
use procstar.Environ.{build}
use procstar.Environ.Laws.{get-build, expected}
use procstar.Res.{new_status}
use procstar.Sys.Files.{
  OpenFiles, read_from_file, InFile, FitsBuffer, max_offset, slice, read_from_file_cases,
}
use procstar.Tests.Data.{wired, pick, env, macros}

distinct : Distinct (keys wired)
unfolding keys
distinct k = ground arith

validate_runs : validate_procs_fds pick wired ≡ done (ok tt)
unfolding validate_procs_fds parse_fd
validate_runs = refl

validate_procs_fds_iff_example : (validate_procs_fds pick wired ≡ done (ok tt)) ↔ IsWired wired
validate_procs_fds_iff_example = validate_procs_fds_iff pick wired distinct

validate_procs_fds_returns_example :
    (r : Result Spec.Error (Unit {0})) × (validate_procs_fds pick wired ≡ done r)
validate_procs_fds_returns_example = validate_procs_fds_returns pick wired distinct

abbrev start_env : List (String × String)
start_env = ("LANG", "de") ∷ ("PROCSTAR_AGENT_TOKEN", "secret") ∷ ("HOME", "/root") ∷ []

env-Distinct : Distinct (keys env.vars)
unfolding keys
env-Distinct k = ground arith

get-build_example :
    get "PROCSTAR_AGENT_TOKEN" (build start_env env) ≡ expected "PROCSTAR_AGENT_TOKEN" env start_env
get-build_example = get-build start_env env "PROCSTAR_AGENT_TOKEN" env-Distinct

token_is_not_inherited : get "PROCSTAR_AGENT_TOKEN" (build start_env env) ≡ none
unfolding build get insert remove
token_is_not_inherited = refl

abbrev files : OpenFiles
files = (pos 5, 104 ∷ 105 ∷ []) ∷ []

abbrev contents : List ℕ
contents = 104 ∷ 105 ∷ []

opened : get (pos 5) files ≡ some (104 ∷ 105 ∷ [])
unfolding get
opened = refl

read_from_file_cases_example :
    (InFile (length contents) 0 (some 9)
      → FitsBuffer 0 (some 9)
      → read_from_file files (pos 5) 0 (some 9) ≡ done (ok (slice contents 0 (some 9)), files))
    × (¬ InFile (length contents) 0 (some 9)
        → FitsBuffer 0 (some 9) ⊎ (max_offset < 0)
        → (e : IoError) × (files' : OpenFiles) × (read_from_file files (pos 5) 0 (some 9)
            ≡ done (err e, files'))
          × (get (pos 5) files' ≡ none))
    × (0 ≤ max_offset
        → ¬ FitsBuffer 0 (some 9)
        → read_from_file files (pos 5) 0 (some 9) ≡ panicked)
read_from_file_cases_example = read_from_file_cases files (pos 5) contents 0 (some 9) opened

-- A request for the bytes up to 2^64 - 1, as -1 is read.
too_large : read_from_file files (pos 5) 0 (some 18446744073709551615) ≡ panicked
unfolding read_from_file get
too_large = refl

fits : FitsI32 (pos 7)
fits = omega arith

parse_fd-get_fd_name_example : parse_fd (get_fd_name (pos 7)) ≡ ok (pos 7)
parse_fd-get_fd_name_example = parse_fd-get_fd_name (pos 7) fits

sigterm_named : get_abbrev (pos 15) ≡ some "SIGTERM"
unfolding get_abbrev
sigterm_named = refl

parse_signum-get_abbrev_example : parse_signum "SIGTERM" ≡ some (pos 15)
parse_signum-get_abbrev_example = parse_signum-get_abbrev (pos 15) "SIGTERM" sigterm_named

realtime_signal_panics : new_status macros (ℤ.negsuc 3) ≡ panicked
unfolding new_status get_abbrev
realtime_signal_panics = refl

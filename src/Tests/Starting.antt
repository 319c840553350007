-- ===== src/Tests/Starting.antt =====
-- The start of the program, and its agent.
use procstar.Prelude.{◌≡◌, ◌*◌, done, refl, true, false, [], ◌∷◌, none, some, ok, err, string_key}
use procstar.Spec
use procstar.Procs.Start.{exits}
use procstar.Main.Startup.{Options, Files}
use procstar.Main.Starts.{Starts}
use procstar.Main.Servers.{maybe_run_agent}
use procstar.Spec.Load.{Seen, deserialize}
use procstar.Tests.Data.{machine}
use procstar.Tests.Connecting.{wire, info}
use procstar.Tests.Reconnecting.{cfg, attempts, world}
use procstar.Tests.Piped.{connected}

abbrev options : Options
options = record {
  log_level = some "info";
  restrict_exe = none;
  print = true;
  output = none;
  exit = false;
  wait = false;
  serve = false;
  agent = false;
  input = some "specs.json";
}

abbrev files : Files
files = record {
  stdin = err "EOF";
  open_file = λ path. ok tt;
  from_reader = λ path. ok (record { specs = connected });
}

-- No host is named.
no_host :
    maybe_run_agent machine wire
      (λ n f. done (n * f))
      cfg
      (λ name. none)
      (λ host. true)
      "random"
      none
      info
      true
      (record { agent_host = none; conn_id = none; group_id = none })
      attempts
      world
    ≡ exits 2
unfolding maybe_run_agent
no_host = refl

reads_list :
    deserialize (Seen.seq (ok "HOME" ∷ ok "PATH" ∷ []))
    ≡ ok (Spec.EnvInherit.vars ("HOME" ∷ "PATH" ∷ []))
unfolding deserialize
reads_list = refl

reads_no_name :
    deserialize (Seen.other "string \"All\"")
    ≡ err "invalid type: string \"All\", expected true, false, or seq of env var names"
unfolding deserialize
reads_no_name = refl

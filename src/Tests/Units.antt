-- ===== src/Tests/Units.antt =====
-- The client of systemd.
use procstar.Prelude.{◌≡◌, ◌⊎◌, ◌↔◌, refl, true, false, [], ◌∷◌, some, ok, err}
use procstar.Err.{other_error}
use procstar.Spec.Properties.{UnitType}
use procstar.Procs.Units.{stopped}
use procstar.Systemd.{Stream, Proxies, stop_and_wait, start_transient_unit, get_slice_cgroup_path}
use procstar.Systemd.Stopped.{IsGone, IsStopped, stopped_iff}
use procstar.Tests.Data.{ends_with}

-- Another job is done first, and a signal cannot be read.
abbrev stream : Stream
stream = record {
  signals =
      ok (record { job = "/job/1"; result = "failed" })
      ∷ err (other_error "unreadable")
      ∷ ok (record { job = "/job/2"; result = "done" })
      ∷ [];
  ended = false;
}

abbrev proxies : Proxies
proxies = record {
  receive_job_removed = ok stream;
  start_transient_unit = λ name mode properties. ok "/job/1";
  stop_unit = λ name mode. ok "/job/2";
  reset_failed_unit = λ name. ok tt;
  get_unit = λ name. ok "/unit/3";
  new_slice = λ path. ok tt;
  new_unit = λ path. ok tt;
  new_scope = λ path. ok tt;
  control_group = λ path. ok "/user.slice/x.slice";
  active_state = λ path. ok "active";
  result = λ path. ok "success";
}

stops : stop_and_wait proxies "x.slice" ≡ ok (some "done")
unfolding stop_and_wait
stops = refl

starts : start_transient_unit proxies "00ff" UnitType.scope [] ≡ some (ok "procstar00ff.scope")
unfolding start_transient_unit
starts = refl

finds_cgroup : get_slice_cgroup_path proxies "x.slice" ≡ ok "/sys/fs/cgroup/user.slice/x.slice"
unfolding get_slice_cgroup_path
finds_cgroup = refl

stopped_iff_example :
    (stopped ends_with (stop_and_wait proxies "x.slice") ≡ true)
    ↔ (IsGone ends_with proxies "x.slice" ⊎ IsStopped ends_with proxies "x.slice")
stopped_iff_example = stopped_iff ends_with proxies "x.slice"

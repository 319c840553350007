-- ===== src/Tests/Accounting.antt =====
-- The accounting files of a cgroup.
use procstar.Prelude.{◌≡◌, String, Result, ok, err, str_eq, if◌then◌else◌}
use procstar.Io.{IoError}
use procstar.Cgroup.Files.{enabled_controllers, load_accounting}
use procstar.Cgroup.Needs.{is_ok, needed, load_accounting-needed}
use procstar.Tests.Data.{io_error}

-- A cgroup without memory control, whose file of peaks is missing.
abbrev files : String → Result IoError String
files path =
    if str_eq path "/c/cgroup.controllers"
    then ok "cpu pids\n"
    else if str_eq path "/c/pids.current"
    then ok "7\n"
    else if str_eq path "/c/cpu.stat"
    then ok "usage_usec 10\nuser_usec 6\nsystem_usec 4\n"
    else err io_error

load_accounting-needed_example :
    is_ok (load_accounting files "/c") ≡ needed files "/c" (enabled_controllers files "/c")
load_accounting-needed_example = load_accounting-needed files "/c"

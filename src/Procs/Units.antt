-- ===== src/Procs/Units.antt =====
-- Finalizing the systemd units of a terminated process: `UnitsFinal` to `finalize_units_inner` of
-- src/procs.rs, with `is_no_such_unit` and `job_result_ok` of src/systemd/api.rs. systemd and the
-- accounting files are not this code: what they answer is the argument `Round`, and a number says how many
-- of the awaited calls end within `FINALIZE_BUDGET`.
use procstar.Prelude.{
  ℕ, zero, suc, String, Bool, true, false, not, ◌&&◌, ◌||◌, Option, none, some, Result, ok, err,
  if◌then◌else◌, str_eq,
}
use procstar.Io.{IoError}
use procstar.Cgroup.{CgroupAccounting}
use procstar.Cgroup.Files.{load_accounting_or_log}
use procstar.Err.{DbusError, method_error, other_error}

pub record UnitsFinal : Type 0 where
  pub cgroup_accounting : Option CgroupAccounting
  pub scope_result : Option String
  pub cleanup_incomplete : Bool

abbrev pub default_final : UnitsFinal
default_final = record { cgroup_accounting = none; scope_result = none; cleanup_incomplete = false }

abbrev pub replace_result : String → Option String → Option String
replace_result new none = some new
replace_result new (some old) =
    if str_eq new "success" && not (str_eq old "success") then some old else some new

unfoldable pub record_scope_result : Option String → UnitsFinal → UnitsFinal
record_scope_result none fin = fin
record_scope_result (some new) fin = record fin {
  scope_result = replace_result new fin.scope_result;
}

unfoldable pub record_accounting : Option CgroupAccounting → UnitsFinal → UnitsFinal
record_accounting none fin = fin
record_accounting (some accounting) fin = record fin { cgroup_accounting = some accounting }

-- `matches!(result, "done" | "skipped")`.
unfoldable pub job_result_ok : String → Bool
job_result_ok result = str_eq result "done" || str_eq result "skipped"

-- What a call that waits answers; `none` is a timeout.
abbrev pub Timed : Type 0 → Type 0
Timed A = Option (Result DbusError A)

-- What systemd answers in one round. `ends_with` is the test of the standard library, and
-- `read_to_string` the file system, with the files of the cgroup.
pub record Round : Type 0 where
  pub stop_scope : Result DbusError (Option String)
  pub scope_state : Timed (String × String)
  pub reset_failed : Timed (Unit {0})
  pub cgroup_path : Timed String
  pub read_to_string : String → Result IoError String
  pub stop_slice : Result DbusError (Option String)

-- A task that has come so far: what it has recorded and, unless the budget cut it off, its value and the
-- number of calls that are still within the budget.
abbrev pub Awaiting : Type 0 → Type 0
Awaiting A = UnitsFinal × Option (A × ℕ)

abbrev pub await : {A : Type 0} → A → ℕ → UnitsFinal → Awaiting A
await a zero fin = (fin, none)
await a (suc n) fin = (fin, some (a, n))

abbrev pub and_then_await :
    {A B : Type 0} → Awaiting A → (A → ℕ → UnitsFinal → Awaiting B) → Awaiting B
and_then_await (fin, none) f = (fin, none)
and_then_await (fin, some (a, n)) f = f a n fin

abbrev pub was_reset : Timed (Unit {0}) → Bool
was_reset (some (ok _)) = true
was_reset (some (err e)) = false
was_reset none = false

-- `read_accounting`, from the answer of `get_slice_cgroup_path`.
unfoldable pub read_accounting :
    (String → Result IoError String) → Timed String → Option CgroupAccounting
unfolding load_accounting_or_log
read_accounting read_to_string (some (ok cgroup_path)) =
    load_accounting_or_log read_to_string cgroup_path
read_accounting read_to_string (some (err e)) = none
read_accounting read_to_string none = none

module _ (ends_with : String → String → Bool) where
  unfoldable pub is_no_such_unit : DbusError → Bool
  is_no_such_unit (method_error name text) = ends_with name "NoSuchUnit"
  is_no_such_unit (other_error text) = false

  -- The value of `stop_unit`, from the answer of `stop_and_wait`.
  unfoldable pub stopped : Result DbusError (Option String) → Bool
  unfolding job_result_ok is_no_such_unit
  stopped (ok (some result)) = job_result_ok result
  stopped (ok none) = false
  stopped (err e) = is_no_such_unit e

  unfoldable pub stop_unit : Result DbusError (Option String) → ℕ → UnitsFinal → Awaiting Bool
  unfolding stopped
  stop_unit reply n fin = await (stopped reply) n fin

  -- `settle_scope` after the answer of `get_scope_state`.
  unfoldable pub settle_from :
      Timed (String × String) → Timed (Unit {0}) → ℕ → UnitsFinal → Awaiting Bool
  unfolding record_scope_result is_no_such_unit
  settle_from (some (ok (active_state, result))) reset n fin =
      let fin' = record_scope_result (some result) fin in
      if str_eq active_state "failed"
      then await (was_reset reset) n fin'
      else (fin', some (str_eq active_state "inactive", n))
  settle_from (some (err e)) reset n fin = (fin, some (is_no_such_unit e, n))
  settle_from none reset n fin = (fin, some (false, n))

  unfoldable pub settle_scope : Round → ℕ → UnitsFinal → Awaiting Bool
  unfolding settle_from
  settle_scope r n fin =
      and_then_await (await r.scope_state n fin) λ state. settle_from state r.reset_failed

  -- `ok &= ..`.
  abbrev pub also : Bool → Bool → ℕ → UnitsFinal → Awaiting Bool
  also ok_before ok_now n fin = (fin, some (ok_before && ok_now, n))

  abbrev pub stop_scope : Option String → Round → ℕ → UnitsFinal → Awaiting Bool
  stop_scope none r n fin = (fin, some (true, n))
  stop_scope (some scope) r n fin =
      and_then_await (stop_unit r.stop_scope n fin)
        λ stop n' fin'. and_then_await (settle_scope r n' fin') (also stop)

  -- Reads the accounting and stops the slice.
  abbrev pub stop_slice : Round → Bool → ℕ → UnitsFinal → Awaiting Bool
  stop_slice r scope_ok n fin = and_then_await (await r.cgroup_path n fin) λ cgroup_path n' fin'.
      let fin'' = record_accounting (read_accounting r.read_to_string cgroup_path) fin' in
      and_then_await (stop_unit r.stop_slice n' fin'') (also scope_ok)

  -- One round: stops and settles the scope, reads the accounting, stops the slice.
  unfoldable pub clean_up : Option String → Round → ℕ → UnitsFinal → Awaiting Bool
  unfolding stop_unit settle_scope read_accounting record_accounting
  clean_up scope r n fin = and_then_await (stop_scope scope r n fin) (stop_slice r)

  -- The second round is made only when the first has not cleaned up.
  abbrev pub retry : Option String → Round → Bool → ℕ → UnitsFinal → Awaiting Bool
  retry scope again true n fin = (fin, some (true, n))
  retry scope again false n fin = clean_up scope again n fin

  abbrev pub set_incomplete : Bool → ℕ → UnitsFinal → Awaiting (Unit {0})
  set_incomplete ok_all n fin = (record fin { cleanup_incomplete = not ok_all }, some (tt, n))

  unfoldable pub finalize_units_inner :
      Option String → Round → Round → ℕ → UnitsFinal → Awaiting (Unit {0})
  unfolding clean_up
  finalize_units_inner scope r again n fin =
      and_then_await (and_then_await (clean_up scope r n fin) (retry scope again)) set_incomplete

  -- The budget has run out, or not.
  abbrev pub within_budget : Awaiting (Unit {0}) → UnitsFinal
  within_budget (fin, none) = record fin { cleanup_incomplete = true }
  within_budget (fin, some _) = fin

  unfoldable pub finalize_units :
      Option String → Option String → Option (Round × Round) → ℕ → UnitsFinal
  unfolding finalize_units_inner
  finalize_units (some slice) scope (some (r, again)) n =
      within_budget (finalize_units_inner scope r again n default_final)
  finalize_units none scope systemd n = default_final
  finalize_units (some slice) scope none n = default_final

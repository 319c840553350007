-- ===== src/Spec/Properties.antt =====
-- The systemd properties of src/spec.rs, as `From<Scope>` and `From<Slice>` make them, and `set_up_slice`
-- of src/procs.rs, which gives them to systemd. `UnitProperty` is a name with a D-Bus value.
use procstar.Prelude.{
  ℕ, ℤ, Bool, String, List, [], ◌∷◌, ◌++◌, Option, none, some, Result, ok, map_err, and_then,
}
use procstar.Spec.{OomPolicy, continue, stop, kill, Scope, Slice, SystemdProperties}
use procstar.Err
use procstar.Err.{DbusError}

pub data Value : Type 0 where
  text : String → Value
  number : ℕ → Value
  switch : Bool → Value
  pids : List ℤ → Value

abbrev pub UnitProperty : Type 0
UnitProperty = String × Value

unfoldable pub as_str : OomPolicy → String
as_str continue = "continue"
as_str stop = "stop"
as_str kill = "kill"

-- `if let Some(val) = .. { output.push(..) }`.
abbrev pub push :
    {A : Type 0} → String → (A → Value) → Option A → List UnitProperty → List UnitProperty
push name value none output = output
push name value (some val) output = output ++ (name, value val) ∷ []

unfoldable pub from_scope : Scope → List UnitProperty
unfolding as_str
from_scope scope =
    push "RuntimeRandomizedExtraUSec" Value.number scope.runtime_randomized_extra_usec (
      push "RuntimeMaxUSec" Value.number scope.runtime_max_usec
        (push "OOMPolicy" (λ val. Value.text (as_str val)) scope.oom_policy []))

unfoldable pub from_slice : Slice → List UnitProperty
from_slice slice =
    let output = push "MemoryAccounting" Value.switch slice.memory_accounting [] in
    let output = push "MemoryMin" Value.number slice.memory_min output in
    let output = push "MemoryLow" Value.number slice.memory_low output in
    let output = push "MemoryHigh" Value.number slice.memory_high output in
    let output = push "MemoryMax" Value.number slice.memory_max output in
    let output = push "MemorySwapMax" Value.number slice.memory_swap_max output in
    let output = push "TasksAccounting" Value.switch slice.tasks_accounting output in
    push "TasksMax" Value.number slice.tasks_max output

pub data UnitType : Type 0 where
  slice scope : UnitType

-- `SystemdClient::start_transient_unit`: the name of the new unit.
abbrev pub StartUnit : Type 0
StartUnit = UnitType → List UnitProperty → Result DbusError String

unfoldable pub set_up_slice :
    ℤ → SystemdProperties → Option StartUnit → Result Err.Error (Option String × Option String)
unfolding from_scope from_slice
set_up_slice pid properties none = ok (none, none)
set_up_slice pid properties (some start) =
    and_then (map_err Err.Error.systemd (start UnitType.slice (from_slice properties.slice)))
      λ slice.
        let scope_properties =
          (from_scope properties.scope ++ ("PIDs", Value.pids (pid ∷ [])) ∷ [])
          ++ ("Slice", Value.text slice) ∷ [] in
        and_then (map_err Err.Error.systemd (start UnitType.scope scope_properties))
          λ scope. ok (some slice, some scope)

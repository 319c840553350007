-- ===== src/Systemd.antt =====
-- `SystemdClient` of src/systemd/api.rs: starting and stopping units, over what the proxies of the D-Bus
-- interface answer. The signals that a stream brings are listed since the client subscribed to it.
pub mod Stopped
use Prim.Native.String.{◌++◌ as cat}
use Prim.Native.Char.{code}
use procstar.Prelude.{
  Bool, true, false, String, List, [], ◌∷◌, Option, none, some, Result, ok, err, and_then,
  if◌then◌else◌, str_eq, ◌==◌,
}
use procstar.Err.{DbusError}
use procstar.Spec.Properties.{UnitType, UnitProperty}

-- What is read of a `JobRemoved` signal.
pub record JobRemoved : Type 0 where
  pub job : String
  pub result : String

-- A signal whose arguments are read, or cannot be.
abbrev pub Signal : Type 0
Signal = Result DbusError JobRemoved

-- The signals that come while the client waits, and whether the stream ends then.
pub record Stream : Type 0 where
  pub signals : List Signal
  pub ended : Bool

-- What the manager answers, and the proxies of the unit at a path.
pub record Proxies : Type 0 where
  pub receive_job_removed : Result DbusError Stream
  pub start_transient_unit : String → String → List UnitProperty → Result DbusError String
  pub stop_unit : String → String → Result DbusError String
  pub reset_failed_unit : String → Result DbusError (Unit {0})
  pub get_unit : String → Result DbusError String
  pub new_slice : String → Result DbusError (Unit {0})
  pub new_unit : String → Result DbusError (Unit {0})
  pub new_scope : String → Result DbusError (Unit {0})
  pub control_group : String → Result DbusError String
  pub active_state : String → Result DbusError String
  pub result : String → Result DbusError String

abbrev pub cgroup_root : String
cgroup_root = "/sys/fs/cgroup"

abbrev pub suffix_of : UnitType → String
suffix_of UnitType.slice = "slice"
suffix_of UnitType.scope = "scope"

-- `uuid` is the text of a new random id.
unfoldable pub generate_unit_name : String → UnitType → String
generate_unit_name uuid unit_type = cat "procstar" (cat uuid (cat "." (suffix_of unit_type)))

-- The loop of `start_transient_unit`: up to the signal of the job, or the end of the stream; `none` is a
-- loop that still waits. A signal that cannot be read ends it with an error.
unfoldable pub await_removed : String → List Signal → Bool → Option (Result DbusError (Unit {0}))
await_removed job [] true = some (ok tt)
await_removed job [] false = none
await_removed job (err e ∷ signals) ended = some (err e)
await_removed job (ok args ∷ signals) ended =
    let rest = await_removed job signals ended in if str_eq job args.job then some (ok tt) else rest

-- `?` on a wait.
abbrev pub named : String → Option (Result DbusError (Unit {0})) → Option (Result DbusError String)
named name none = none
named name (some (err e)) = some (err e)
named name (some (ok _)) = some (ok name)

abbrev pub requested : String → Stream → Result DbusError String → Option (Result DbusError String)
requested name stream (err e) = some (err e)
requested name stream (ok job_path) =
    named name (await_removed job_path stream.signals stream.ended)

abbrev pub subscribed :
    Proxies
    → String
    → List UnitProperty
    → Result DbusError Stream
    → Option (Result DbusError String)
subscribed p name properties (err e) = some (err e)
subscribed p name properties (ok stream) =
    requested name stream (p.start_transient_unit name "replace" properties)

unfoldable pub start_transient_unit :
    Proxies → String → UnitType → List UnitProperty → Option (Result DbusError String)
unfolding generate_unit_name await_removed
start_transient_unit p uuid unit_type properties =
    subscribed p (generate_unit_name uuid unit_type) properties p.receive_job_removed

-- `trim_start_matches("/")`.
unfoldable pub trim_slashes : String → String
trim_slashes String.[] = ""
trim_slashes (String.◌∷◌ c s) =
    let rest = trim_slashes s in if code c == b'/' then rest else String.◌∷◌ c s

unfoldable pub get_slice_cgroup_path : Proxies → String → Result DbusError String
unfolding trim_slashes
get_slice_cgroup_path p name = and_then (p.get_unit name) λ unit_path.
    and_then (p.new_slice unit_path) λ _.
      and_then (p.control_group unit_path)
        λ cgroup_rel. ok (cat cgroup_root (cat "/" (trim_slashes cgroup_rel)))

unfoldable pub stop : Proxies → String → Result DbusError (Unit {0})
stop p name = and_then (p.stop_unit name "replace") λ _. ok tt

-- The wait of `stop_and_wait`: the result that the first signal of the job reports; `none` is a timeout.
-- Signals that cannot be read are passed over.
unfoldable pub await_result : String → List Signal → Bool → Option String
await_result job [] true = some "unknown"
await_result job [] false = none
await_result job (err e ∷ signals) ended = await_result job signals ended
await_result job (ok args ∷ signals) ended =
    let rest = await_result job signals ended in
    if str_eq job args.job then some args.result else rest

unfoldable pub stop_and_wait : Proxies → String → Result DbusError (Option String)
unfolding await_result
stop_and_wait p name = and_then p.receive_job_removed λ removed_stream.
    and_then (p.stop_unit name "replace")
      λ job_path. ok (await_result job_path removed_stream.signals removed_stream.ended)

unfoldable pub reset_failed_unit : Proxies → String → Result DbusError (Unit {0})
reset_failed_unit p name = p.reset_failed_unit name

-- `(ActiveState, Result)` of a scope unit.
unfoldable pub get_scope_state : Proxies → String → Result DbusError (String × String)
get_scope_state p name = and_then (p.get_unit name) λ unit_path.
    and_then (p.new_unit unit_path) λ _. and_then (p.new_scope unit_path) λ _.
      and_then (p.active_state unit_path)
        λ active_state. and_then (p.result unit_path) λ result. ok (active_state, result)

-- `maybe_connect`, from whether the hierarchy of cgroups v2 is there and what the new client answers.
unfoldable pub maybe_connect {ℓ} : {A : Type ℓ} → Bool → Result DbusError A → Option A
maybe_connect false client = none
maybe_connect true (err e) = none
maybe_connect true (ok client) = some client

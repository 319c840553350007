-- ===== src/Environ.antt =====
-- src/environ.rs: the environment of a new process.
pub mod Laws
use procstar.Prelude.{
  Bool, true, false, String, List, [], ◌∷◌, Option, none, some, BTreeMap, get, insert, remove,
  get-insert, get-remove, same, contains, if◌then◌else◌, ◌≡◌, refl, arith, string_key, not, ◌&&◌,
  same→eq, same_refl, same_sym, unwrap_or, ◌∙◌, Exec, done, bind_exec,
}
use procstar.Spec

-- Variables that a process never inherits.
abbrev pub exclusions : List String
exclusions = "PROCSTAR_AGENT_CERT" ∷ "PROCSTAR_AGENT_KEY" ∷ "PROCSTAR_AGENT_TOKEN" ∷ []

-- `collect` into a map: of two values of a variable the later one stays.
unfoldable pub collect : BTreeMap String String → List (String × String) → BTreeMap String String
collect env [] = env
collect env ((k, v) ∷ vars) = collect (insert k v env) vars

-- `filter` on the iterator, before `collect`.
unfoldable pub filter_vars : List String → List (String × String) → List (String × String)
filter_vars names [] = []
filter_vars names ((k, v) ∷ vars) =
    let rest = filter_vars names vars in if contains names k then (k, v) ∷ rest else rest

unfoldable pub inherited : Spec.EnvInherit → List (String × String) → BTreeMap String String
unfolding collect filter_vars
inherited Spec.EnvInherit.none start_env = []
inherited Spec.EnvInherit.all start_env = collect [] start_env
inherited (Spec.EnvInherit.vars names) start_env = collect [] (filter_vars names start_env)

unfoldable pub exclude : List String → BTreeMap String String → BTreeMap String String
exclude [] env = env
exclude (k ∷ ks) env = exclude ks (remove k env)

-- One entry of `spec.vars`: a value to set, or a variable to remove.
abbrev pub apply_var : String → Option String → BTreeMap String String → BTreeMap String String
apply_var k (some v) env = insert k v env
apply_var k none env = remove k env

unfoldable pub apply_vars :
    BTreeMap String (Option String) → BTreeMap String String → BTreeMap String String
apply_vars [] env = env
apply_vars ((k, v) ∷ vars) env = apply_vars vars (apply_var k v env)

unfoldable pub build : List (String × String) → Spec.Env → BTreeMap String String
unfolding inherited exclude apply_vars
build start_env spec = apply_vars spec.vars (exclude exclusions (inherited spec.inherit start_env))

-- What is read of `std::env::vars()`, which panics at a variable that is no Unicode text: all of it, or
-- nothing where nothing is inherited.
abbrev pub start_vars :
    Spec.EnvInherit → Exec (List (String × String)) → Exec (List (String × String))
start_vars Spec.EnvInherit.none vars = done []
start_vars Spec.EnvInherit.all vars = vars
start_vars (Spec.EnvInherit.vars names) vars = vars

-- `build`, on the variables of this process.
unfoldable pub build_from : Exec (List (String × String)) → Spec.Env → Exec (BTreeMap String String)
unfolding build
build_from vars spec =
    bind_exec (start_vars spec.inherit vars) λ start_env. done (build start_env spec)

-- ===== src/Environ/Laws.antt =====
-- What a process finds in its environment, variable by variable (src/environ.rs).
use procstar.Prelude.{
  true, false, String, List, [], ◌∷◌, Option, none, some, BTreeMap, get, insert, remove, keys,
  get-insert, get-remove, same, contains, count, if◌then◌else◌, ◌≡◌, refl, ap, arith, string_key,
  same→eq, same_sym, ◌∙◌,
}
use procstar.Spec
use procstar.Spec.Wired.{Distinct}
use procstar.Environ.{
  exclusions, collect, filter_vars, inherited, exclude, apply_var, apply_vars, build,
}

-- The value that an iterator gives a variable last.
abbrev pub last_value : String → List (String × String) → Option String → Option String
last_value k [] found = found
last_value k ((j, v) ∷ vars) found = last_value k vars (if same j k then some v else found)

get-collect :
    (k : String) (env : BTreeMap String String) (vars : List (String × String))
    → get k (collect env vars) ≡ last_value k vars (get k env)
unfolding collect
get-collect k env [] = refl
get-collect k env ((j, v) ∷ vars) =
    get-collect k (insert j v env) vars ∙ ap (last_value k vars) (get-insert j k v env)

last_value-filter_vars :
    (k : String) (names : List String) (vars : List (String × String)) (found : Option String)
    → contains names k ≡ true
    → last_value k (filter_vars names vars) found ≡ last_value k vars found
unfolding filter_vars
last_value-filter_vars k names [] found h = refl
last_value-filter_vars k names ((j, v) ∷ vars) found h = ground (
  arith,
  last_value-filter_vars k names vars (if same j k then some v else found),
  last_value-filter_vars k names vars found,
  last_value-filter_vars k names vars (some v),
  same→eq j k,
)

last_value-filter_vars_other :
    (k : String) (names : List String) (vars : List (String × String)) (found : Option String)
    → contains names k ≡ false
    → last_value k (filter_vars names vars) found ≡ found
unfolding filter_vars
last_value-filter_vars_other k names [] found h = refl
last_value-filter_vars_other k names ((j, v) ∷ vars) found h = ground (
  arith,
  last_value-filter_vars_other k names vars found,
  last_value-filter_vars_other k names vars (some v),
  same→eq j k,
)

-- What a variable inherits, by the rule of the spec.
abbrev pub inherits : String → Spec.EnvInherit → List (String × String) → Option String
inherits k Spec.EnvInherit.none start_env = none
inherits k Spec.EnvInherit.all start_env = last_value k start_env none
inherits k (Spec.EnvInherit.vars names) start_env =
    if contains names k then last_value k start_env none else none

get-inherited :
    (k : String) (rule : Spec.EnvInherit) (start_env : List (String × String))
    → get k (inherited rule start_env) ≡ inherits k rule start_env
unfolding inherited get
get-inherited k Spec.EnvInherit.none start_env = refl
get-inherited k Spec.EnvInherit.all start_env = get-collect k [] start_env
get-inherited k (Spec.EnvInherit.vars names) start_env =
    get-collect k [] (filter_vars names start_env)
    ∙ ground (
      arith,
      last_value-filter_vars k names start_env none,
      last_value-filter_vars_other k names start_env none,
    )

get-exclude :
    (k : String) (ks : List String) (env : BTreeMap String String)
    → get k (exclude ks env) ≡ (if contains ks k then none else get k env)
unfolding exclude
get-exclude k [] env = refl
get-exclude k (j ∷ ks) env =
    get-exclude k ks (remove j env) ∙ ground (arith, get-remove j k env, same_sym j k)

get_of_count-zero :
    {V : Type 0} (k : String) (m : BTreeMap String V) → count k (keys m) ≡ 0 → get k m ≡ none
unfolding get keys
get_of_count-zero k [] h = refl
get_of_count-zero k ((j, v) ∷ m) h = ground (arith, get_of_count-zero k m, same_sym k j)

get-apply_var :
    (k j : String) (v : Option String) (env : BTreeMap String String)
    → get k (apply_var j v env) ≡ (if same j k then v else get k env)
get-apply_var k j none env = get-remove j k env
get-apply_var k j (some v) env = get-insert j k v env

abbrev pub override : Option (Option String) → Option String → Option String
override none old = old
override (some v) old = v

-- Each key of `spec.vars` stands once, since it is a map.
get-apply_vars :
    (k : String) (vars : BTreeMap String (Option String)) (env : BTreeMap String String)
    → Distinct (keys vars)
    → get k (apply_vars vars env) ≡ override (get k vars) (get k env)
unfolding apply_vars get keys
get-apply_vars k [] env d = refl
get-apply_vars k ((j, v) ∷ vars) env d =
    let ih = get-apply_vars k vars (apply_var j v env) (λ a. omega (arith, d a)) in
    ground (arith, ih, get-apply_var k j v env, get_of_count-zero k vars, d k, same_sym k j)

-- The environment that the spec asks for, one variable at a time: an entry of `vars` decides, else
-- the variable is inherited unless it is excluded.
abbrev pub expected : String → Spec.Env → List (String × String) → Option String
expected k spec start_env =
    override (get k spec.vars)
      (if contains exclusions k then none else inherits k spec.inherit start_env)

-- Every variable of the built environment has the value that the spec asks for, or is absent where
-- it asks for none, if the keys of `vars` are distinct.
pub get-build :
    (start_env : List (String × String)) (spec : Spec.Env) (k : String)
    → Distinct (keys spec.vars)
    → get k (build start_env spec) ≡ expected k spec start_env
unfolding build
get-build start_env spec k d =
    get-apply_vars k spec.vars (exclude exclusions (inherited spec.inherit start_env)) d
    ∙ ap (override (get k spec.vars)) (
        get-exclude k exclusions (inherited spec.inherit start_env)
        ∙ ap (λ o. if contains exclusions k then none else o)
            (get-inherited k spec.inherit start_env))

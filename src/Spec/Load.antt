-- ===== src/Spec/Load.antt =====
-- How specs are read, of src/spec.rs: the visitor of `EnvInherit`, and the functions that load specs. serde_json
-- is not this code: a value is seen as far as the visitor looks at it, and what it reads from standard
-- input or a file is an argument.
use procstar.Prelude.{Bool, true, false, String, List, [], ◌∷◌, Result, ok, err, and_then, map_err}
use Prim.Native.String.{◌++◌ as cat}
use procstar.Io.{IoError}
use procstar.Spec.{Error, io, json, EnvInherit, Input}

-- The kinds of value that the visitor tells apart; an element that is no text is an error of its own.
pub data Seen : Type 0 where
  bool : Bool → Seen
  seq : List (Result String String) → Seen
  other : (kind : String) → Seen

abbrev pub expecting : String
expecting = "true, false, or seq of env var names"

unfoldable pub visit_bool : Bool → EnvInherit
visit_bool true = EnvInherit.all
visit_bool false = EnvInherit.none

-- The loop over the elements.
unfoldable pub collect_vars : List (Result String String) → Result String (List String)
collect_vars [] = ok []
collect_vars (element ∷ elements) =
    and_then element λ var. and_then (collect_vars elements) λ vars. ok (var ∷ vars)

unfoldable pub visit_seq : List (Result String String) → Result String EnvInherit
unfolding collect_vars
visit_seq elements = and_then (collect_vars elements) λ vars. ok (EnvInherit.vars vars)

-- `deserialize_any`: a value that the visitor has no method for is an error that says what is expected.
unfoldable pub deserialize : Seen → Result String EnvInherit
unfolding visit_bool visit_seq
deserialize (bool b) = ok (visit_bool b)
deserialize (seq elements) = visit_seq elements
deserialize (other kind) = err (cat "invalid type: " (cat kind (cat ", expected " expecting)))

-- `Input::new`.
abbrev pub new_input : Input
new_input = record { specs = [] }

unfoldable pub load_stdin : Result String Input → Result Error Input
load_stdin from_reader = map_err json from_reader

unfoldable pub load_file :
    (String → Result IoError (Unit {0}))
    → (String → Result String Input)
    → String
    → Result Error Input
load_file open_file from_reader path =
    and_then (map_err io (open_file path)) λ _. map_err json (from_reader path)

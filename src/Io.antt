-- ===== src/Io.antt =====
-- `std::io::Error`: the kinds that the code tests for, and the text that an error displays.
use procstar.Prelude.{ℕ, String, List, Bool, true, false}

pub data ErrorKind : Type 0 where
  not_found interrupted unexpected_eof other : ErrorKind

pub record IoError : Type 0 where
  pub kind : ErrorKind
  pub text : String

abbrev pub is_not_found : ErrorKind → Bool
is_not_found ErrorKind.not_found = true
is_not_found _ = false

abbrev pub is_interrupted : ErrorKind → Bool
is_interrupted ErrorKind.interrupted = true
is_interrupted _ = false

abbrev pub Bytes : Type 0
Bytes = List ℕ

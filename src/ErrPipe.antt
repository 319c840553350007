-- ===== src/ErrPipe.antt =====
-- src/err_pipe.rs: the errors that a child process writes to its parent, each after its length in two
-- bytes. The pipe is what has been written to it, and how it ends: by the end of the other side, or by
-- an error of a read.
pub mod Laws
pub mod Ends
use Prim.Native.String.{◌++◌ as cat}
use procstar.Prelude.{
  ℕ, zero, suc, ◌+◌, ◌*◌, ◌/◌, ◌%◌, String, List, [], ◌∷◌, ◌++◌, Option, none, some, Exec, done,
  panicked, bind_exec, length, take, drop, ltb, if◌then◌else◌, unwrap_or, Result, ok, err,
}
use procstar.Err
use procstar.Io.{Bytes}

-- `put_u16_le`.
abbrev pub put_u16_le : ℕ → Bytes
put_u16_le n = n % 256 ∷ n / 256 % 256 ∷ []

-- How a call of `fdio::write` ends: a success has written all its bytes, a failure none; a write that is cut
-- short is a panic.
abbrev pub Sent : Type 0
Sent = Exec (Result Err.Error (Unit {0}))

-- The result, with what has been written.
abbrev pub written : Sent → Sent → Bytes → Bytes → Exec (Result Err.Error (Unit {0}) × Bytes)
written panicked sent_text len bytes = panicked
written (done (err e)) sent_text len bytes = done (err e, [])
written (done (ok _)) panicked len bytes = panicked
written (done (ok _)) (done (err e)) len bytes = done (err e, len)
written (done (ok _)) (done (ok _)) len bytes = done (ok tt, len ++ bytes)

-- `ErrorWriter::write`, by how its two calls end; an error that is too long is a panic.
unfoldable pub write : Sent → Sent → Bytes → Exec (Result Err.Error (Unit {0}) × Bytes)
write sent_len sent_text bytes =
    if ltb 65535 (length bytes)
    then panicked
    else written sent_len sent_text (put_u16_le (length bytes)) bytes

-- `try_write`, which ignores an error: what comes into the pipe.
unfoldable pub try_write : Sent → Sent → Bytes → Exec Bytes
unfolding write
try_write sent_len sent_text bytes =
    bind_exec (write sent_len sent_text bytes) λ (_, sent). done sent

-- What several errors are in the pipe, in their order, where the pipe takes them.
unfoldable pub write_all : List Bytes → Exec Bytes
unfolding try_write
write_all [] = done []
write_all (error ∷ errors) =
    bind_exec (try_write (done (ok tt)) (done (ok tt)) error)
      λ bytes. bind_exec (write_all errors) λ rest. done (bytes ++ rest)

pub record Pipe : Type 0 where
  pub bytes : Bytes
  pub failure : Option String

-- `String::from_utf8_lossy`, and the text of the error that ends a read too early.
module _ (from_utf8_lossy : Bytes → String) (eof_text : String) where
  -- The length cannot be read.
  abbrev pub at_end : Option String → List String
  at_end none = []
  at_end (some e) = cat "error pipe: " e ∷ []

  -- The loop of `get_errors`; a pass takes two bytes at least.
  unfoldable pub get_errors_from : ℕ → Option String → Bytes → List String
  get_errors_from zero failure bytes = []
  get_errors_from (suc fuel) failure [] = at_end failure
  get_errors_from (suc fuel) failure (b ∷ []) = at_end failure
  get_errors_from (suc fuel) failure (lo ∷ hi ∷ bytes) =
      let len = lo + hi * 256 in
      let rest = get_errors_from fuel failure (drop len bytes) in
      if ltb (length bytes) len
      then cat "error pipe: " (unwrap_or failure eof_text) ∷ []
      else from_utf8_lossy (take len bytes) ∷ rest

  -- A pass for every byte is enough: `get_errors_from_enough`.
  unfoldable pub get_errors : Pipe → List String
  unfolding get_errors_from
  get_errors pipe = get_errors_from (suc (length pipe.bytes)) pipe.failure pipe.bytes

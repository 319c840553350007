-- ===== src/Fdio.antt =====
-- src/fdio.rs: reading and writing numbers and texts through a descriptor. What the system does with a
-- read or a write is an argument, over its state; so are the bytes of a number on the machine, and the
-- decoding of UTF-8.
pub mod Framed
use procstar.Prelude.{
  ℕ, ◌+◌, ◌-◌, String, List, [], ◌∷◌, ◌++◌, Result, ok, err, Exec, done, panicked, length,
  if◌then◌else◌, ◌==◌, ltb, zero, suc,
}
use procstar.Io.{IoError, Bytes}
use procstar.Err

-- What a call gives, and the state that it leaves.
abbrev pub Outcome : Type 0 → Type 0 → Type 0
Outcome S A = Exec (Result Err.Error A × S)

-- `?`.
abbrev pub try_next : {S A B : Type 0} → Outcome S A → (A → S → Outcome S B) → Outcome S B
try_next panicked f = panicked
try_next (done (err e, s)) f = done (err e, s)
try_next (done (ok a, s)) f = f a s

-- The greatest size of a buffer, `isize::MAX`.
abbrev pub max_size : ℕ
max_size = 9223372036854775807

-- A new buffer, of zeros.
abbrev pub zeros : ℕ → Bytes
zeros zero = []
zeros (suc n) = 0 ∷ zeros n

-- What a single read of so many bytes leaves in a new buffer.
abbrev pub filled : ℕ → Bytes → Bytes
filled len bytes = bytes ++ zeros (len - length bytes)

module _ {S : Type 0} (sys_write : Bytes → S → Result IoError ℕ × S) (to_ne_bytes : ℕ → Bytes) where
  -- A write that is cut short is a panic, but for one of nothing at all.
  abbrev pub written : ℕ → Result IoError ℕ × S → Outcome S (Unit {0})
  written len (err e, s) = done (err (Err.Error.io e), s)
  written len (ok n, s) =
      if n == len then done (ok tt, s) else if n == 0 then done (err Err.Error.eof, s) else panicked

  unfoldable pub write : Bytes → S → Outcome S (Unit {0})
  write bytes s = written (length bytes) (sys_write bytes s)

  unfoldable pub write_usize : ℕ → S → Outcome S (Unit {0})
  unfolding write
  write_usize val s = write (to_ne_bytes val) s

  unfoldable pub write_str : Bytes → S → Outcome S (Unit {0})
  unfolding write write_usize
  write_str bytes s = try_next (write_usize (length bytes) s) λ _ s'. write bytes s'

module _ {S : Type 0} (sys_read : ℕ → S → Result IoError Bytes × S) (from_ne_bytes : Bytes → ℕ)
    (from_utf8_lossy : Bytes → String) where
  -- A number is read at once, or not at all.
  abbrev pub number_read : Result IoError Bytes × S → Outcome S ℕ
  number_read (err e, s) = done (err (Err.Error.io e), s)
  number_read (ok bytes, s) =
      if length bytes == 0
      then done (err Err.Error.eof, s)
      else if length bytes == 8
      then done (ok (from_ne_bytes bytes), s)
      else panicked

  unfoldable pub read_usize : S → Outcome S ℕ
  read_usize s = number_read (sys_read 8 s)

  -- The number of bytes that were read is not looked at.
  abbrev pub text_read : ℕ → Result IoError Bytes × S → Outcome S String
  text_read len (err e, s) = done (err (Err.Error.io e), s)
  text_read len (ok bytes, s) = done (ok (from_utf8_lossy (filled len bytes)), s)

  -- `vec![0; len]` panics where the length is too large for any buffer.
  abbrev pub text_of : ℕ → S → Outcome S String
  text_of len s = if ltb max_size len then panicked else text_read len (sys_read len s)

  unfoldable pub read_str : S → Outcome S String
  unfolding read_usize
  read_str s = try_next (read_usize s) text_of

  -- The buffer after the call, with its answer.
  abbrev pub appended : Bytes → Result IoError Bytes × S → (Result Err.Error ℕ × Bytes) × S
  appended buf (err e, s) = ((err (Err.Error.io e), buf), s)
  appended buf (ok [], s) = ((err Err.Error.eof, buf), s)
  appended buf (ok bytes, s) = ((ok (length bytes), buf ++ bytes), s)

  -- `resize` panics where the length is too large for any buffer.
  unfoldable pub read_into_vec : Bytes → ℕ → S → Exec ((Result Err.Error ℕ × Bytes) × S)
  read_into_vec buf max_len s =
      if ltb max_size (length buf + max_len)
      then panicked
      else done (appended buf (sys_read max_len s))

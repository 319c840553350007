-- ===== src/Sys/Files.antt =====
-- `read_from_file` and `get_file_length` of src/sys.rs. The `File` made by `from_raw_fd` owns the
-- descriptor, so each early return drops it and closes the descriptor.
use procstar.Prelude.{
  ℕ, ◌-◌, ◌≤◌, ◌≡◌, ◌⊎◌, inl, inr, refl, ◌∙◌, arith, Option, none, some, ℤ, pos, Result, ok, err,
  BTreeMap, get, remove, get-remove, length, take, drop, length-take, length-drop, ltb,
  if◌then◌else◌, int_key, same_refl, Exec, done, panicked, bind_exec, ◌<◌, Bool-cases,
}
use procstar.Io.{IoError, ErrorKind, Bytes}

-- The open descriptors that name unlinked files, with the contents of each.
abbrev pub OpenFiles : Type 0
OpenFiles = BTreeMap ℤ Bytes

abbrev pub bad_descriptor : IoError
bad_descriptor = record { kind = ErrorKind.other; text = "Bad file descriptor (os error 9)" }

abbrev pub invalid_argument : IoError
invalid_argument = record { kind = ErrorKind.other; text = "Invalid argument (os error 22)" }

abbrev pub short_read : IoError
short_read = record { kind = ErrorKind.unexpected_eof; text = "failed to fill whole buffer" }

-- The greatest offset of a file, 2^63 - 1.
abbrev pub max_offset : ℕ
max_offset = 9223372036854775807

-- What is read at `start`: up to `stop`, all of it or nothing, or to the end.
unfoldable pub read_at : Bytes → ℕ → Option ℕ → Result IoError Bytes
read_at contents start (some stop) =
    let n = stop - start in
    let buf = take n (drop start contents) in if ltb (length buf) n then err short_read else ok buf
read_at contents start none = ok (drop start contents)

abbrev pub seek : Option Bytes → ℕ → Result IoError Bytes
seek none start = err bad_descriptor
seek (some contents) start = if ltb max_offset start then err invalid_argument else ok contents

-- Keeps the descriptor after a success; a failure drops the `File`, which closes the descriptor.
abbrev pub hand_back : ℤ → OpenFiles → Result IoError Bytes → Result IoError Bytes × OpenFiles
hand_back fd files (ok buf) = (ok buf, files)
hand_back fd files (err e) = (err e, remove fd files)

-- The greatest size of a buffer, `isize::MAX`.
abbrev pub max_size : ℕ
max_size = 9223372036854775807

-- `vec![0; ..]` panics where the size is too large for any buffer; memory is not exhausted.
abbrev pub read_buf : Bytes → ℕ → Option ℕ → Exec (Result IoError Bytes)
read_buf contents start none = done (read_at contents start none)
read_buf contents start (some stop) =
    if ltb max_size (stop - start) then panicked else done (read_at contents start (some stop))

abbrev pub read_sought : Result IoError Bytes → ℕ → Option ℕ → Exec (Result IoError Bytes)
read_sought (ok contents) start stop = read_buf contents start stop
read_sought (err e) start stop = done (err e)

unfoldable pub read_from_file :
    OpenFiles → ℤ → ℕ → Option ℕ → Exec (Result IoError Bytes × OpenFiles)
unfolding read_at
read_from_file files fd start stop =
    bind_exec (read_sought (seek (get fd files) start) start stop)
      λ result. done (hand_back fd files result)

-- `fstat(fd)?.st_size`.
unfoldable pub get_file_length : OpenFiles → ℤ → Result IoError ℤ
get_file_length files fd = elim (get fd files) [
  | none ↦ err bad_descriptor
  | some contents ↦ ok (pos (length contents))
]

-- The requests that a file of the given length answers.
abbrev pub InFile : ℕ → ℕ → Option ℕ → Type 0
InFile len start none = start ≤ max_offset
InFile len start (some stop) = (start ≤ max_offset) × ((stop ≤ start) ⊎ (stop ≤ len))

-- The part of a text from `start` up to `stop`.
abbrev pub slice : Bytes → ℕ → Option ℕ → Bytes
slice contents start none = drop start contents
slice contents start (some stop) = take (stop - start) (drop start contents)

-- A buffer can have the size of the request.
abbrev pub FitsBuffer : ℕ → Option ℕ → Type 0
FitsBuffer start none = Unit
FitsBuffer start (some stop) = stop - start ≤ max_size

sought-InFile :
    (contents : Bytes) (start : ℕ) (stop : Option ℕ)
    → InFile (length contents) start stop
    → FitsBuffer start stop
    → read_sought (seek (some contents) start) start stop ≡ done (ok (slice contents start stop))
unfolding read_at
sought-InFile contents start none h fits = ground arith
sought-InFile contents start (some stop) h fits =
    ground (arith, length-take (stop - start) (drop start contents), length-drop start contents)

sought_off_file :
    (contents : Bytes) (start : ℕ) (stop : Option ℕ)
    → ¬ InFile (length contents) start stop
    → FitsBuffer start stop ⊎ (max_offset < start)
    → (e : IoError) × (read_sought (seek (some contents) start) start stop ≡ done (err e))
unfolding read_at
sought_off_file contents start none h fits = (invalid_argument, ground arith)
sought_off_file contents start (some stop) h fits = elim (Bool-cases (ltb max_offset start)) [
  | inl beyond ↦ (invalid_argument, rw beyond refl)
  | inr within ↦ (
    short_read,
    ground (arith, length-take (stop - start) (drop start contents), length-drop start contents),
  )
]

sought_too_large :
    (contents : Bytes) (start : ℕ) (stop : Option ℕ)
    → start ≤ max_offset
    → ¬ FitsBuffer start stop
    → read_sought (seek (some contents) start) start stop ≡ panicked
unfolding read_at
sought_too_large contents start none h large = absurd (large tt)
sought_too_large contents start (some stop) h large = ground arith

-- A request to an open file. Within the file, it is answered by that part of the file, and the open
-- files stay as they are. Beyond the file it is an error, and the descriptor is closed by it. Where it starts
-- at an offset of a file and asks for more bytes than any buffer can have, it is a panic.
pub read_from_file_cases :
    (files : OpenFiles) (fd : ℤ) (contents : Bytes) (start : ℕ) (stop : Option ℕ)
    → get fd files ≡ some contents
    → (InFile (length contents) start stop
        → FitsBuffer start stop
        → read_from_file files fd start stop ≡ done (ok (slice contents start stop), files))
      × (¬ InFile (length contents) start stop
          → FitsBuffer start stop ⊎ (max_offset < start)
          → (e : IoError) × (files' : OpenFiles) × (read_from_file files fd start stop
              ≡ done (err e, files'))
            × (get fd files' ≡ none))
      × (start ≤ max_offset
          → ¬ FitsBuffer start stop
          → read_from_file files fd start stop ≡ panicked)
unfolding read_from_file
read_from_file_cases files fd contents start stop opened = (
  λ inside fits. rw (opened, sought-InFile contents start stop inside fits) refl,
  λ outside fits.
      let (e, read) = sought_off_file contents start stop outside fits in
      (e, remove fd files, rw (opened, read) refl, get-remove fd fd files ∙ rw (same_refl fd) refl),
  λ start_fits large. rw (opened, sought_too_large contents start stop start_fits large) refl,
)

-- ===== src/ErrPipe/Laws.antt =====
-- What the parent reads from the error pipe.
use Prim.Native.String.{◌++◌ as cat}
use procstar.Prelude.{
  if◌then◌else◌, unwrap_or, ℕ, zero, suc, ◌+◌, ◌*◌, ◌/◌, ◌%◌, ◌≤◌, ◌<◌, ◌≡◌, refl, ap, arith,
  String, List, [], ◌∷◌, ◌++◌, Option, none, done, All, length, take, drop, map, ltb, false,
  length-append, length-drop, take-append, drop-append,
}
use procstar.Io.{Bytes}
use procstar.ErrPipe.{put_u16_le, write, try_write, write_all, get_errors, get_errors_from}

short : (n : ℕ) → n ≤ 65535 → ltb 65535 n ≡ false
short n h = ground arith

not_above : (a b : ℕ) → b ≤ a → ltb a b ≡ false
not_above a b h = ground arith

u16_le : (n : ℕ) → n ≤ 65535 → n % 256 + (n / 256 % 256) * 256 ≡ n
u16_le n h = omega (arith, h)

-- Errors that are not too long are in the pipe one after the other.
abbrev pub frames : List Bytes → Bytes
frames [] = []
frames (error ∷ errors) = (put_u16_le (length error) ++ error) ++ frames errors

write_all-frames :
    (errors : List Bytes)
    → All (λ e. length e ≤ 65535) errors
    → write_all errors ≡ done (frames errors)
unfolding write_all try_write write
write_all-frames [] h = refl
write_all-frames (error ∷ errors) (h, hs) =
    rw (short (length error) h, write, write_all-frames errors hs) refl

frames-length : (errors : List Bytes) → length errors ≤ length (frames errors)
frames-length [] = omega arith
frames-length (error ∷ errors) =
    omega (arith, frames-length errors, length-append error (frames errors))

module _ (from_utf8_lossy : Bytes → String) (eof_text : String) where
  get_errors_from-frames :
      (fuel : ℕ) (errors : List Bytes)
      → length errors < fuel
      → All (λ e. length e ≤ 65535) errors
      → get_errors_from from_utf8_lossy eof_text fuel none (frames errors)
        ≡ map from_utf8_lossy errors
  unfolding get_errors_from
  get_errors_from-frames zero errors h hs = absurd (omega (arith, h))
  get_errors_from-frames (suc fuel) [] h hs = refl
  get_errors_from-frames (suc fuel) (error ∷ errors) h (small, hs) =
      rw
        (
          u16_le (length error) small,
          not_above (length (error ++ frames errors)) (length error)
              (omega (arith, length-append error (frames errors))),
          take-append error (frames errors),
          drop-append error (frames errors),
          get_errors_from-frames fuel errors (omega (arith, h)) hs,
        )
        refl

  -- Errors of which none is longer than 65535 bytes are all written, if the writes succeed, and the parent reads exactly them, in
  -- their order, when the other side ends.
  pub get_errors-write_all :
      (errors : List Bytes)
      → All (λ e. length e ≤ 65535) errors
      → (bytes : Bytes) × (write_all errors ≡ done bytes)
        × (get_errors from_utf8_lossy eof_text (record { bytes = bytes; failure = none })
            ≡ map from_utf8_lossy errors)
  unfolding get_errors
  get_errors-write_all errors hs = (
    frames errors,
    write_all-frames errors hs,
    get_errors_from-frames (suc (length (frames errors))) errors
        (omega (arith, frames-length errors)) hs,
  )

  -- The passes of the loop do not run out: any two numbers of passes above the number of bytes give the same.
  get_errors_from_enough :
      (m n : ℕ) (failure : Option String) (bytes : Bytes)
      → length bytes < m
      → length bytes < n
      → get_errors_from from_utf8_lossy eof_text m failure bytes
        ≡ get_errors_from from_utf8_lossy eof_text n failure bytes
  unfolding get_errors_from
  get_errors_from_enough zero n failure bytes h k = absurd (omega (arith, h))
  get_errors_from_enough (suc m) zero failure bytes h k = absurd (omega (arith, k))
  get_errors_from_enough (suc m) (suc n) failure [] h k = refl
  get_errors_from_enough (suc m) (suc n) failure (b ∷ []) h k = refl
  get_errors_from_enough (suc m) (suc n) failure (lo ∷ hi ∷ bytes) h k =
      let len : ℕ = lo + hi * 256 in
      ap
        (λ rest.
          if ltb (length bytes) len
          then cat "error pipe: " (unwrap_or failure eof_text) ∷ []
          else from_utf8_lossy (take len bytes) ∷ rest)
        (get_errors_from_enough m n failure (drop len bytes)
          (omega (arith, h, length-drop len bytes)) (omega (arith, k, length-drop len bytes)))

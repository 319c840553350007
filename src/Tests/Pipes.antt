-- ===== src/Tests/Pipes.antt =====
-- Texts through a pipe, and the ends of the error pipe.
use native.Mathlib.Nat.{pow-suc}
use procstar.Prelude.{
  ◌-◌, ◌≤◌, ltb, ℕ, zero, suc, ◌+◌, ◌*◌, ◌/◌, ◌%◌, ◌^◌, ◌<◌, ◌≡◌, ◌≢◌, inr, refl, ap, arith, [],
  ◌∷◌, ◌++◌, Result, ok, done, some, panicked, ℤ, pos, negsuc, length, take, drop, same, int_key,
  false, if◌then◌else◌, same_refl,
}
use procstar.Io.{IoError, Bytes}
use procstar.Spec.{RawFd}
use procstar.Fdio.{write_str, read_str}
use procstar.Fdio.Framed.{IsPipe, IsNative, read_str-write_str}
use procstar.Sys.Calls.{get_hostname}
use procstar.Sys.Cloexec.{Stores, IsMarked, set_cloexec}
use procstar.ErrPipe.Ends.{new, new-IsMarked}
use procstar.Tests.Data.{io_error}

abbrev replicate : ℕ → ℕ → Bytes
replicate zero b = []
replicate (suc n) b = b ∷ replicate n b

-- A pipe as its contents, with room for 65536 bytes; a write that is too long is cut short.
abbrev sys_write : Bytes → Bytes → Result IoError ℕ × Bytes
sys_write bytes s =
    let room = 65536 - length s in
    if ltb room (length bytes)
    then (ok room, s ++ take room bytes)
    else (ok (length bytes), s ++ bytes)

abbrev sys_read : ℕ → Bytes → Result IoError Bytes × Bytes
sys_read n s = (ok (take n s), drop n s)

-- A machine with the low byte first.
le_bytes : ℕ → ℕ → Bytes
le_bytes zero n = []
le_bytes (suc k) n = n % 256 ∷ le_bytes k (n / 256)

from_le : Bytes → ℕ
from_le [] = 0
from_le (b ∷ bytes) = b + 256 * from_le bytes

length-le_bytes : (k n : ℕ) → length (le_bytes k n) ≡ k
unfolding le_bytes
length-le_bytes zero n = refl
length-le_bytes (suc k) n = ap suc (length-le_bytes k (n / 256))

from_le-le_bytes : (k n : ℕ) → n < 256 ^ k → from_le (le_bytes k n) ≡ n
unfolding le_bytes from_le
from_le-le_bytes zero n h = omega arith
from_le-le_bytes (suc k) n h =
    omega (arith, from_le-le_bytes k (n / 256) (omega (arith, pow-suc 256 k)))

le_bytes-IsNative : IsNative (le_bytes 8) from_le
le_bytes-IsNative = record { eight = length-le_bytes 8; same = λ n h. from_le-le_bytes 8 n h }

has_room : (a b : ℕ) → a + b ≤ 65536 → ltb (65536 - a) b ≡ false
has_room a b h = ground arith

sys_write-IsPipe : IsPipe 65536 (λ s. s) sys_write sys_read
sys_write-IsPipe = record {
  writes = λ bytes s room. rw (has_room (length s) (length bytes) room) (refl, refl);
  reads = λ n s h. (refl, refl);
}

read_str-write_str_example :
    (mid : Bytes) × (after : Bytes) × (write_str sys_write (le_bytes 8) (104 ∷ 105 ∷ []) []
      ≡ done (ok tt, mid))
    × (read_str sys_read from_le (λ b. "hi") mid ≡ done (ok "hi", after))
    × (after ≡ [])
read_str-write_str_example =
    read_str-write_str 65536 (λ s. s) sys_write sys_read (le_bytes 8) from_le (λ b. "hi")
      (104 ∷ 105 ∷ []) [] sys_write-IsPipe le_bytes-IsNative (omega arith) (omega arith) refl

-- The flags of every descriptor, from 0.
abbrev Flags : Type 0
Flags = RawFd → ℕ

abbrev to_flags : ℤ → ℕ
to_flags (pos n) = n
to_flags (negsuc n) = 0

abbrev getfd : Flags → RawFd → ℤ
getfd k fd = pos (k fd)

abbrev setfd : Flags → RawFd → ℤ → ℤ × Flags
setfd k fd (pos n) = (pos 0, λ other. if same fd other then n else k other)
setfd k fd (negsuc n) = (negsuc 0, k)

stores_flags :
    (k : Flags) (fd : RawFd) (flags : ℤ)
    → (setfd k fd flags).0 ≢ negsuc 0
    → getfd (setfd k fd flags).1 fd ≡ flags
stores_flags k fd (pos n) h = rw (same_refl fd) refl
stores_flags k fd (negsuc n) h = absurd (h refl)

leaves_others :
    (k : Flags) (fd other : RawFd) (flags : ℤ)
    → same fd other ≡ false
    → getfd (setfd k fd flags).1 other ≡ getfd k other
leaves_others k fd other (pos n) h = rw h refl
leaves_others k fd other (negsuc n) h = refl

flags-Stores : Stores io_error getfd setfd
flags-Stores = record {
  returns = λ k fd. inr (k fd, refl);
  stores = stores_flags;
  others = leaves_others;
}

abbrev both_set : Flags
both_set = (setfd (setfd (λ fd. 0) (pos 5) (pos 1)).1 (pos 6) (pos 1)).1

makes_pipe :
    new io_error getfd setfd (λ fd. 0) (ok (record { read = pos 5; write = pos 6 }))
    ≡ (ok (record { read_fd = pos 5; write_fd = pos 6 }), both_set)
unfolding new set_cloexec
makes_pipe = refl

new-IsMarked_example :
    IsMarked io_error getfd setfd both_set (pos 5) × IsMarked io_error getfd setfd both_set (pos 6)
new-IsMarked_example =
    new-IsMarked io_error getfd setfd (λ fd. 0) both_set
      (ok (record { read = pos 5; write = pos 6 })) (record { read_fd = pos 5; write_fd = pos 6 })
      flags-Stores makes_pipe

-- A name that fills the buffer.
hostname_too_long : get_hostname (λ b. some "host") (replicate 64 b'a') (pos 0) ≡ panicked
unfolding get_hostname
hostname_too_long = refl

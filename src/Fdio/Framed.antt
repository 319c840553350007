-- ===== src/Fdio/Framed.antt =====
-- A text that is written through a pipe is read back.
use procstar.Prelude.{
  ℕ, ◌-◌, ◌≡◌, refl, ap, ◌∙◌, arith, String, [], ◌++◌, Result, ok, err, done, length, take, drop,
  append_assoc, append-nil, ◌<◌, ◌^◌, take-append, drop-append, length-append, ◌+◌, ◌≤◌, ltb, false,
}
use procstar.Io.{IoError, Bytes}
use procstar.Fdio.{
  write, write_usize, write_str, written, read_usize, read_str, number_read, text_read, filled,
  max_size,
}

-- What the system documents of a pipe of a capacity, whose reader is open: a write for which there is room
-- appends all its bytes, and a read of no more bytes than there are takes those at the front.
pub record IsPipe {S : Type 0} (capacity : ℕ) (content : S → Bytes)
    (sys_write : Bytes → S → Result IoError ℕ × S) (sys_read : ℕ → S → Result IoError Bytes × S)
    : Type 0 where
  pub writes :
      (bytes : Bytes) (s : S)
      → length (content s) + length bytes ≤ capacity
      → ((sys_write bytes s).0 ≡ ok (length bytes))
        × (content (sys_write bytes s).1 ≡ content s ++ bytes)
  pub reads :
      (n : ℕ) (s : S)
      → n ≤ length (content s)
      → ((sys_read n s).0 ≡ ok (take n (content s)))
        × (content (sys_read n s).1 ≡ drop n (content s))

-- The bytes of a `usize`, in the order of the machine.
pub record IsNative (to_ne_bytes : ℕ → Bytes) (from_ne_bytes : Bytes → ℕ) : Type 0 where
  pub eight : (n : ℕ) → length (to_ne_bytes n) ≡ 8
  pub same : (n : ℕ) → n < 2 ^ 64 → from_ne_bytes (to_ne_bytes n) ≡ n

not_too_large : (n : ℕ) → n ≤ max_size → ltb max_size n ≡ false
not_too_large n h = ground arith

take_all : (n : ℕ) (xs ys : Bytes) → length xs ≡ n → take n (xs ++ ys) ≡ xs
take_all n xs ys e = rw (← e) (take-append xs ys)

drop_all : (n : ℕ) (xs ys : Bytes) → length xs ≡ n → drop n (xs ++ ys) ≡ ys
drop_all n xs ys e = rw (← e) (drop-append xs ys)

filled_whole : (xs : Bytes) → filled (length xs) xs ≡ xs
filled_whole xs =
    let none_left : length xs - length xs ≡ 0 = omega arith in rw none_left (append-nil xs)

written-all :
    {S : Type 0} (sys_write : Bytes → S → Result IoError ℕ × S) (to_ne_bytes : ℕ → Bytes) (len : ℕ)
    (answer : Result IoError ℕ × S)
    → answer.0 ≡ ok len
    → written sys_write to_ne_bytes len answer ≡ done (ok tt, answer.1)
written-all sys_write to_ne_bytes len (ok n, s) e = let n_eq : n ≡ len = cc in ground (arith, n_eq)
written-all sys_write to_ne_bytes len (err _, s) e = cc

number_read-eight :
    {S : Type 0} (sys_read : ℕ → S → Result IoError Bytes × S) (from_ne_bytes : Bytes → ℕ)
    (from_utf8_lossy : Bytes → String) (bytes : Bytes) (answer : Result IoError Bytes × S)
    → length bytes ≡ 8
    → answer.0 ≡ ok bytes
    → number_read sys_read from_ne_bytes from_utf8_lossy answer
      ≡ done (ok (from_ne_bytes bytes), answer.1)
number_read-eight sys_read from_ne_bytes from_utf8_lossy bytes (ok got, s) eight e =
    let same : got ≡ bytes = cc in rw (same, eight) refl
number_read-eight sys_read from_ne_bytes from_utf8_lossy bytes (err _, s) eight e = cc

text_read-whole :
    {S : Type 0} (sys_read : ℕ → S → Result IoError Bytes × S) (from_ne_bytes : Bytes → ℕ)
    (from_utf8_lossy : Bytes → String) (bytes : Bytes) (answer : Result IoError Bytes × S)
    → answer.0 ≡ ok bytes
    → text_read sys_read from_ne_bytes from_utf8_lossy (length bytes) answer
      ≡ done (ok (from_utf8_lossy bytes), answer.1)
text_read-whole sys_read from_ne_bytes from_utf8_lossy bytes (ok got, s) e =
    let same : got ≡ bytes = cc in rw (same, filled_whole bytes) refl
text_read-whole sys_read from_ne_bytes from_utf8_lossy bytes (err _, s) e = cc

module _ {S : Type 0} (capacity : ℕ) (content : S → Bytes)
    (sys_write : Bytes → S → Result IoError ℕ × S) (sys_read : ℕ → S → Result IoError Bytes × S)
    (to_ne_bytes : ℕ → Bytes) (from_ne_bytes : Bytes → ℕ) (from_utf8_lossy : Bytes → String)
    (pipe : IsPipe capacity content sys_write sys_read)
    (native : IsNative to_ne_bytes from_ne_bytes) where
  -- A text for which there is room is written behind what the pipe holds.
  write_str-appends :
      (bytes : Bytes) (s : S)
      → length (content s) + (8 + length bytes) ≤ capacity
      → (after : S) × (write_str sys_write to_ne_bytes bytes s ≡ done (ok tt, after))
        × (content after ≡ content s ++ (to_ne_bytes (length bytes) ++ bytes))
  unfolding write_str write_usize write
  write_str-appends bytes s room =
      let number = to_ne_bytes (length bytes) in
      let eight = native.eight (length bytes) in
      let mid = (sys_write number s).1 in
      let (first, behind) = pipe.writes number s (omega (arith, eight, room)) in
      let (second, end) =
        pipe.writes bytes mid
          (omega (arith, eight, room, ap length behind, length-append (content s) number)) in
      (
        (sys_write bytes mid).1,
        rw (written-all sys_write to_ne_bytes (length number) (sys_write number s) first)
            (written-all sys_write to_ne_bytes (length bytes) (sys_write bytes mid) second),
        end ∙ rw behind (append_assoc (content s) number bytes),
      )

  -- The text at the front of the pipe is read, and what is behind it is left.
  read_str-takes :
      (bytes rest : Bytes) (s : S)
      → length bytes ≤ max_size
      → content s ≡ to_ne_bytes (length bytes) ++ (bytes ++ rest)
      → (after : S) × (read_str sys_read from_ne_bytes from_utf8_lossy s
          ≡ done (ok (from_utf8_lossy bytes), after))
        × (content after ≡ rest)
  unfolding read_str read_usize
  read_str-takes bytes rest s fits held =
      let number = to_ne_bytes (length bytes) in
      let eight = native.eight (length bytes) in
      let mid = (sys_read 8 s).1 in
      let (got, left) =
        pipe.reads 8 s
          (omega (arith, eight, ap length held, length-append number (bytes ++ rest))) in
      let behind : content mid ≡ bytes ++ rest =
        left ∙ rw held (drop_all 8 number (bytes ++ rest) eight) in
      let first : (sys_read 8 s).0 ≡ ok number =
        got ∙ rw held (ap ok (take_all 8 number (bytes ++ rest) eight)) in
      let (got_text, end) =
        pipe.reads (length bytes) mid (omega (arith, ap length behind, length-append bytes rest)) in
      let second : (sys_read (length bytes) mid).0 ≡ ok bytes =
        got_text ∙ rw behind (ap ok (take-append bytes rest)) in
      (
        (sys_read (length bytes) mid).1,
        rw
            (
              number_read-eight sys_read from_ne_bytes from_utf8_lossy number (sys_read 8 s) eight
                  first,
              native.same (length bytes) (omega (arith, fits)),
              not_too_large (length bytes) fits,
            )
            (text_read-whole sys_read from_ne_bytes from_utf8_lossy bytes
              (sys_read (length bytes) mid) second),
        end ∙ rw behind (drop-append bytes rest),
      )

-- Over an empty pipe, a text that has room in the pipe behind its length, and is not too large for a buffer,
-- is written by `write_str`; `read_str` then reads it, up to the replacement of bytes that are no UTF-8,
-- and the pipe is empty again.
pub read_str-write_str :
    {S : Type 0} (capacity : ℕ) (content : S → Bytes) (sys_write : Bytes → S → Result IoError ℕ × S)
    (sys_read : ℕ → S → Result IoError Bytes × S) (to_ne_bytes : ℕ → Bytes)
    (from_ne_bytes : Bytes → ℕ) (from_utf8_lossy : Bytes → String) (bytes : Bytes) (s : S)
    → IsPipe capacity content sys_write sys_read
    → IsNative to_ne_bytes from_ne_bytes
    → 8 + length bytes ≤ capacity
    → length bytes ≤ max_size
    → content s ≡ []
    → (mid : S) × (after : S) × (write_str sys_write to_ne_bytes bytes s ≡ done (ok tt, mid))
      × (read_str sys_read from_ne_bytes from_utf8_lossy mid
          ≡ done (ok (from_utf8_lossy bytes), after))
      × (content after ≡ [])
read_str-write_str capacity content sys_write sys_read to_ne_bytes from_ne_bytes from_utf8_lossy
      bytes s pipe native room fits empty =
    let (mid, wrote, held) =
      write_str-appends capacity content sys_write sys_read to_ne_bytes from_ne_bytes
        from_utf8_lossy pipe native bytes s (omega (arith, room, ap length empty)) in
    let (after, got, left) =
      read_str-takes capacity content sys_write sys_read to_ne_bytes from_ne_bytes from_utf8_lossy
        pipe native bytes [] mid fits (held ∙ rw (empty, append-nil bytes) refl) in
    (mid, after, wrote, got, left)

-- ===== src/Spec/Fds.antt =====
-- The names of file descriptors: `parse_fd` of src/spec.rs, and `get_fd_name` of src/fd.rs.
use Prim.Native.Char.{code}
use procstar.Prelude.{
  ℕ, zero, suc, String, Option, none, some, ◌≡◌, ◌≢◌, refl, subst, arith, ℤ, pos, negsuc, FitsI32,
  Result, ok, err, if◌then◌else◌, str_eq, eq_iff,
}
use procstar.Prelude.Decimal.{
  show_ℤ, show_ℕ, parse_i32, parse_i32-show_ℤ, show_ℕ-HasDigitHead, HasDigitHead, is_digit,
}
use procstar.Spec.{Error, bad_fd, RawFd, FdName}

bad_unless : String → Option ℤ → Result Error RawFd
bad_unless fd none = err (bad_fd fd)
bad_unless fd (some n) = ok n

unfoldable pub parse_fd : String → Result Error RawFd
unfolding bad_unless
parse_fd fd =
    if str_eq fd "stdin"
    then ok (pos 0)
    else if str_eq fd "stdout"
    then ok (pos 1)
    else if str_eq fd "stderr"
    then ok (pos 2)
    else bad_unless fd (parse_i32 fd)

unfoldable pub get_fd_name : RawFd → FdName
get_fd_name (pos zero) = "stdin"
get_fd_name (pos (suc zero)) = "stdout"
get_fd_name (pos (suc (suc zero))) = "stderr"
get_fd_name fd = show_ℤ fd

-- A decimal text begins with a digit or with "-", so it is none of the three names.
abbrev HasNoLetterHead : String → Type 0
HasNoLetterHead String.[] = Unit
HasNoLetterHead (String.◌∷◌ c s) = code c ≢ b's'

show_ℕ-HasNoLetterHead : (n : ℕ) (s : String) → HasDigitHead s → HasNoLetterHead s
unfolding is_digit
show_ℕ-HasNoLetterHead n String.[] h = tt
show_ℕ-HasNoLetterHead n (String.◌∷◌ c s) h = ground arith

show_ℤ-HasNoLetterHead : (z : ℤ) → HasNoLetterHead (show_ℤ z)
unfolding show_ℤ
show_ℤ-HasNoLetterHead (pos n) = show_ℕ-HasNoLetterHead n (show_ℕ n) (show_ℕ-HasDigitHead n)
show_ℤ-HasNoLetterHead (negsuc n) = ground arith

ne-stdin : (s : String) → HasNoLetterHead s → s ≢ "stdin"
ne-stdin s h e = (subst HasNoLetterHead e h) refl

ne-stdout : (s : String) → HasNoLetterHead s → s ≢ "stdout"
ne-stdout s h e = (subst HasNoLetterHead e h) refl

ne-stderr : (s : String) → HasNoLetterHead s → s ≢ "stderr"
ne-stderr s h e = (subst HasNoLetterHead e h) refl

parse_fd-show_ℤ : (z : ℤ) → FitsI32 z → parse_fd (show_ℤ z) ≡ ok z
unfolding parse_fd
parse_fd-show_ℤ z h =
    let w = show_ℤ-HasNoLetterHead z in
    ground (
      arith,
      eq_iff (show_ℤ z) "stdin",
      eq_iff (show_ℤ z) "stdout",
      eq_iff (show_ℤ z) "stderr",
      ne-stdin (show_ℤ z) w,
      ne-stdout (show_ℤ z) w,
      ne-stderr (show_ℤ z) w,
      parse_i32-show_ℤ z h,
    )

-- The name under which a descriptor is reported, of any `i32`, is read back as that descriptor.
pub parse_fd-get_fd_name : (fd : RawFd) → FitsI32 fd → parse_fd (get_fd_name fd) ≡ ok fd
unfolding get_fd_name
parse_fd-get_fd_name (pos zero) h = unfold parse_fd in refl
parse_fd-get_fd_name (pos (suc zero)) h = unfold parse_fd in refl
parse_fd-get_fd_name (pos (suc (suc zero))) h = unfold parse_fd in refl
parse_fd-get_fd_name fd h = parse_fd-show_ℤ fd h

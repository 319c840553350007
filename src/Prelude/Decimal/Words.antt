-- ===== src/Prelude/Decimal/Words.antt =====
-- The decimal text of a number is a word.
use Prim.Native.Nat.{ℕ, zero, suc, ◌/◌, ◌%◌, ◌<◌}
use Prim.Native.Char.{code}
use Prim.Native.String.{String}
use mathlib.Core.Path.{◌≡◌, refl}
use mathlib.Core.Logic.{inl, inr}
use mathlib.Core.Bool.{false}
use native.Mathlib.Omega.{arith}
use procstar.Prelude.Tests.{◌==◌, Bool-cases}
use procstar.Prelude.Int.{ℤ, pos, negsuc}
use procstar.Prelude.Text.{is_whitespace, IsSolid, IsWord}
use procstar.Prelude.Decimal.{digit_char, digits, show_ℕ, show_ℤ, code-digit_char}

digit_not_white : (d : ℕ) → d < 10 → is_whitespace (code (digit_char d)) ≡ false
unfolding is_whitespace
digit_not_white d h = ground (arith, code-digit_char d h)

digits-IsWord : (fuel n : ℕ) (out : String) → IsSolid out → IsWord (digits (suc fuel) n out)
unfolding digits
digits-IsWord zero n out h = ground (arith, digit_not_white (n % 10))
digits-IsWord (suc fuel) n out h =
    let white = digit_not_white (n % 10) (omega arith) in
    elim (Bool-cases (n / 10 == 0)) [
      | inl last ↦ rw last (white, h)
      | inr more ↦
          rw more (digits-IsWord fuel (n / 10) (String.◌∷◌ (digit_char (n % 10)) out) (white, h))
    ]

pub show_ℕ-IsWord : (n : ℕ) → IsWord (show_ℕ n)
unfolding show_ℕ
show_ℕ-IsWord n = digits-IsWord n n "" tt

word-IsSolid : (s : String) → IsWord s → IsSolid s
word-IsSolid String.[] h = absurd h
word-IsSolid (String.◌∷◌ c s) h = h

minus_not_white : is_whitespace (code "-") ≡ false
unfolding is_whitespace
minus_not_white = refl

pub show_ℤ-IsWord : (z : ℤ) → IsWord (show_ℤ z)
unfolding show_ℤ
show_ℤ-IsWord (pos n) = show_ℕ-IsWord n
show_ℤ-IsWord (negsuc n) = (minus_not_white, word-IsSolid (show_ℕ (suc n)) (show_ℕ-IsWord (suc n)))

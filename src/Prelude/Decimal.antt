-- ===== src/Prelude/Decimal.antt =====
-- `to_string` and `parse` of Rust's integers: decimal text, with an optional sign when read.
pub mod Words
use Prim.Native.Nat.{ℕ, zero, suc, ◌+◌, ◌-◌, ◌*◌, ◌/◌, ◌%◌, ◌<◌, ◌≤◌}
use Prim.Native.Char.{Char, code}
use Prim.Native.String.{String}
use mathlib.Core.Path.{◌≡◌, refl, ◌∙◌}
use mathlib.Core.Logic.{inl, inr}
use mathlib.Core.Bool.{Bool, true, ◌&&◌}
use mathlib.Core.Option.{Option, none, some}
use mathlib.Core.List.{List, [], ◌∷◌}
use native.Mathlib.Omega.{arith}
use procstar.Prelude.Tests.{leb, ◌==◌, if◌then◌else◌, Bool-cases}
use procstar.Prelude.Int.{ℤ, pos, negsuc, Fits, FitsI32}

-- The code points of a text.
abbrev pub codes : String → List ℕ
codes String.[] = []
codes (String.◌∷◌ c s) = code c ∷ codes s

digit_char : ℕ → Char
digit_char zero = "0"
digit_char (suc zero) = "1"
digit_char (suc (suc zero)) = "2"
digit_char (suc (suc (suc zero))) = "3"
digit_char (suc (suc (suc (suc zero)))) = "4"
digit_char (suc (suc (suc (suc (suc zero))))) = "5"
digit_char (suc (suc (suc (suc (suc (suc zero)))))) = "6"
digit_char (suc (suc (suc (suc (suc (suc (suc zero))))))) = "7"
digit_char (suc (suc (suc (suc (suc (suc (suc (suc zero)))))))) = "8"
digit_char _ = "9"

-- Each round writes the last digit before `out`.
digits : ℕ → ℕ → String → String
digits zero n out = out
digits (suc fuel) n out =
    let out' = String.◌∷◌ (digit_char (n % 10)) out in
    let rest = digits fuel (n / 10) out' in if n / 10 == 0 then out' else rest

unfoldable pub show_ℕ : ℕ → String
unfolding digits digit_char
show_ℕ n = digits (suc n) n ""

unfoldable pub show_ℤ : ℤ → String
unfolding show_ℕ
show_ℤ (pos n) = show_ℕ n
show_ℤ (negsuc n) = String.◌∷◌ "-" (show_ℕ (suc n))

unfoldable pub is_digit : ℕ → Bool
is_digit c = leb b'0' c && leb c b'9'

-- Reads digits behind `n`; the range is checked at the end.
scan : List ℕ → ℕ → Option ℕ
unfolding is_digit
scan [] n = some n
scan (c ∷ s) n = let rest = scan s (n * 10 + (c - b'0')) in if is_digit c then rest else none

parse_digits : List ℕ → Option ℕ
unfolding scan
parse_digits [] = none
parse_digits (c ∷ s) = scan (c ∷ s) 0

in_range : ℕ → Option ℕ → Option ℕ
in_range max none = none
in_range max (some n) = if leb n max then some n else none

positive : ℕ → Option ℕ → Option ℤ
positive max none = none
positive max (some n) = if leb n max then some (pos n) else none

abbrev negate : ℕ → ℤ
negate zero = pos zero
negate (suc n) = negsuc n

negative : ℕ → Option ℕ → Option ℤ
negative max none = none
negative max (some n) = if leb n (suc max) then some (negate n) else none

parse_uint_codes : ℕ → List ℕ → Option ℕ
unfolding parse_digits in_range
parse_uint_codes max [] = none
parse_uint_codes max (c ∷ s) =
    if c == b'+' then in_range max (parse_digits s) else in_range max (parse_digits (c ∷ s))

parse_int_codes : ℕ → List ℕ → Option ℤ
unfolding parse_digits positive negative
parse_int_codes max [] = none
parse_int_codes max (c ∷ s) =
    if c == b'-'
    then negative max (parse_digits s)
    else if c == b'+'
    then positive max (parse_digits s)
    else positive max (parse_digits (c ∷ s))

-- `str::parse` of an unsigned type up to `max`, and of a signed one from `-max - 1` to `max`.
unfoldable pub parse_uint : ℕ → String → Option ℕ
unfolding parse_uint_codes
parse_uint max s = parse_uint_codes max (codes s)

unfoldable pub parse_int : ℕ → String → Option ℤ
unfolding parse_int_codes
parse_int max s = parse_int_codes max (codes s)

-- `str::parse::<i32>`.
unfoldable pub parse_i32 : String → Option ℤ
unfolding parse_int
parse_i32 s = parse_int 2147483647 s

code-digit_char : (d : ℕ) → d < 10 → code (digit_char d) ≡ b'0' + d
unfolding digit_char
code-digit_char zero h = refl
code-digit_char (suc zero) h = refl
code-digit_char (suc (suc zero)) h = refl
code-digit_char (suc (suc (suc zero))) h = refl
code-digit_char (suc (suc (suc (suc zero)))) h = refl
code-digit_char (suc (suc (suc (suc (suc zero))))) h = refl
code-digit_char (suc (suc (suc (suc (suc (suc zero)))))) h = refl
code-digit_char (suc (suc (suc (suc (suc (suc (suc zero))))))) h = refl
code-digit_char (suc (suc (suc (suc (suc (suc (suc (suc zero)))))))) h = refl
code-digit_char (suc (suc (suc (suc (suc (suc (suc (suc (suc zero))))))))) h = refl
code-digit_char (suc (suc (suc (suc (suc (suc (suc (suc (suc (suc d)))))))))) h =
    absurd (omega arith)

-- Reading what `digits` writes gives the number, whatever text follows.
scan-digits :
    (fuel n : ℕ) (out : String) → n < fuel → scan (codes (digits fuel n out)) 0 ≡ scan (codes out) n
unfolding digits scan
scan-digits zero n out h = elim h [ ]
scan-digits (suc fuel) n out h = ground (
  arith,
  code-digit_char (n % 10),
  scan-digits fuel (n / 10) (String.◌∷◌ (digit_char (n % 10)) out),
)

abbrev pub HasDigitHead : String → Type 0
HasDigitHead String.[] = ⊥
HasDigitHead (String.◌∷◌ c s) = is_digit (code c) ≡ true

digits-HasDigitHead : (fuel n : ℕ) (out : String) → HasDigitHead (digits (suc fuel) n out)
unfolding digits is_digit
digits-HasDigitHead zero n out = ground (arith, code-digit_char (n % 10))
digits-HasDigitHead (suc fuel) n out = elim (Bool-cases (n / 10 == 0)) [
  | inl last ↦ rw last (ground (arith, code-digit_char (n % 10)))
  | inr more ↦ rw more (digits-HasDigitHead fuel (n / 10) (String.◌∷◌ (digit_char (n % 10)) out))
]

pub show_ℕ-HasDigitHead : (n : ℕ) → HasDigitHead (show_ℕ n)
unfolding show_ℕ
show_ℕ-HasDigitHead n = digits-HasDigitHead n n ""

parse_digits_of_head : (s : String) → HasDigitHead s → parse_digits (codes s) ≡ scan (codes s) 0
unfolding parse_digits
parse_digits_of_head String.[] h = absurd h
parse_digits_of_head (String.◌∷◌ c s) h = refl

parse_int_codes_of_head :
    (max : ℕ) (s : String)
    → HasDigitHead s
    → parse_int_codes max (codes s) ≡ positive max (parse_digits (codes s))
unfolding parse_int_codes is_digit
parse_int_codes_of_head max String.[] h = absurd h
parse_int_codes_of_head max (String.◌∷◌ c s) h = ground arith

parse_uint_codes_of_head :
    (max : ℕ) (s : String)
    → HasDigitHead s
    → parse_uint_codes max (codes s) ≡ in_range max (parse_digits (codes s))
unfolding parse_uint_codes is_digit
parse_uint_codes_of_head max String.[] h = absurd h
parse_uint_codes_of_head max (String.◌∷◌ c s) h = ground arith

parse_digits-show_ℕ : (n : ℕ) → parse_digits (codes (show_ℕ n)) ≡ some n
parse_digits-show_ℕ n =
    parse_digits_of_head (show_ℕ n) (show_ℕ-HasDigitHead n)
    ∙ unfold show_ℕ scan in scan-digits (suc n) n "" (omega arith)

-- A number in range is read back from its decimal text.
pub parse_uint-show_ℕ : (max n : ℕ) → n ≤ max → parse_uint max (show_ℕ n) ≡ some n
unfolding parse_uint in_range
parse_uint-show_ℕ max n h =
    rw (parse_uint_codes_of_head max (show_ℕ n) (show_ℕ-HasDigitHead n), parse_digits-show_ℕ n)
      (ground arith)

pub parse_int-show_ℤ : (max : ℕ) (z : ℤ) → Fits max z → parse_int max (show_ℤ z) ≡ some z
unfolding parse_int show_ℤ positive negative parse_int_codes
parse_int-show_ℤ max (pos n) h =
    rw (parse_int_codes_of_head max (show_ℕ n) (show_ℕ-HasDigitHead n), parse_digits-show_ℕ n)
      (ground arith)
parse_int-show_ℤ max (negsuc n) h = rw (parse_digits-show_ℕ (suc n)) (ground arith)

pub parse_i32-show_ℤ : (z : ℤ) → FitsI32 z → parse_i32 (show_ℤ z) ≡ some z
unfolding parse_i32
parse_i32-show_ℤ z h = parse_int-show_ℤ 2147483647 z h

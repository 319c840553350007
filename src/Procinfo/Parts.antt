-- ===== src/Procinfo/Parts.antt =====
-- Reading the columns of a line of /proc one after the other, as `parts.next()` of src/procinfo.rs does;
-- a missing or unreadable column is a panic.
use procstar.Prelude.{
  ℕ, ℤ, String, List, [], ◌∷◌, Option, none, some, Exec, done, panicked, bind_exec,
}
use procstar.Prelude.Decimal.{parse_uint, parse_int}

abbrev pub Parts {ℓ} : Type ℓ → Type ℓ
Parts A = List String → Exec (A × List String)

infixl 5 ◌>>=◌ ◌>>◌
abbrev pub ◌>>=◌ {ℓ κ} : {A : Type ℓ} {B : Type κ} → Parts A → (A → Parts B) → Parts B
(p >>= f) parts = bind_exec (p parts) λ (a, rest). f a rest

abbrev pub ◌>>◌ {ℓ} : {B : Type ℓ} → Parts (Unit {0}) → Parts B → Parts B
p >> q = p >>= λ _. q

abbrev pub pure {ℓ} : {A : Type ℓ} → A → Parts A
pure a parts = done (a, parts)

abbrev pub lift {ℓ} : {A : Type ℓ} → Exec A → Parts A
lift m parts = bind_exec m λ a. done (a, parts)

-- `unwrap` of an option.
abbrev pub expect {ℓ} : {A : Type ℓ} → Option A → Exec A
expect none = panicked
expect (some a) = done a

-- `parts.next().unwrap()`.
unfoldable pub next : Parts String
next [] = panicked
next (s ∷ parts) = done (s, parts)

-- `parts.next()`, whose value is not used.
unfoldable pub skip : Parts (Unit {0})
skip [] = done (tt, [])
skip (s ∷ parts) = done (tt, parts)

-- `parts.next().unwrap().parse().unwrap()`, for an unsigned and for a signed type.
unfoldable pub unsigned : ℕ → Parts ℕ
unfolding next
unsigned max = do s ← next; lift (expect (parse_uint max s))

unfoldable pub signed : ℕ → Parts ℤ
unfolding next
signed max = do s ← next; lift (expect (parse_int max s))

abbrev pub i32_max : ℕ
i32_max = 2147483647

abbrev pub u32_max : ℕ
u32_max = 4294967295

abbrev pub i64_max : ℕ
i64_max = 9223372036854775807

abbrev pub u64_max : ℕ
u64_max = 18446744073709551615

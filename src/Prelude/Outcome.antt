-- ===== src/Prelude/Outcome.antt =====
-- `Result<T, E>`, and the outcome of code that may panic.
use mathlib.Core.Path.{◌≡◌, refl}
use mathlib.Core.Logic.{◌⊎◌, inl, inr}
use mathlib.Core.Option.{Option, none, some}

pub data Result {ℓ κ} (E : Type ℓ) (A : Type κ) : Type (ℓ ⊔ κ) where
  ok : A → Result E A
  err : E → Result E A

-- `done` is a normal return; `panicked` stands for a Rust panic, which ends the task.
pub data Exec {ℓ} (A : Type ℓ) : Type ℓ where
  done : A → Exec A
  panicked : Exec A

-- The `?` operator.
abbrev pub and_then {ℓ κ μ} :
    {E : Type ℓ} {A : Type κ} {B : Type μ} → Result E A → (A → Result E B) → Result E B
and_then (ok a) f = f a
and_then (err e) f = err e

abbrev pub bind_exec {ℓ κ} : {A : Type ℓ} {B : Type κ} → Exec A → (A → Exec B) → Exec B
bind_exec (done a) f = f a
bind_exec panicked f = panicked

-- The `?` operator, in code that may also panic.
abbrev pub try_exec {ℓ κ μ} :
    {E : Type ℓ} {A : Type κ} {B : Type μ}
    → Exec (Result E A)
    → (A → Exec (Result E B))
    → Exec (Result E B)
try_exec (done (ok a)) f = f a
try_exec (done (err e)) f = done (err e)
try_exec panicked f = panicked

abbrev pub map_err {ℓ κ μ} :
    {E : Type ℓ} {F : Type κ} {A : Type μ} → (E → F) → Result E A → Result F A
map_err f (ok a) = ok a
map_err f (err e) = err (f e)

abbrev pub unwrap_or {ℓ} : {A : Type ℓ} → Option A → A → A
unwrap_or none d = d
unwrap_or (some a) d = a

pub Result-cases {ℓ κ} :
    {E : Type ℓ} {A : Type κ} (r : Result E A) → ((a : A) × (r ≡ ok a)) ⊎ ((e : E) × (r ≡ err e))
Result-cases (ok a) = inl (a, refl)
Result-cases (err e) = inr (e, refl)

pub Exec-cases {ℓ} : {A : Type ℓ} (m : Exec A) → ((a : A) × (m ≡ done a)) ⊎ (m ≡ panicked)
Exec-cases (done a) = inl (a, refl)
Exec-cases panicked = inr refl

-- Inversion of a successful step, and of a failing one.
pub and_then-eq-ok {ℓ} :
    {E A B : Type ℓ} (m : Result E A) (f : A → Result E B) {b : B}
    → and_then m f ≡ ok b
    → (a : A) × (m ≡ ok a) × (f a ≡ ok b)
and_then-eq-ok (ok a) f h = (a, refl, h)
and_then-eq-ok (err e) f h = cc

-- ===== src/Prelude/Map.antt =====
-- `BTreeMap` as an association list in the order of its keys.
use Prim.Native.Nat.{ℕ, Ordering, ◌+◌, compare as compare_ℕ}
use Prim.Native.String.{String, compare}
use Prim.Native.String.compare.{nil-nil, nil-cons, cons-nil, cons-cons}
use mathlib.Core.Path.{◌≡◌, refl, sym, ◌∙◌}
use mathlib.Core.Bool.{Bool, true, false, ◌||◌}
use mathlib.Core.Option.{Option, none, some}
use mathlib.Core.List.{List, [], ◌∷◌}
use native.Mathlib.Omega.{arith}
use text.Mathlib.TextEquality.{path_by_compare}
use text.Mathlib.TextPositions.{compare_refl}
use procstar.Prelude.Tests.{if◌then◌else◌, ltb}
use procstar.Prelude.Int.{ℤ, pos, negsuc}

-- An ordered type of keys.
pub record Key (K : Type 0) : Type 0 where
  pub cmp : K → K → Ordering
  pub cmp_eq : (a b : K) → cmp a b ≡ Ordering.eq → a ≡ b
  pub cmp_refl : (a : K) → cmp a a ≡ Ordering.eq
  pub cmp_gt : (a b : K) → cmp a b ≡ Ordering.gt → cmp b a ≡ Ordering.lt
  pub cmp_trans :
      (a b c : K) → cmp a b ≡ Ordering.lt → cmp b c ≡ Ordering.lt → cmp a c ≡ Ordering.lt

abbrev pub is_eq : Ordering → Bool
is_eq Ordering.lt = false
is_eq Ordering.eq = true
is_eq Ordering.gt = false

pub compare_gt : (s t : String) → compare s t ≡ Ordering.gt → compare t s ≡ Ordering.lt
compare_gt String.[] String.[] h = cc (nil-nil)
compare_gt String.[] (String.◌∷◌ d t) h = cc (nil-cons d t)
compare_gt (String.◌∷◌ c s) String.[] h = nil-cons c s
compare_gt (String.◌∷◌ c s) (String.◌∷◌ d t) h =
    ground (arith, compare_gt s t, cons-cons c d s t, cons-cons d c t s)

pub compare_trans :
    (s t u : String)
    → compare s t ≡ Ordering.lt
    → compare t u ≡ Ordering.lt
    → compare s u ≡ Ordering.lt
compare_trans String.[] String.[] u h k = cc (sym nil-nil ∙ h)
compare_trans String.[] (String.◌∷◌ d t) String.[] h k = cc (cons-nil d t)
compare_trans String.[] (String.◌∷◌ d t) (String.◌∷◌ e u) h k = nil-cons e u
compare_trans (String.◌∷◌ c s) String.[] u h k = cc (cons-nil c s)
compare_trans (String.◌∷◌ c s) (String.◌∷◌ d t) String.[] h k = cc (cons-nil d t)
compare_trans (String.◌∷◌ c s) (String.◌∷◌ d t) (String.◌∷◌ e u) h k =
    ground (arith, compare_trans s t u, cons-cons c d s t, cons-cons d e t u, cons-cons c e s u)

instance abbrev pub string_key : Key String
string_key = record {
  cmp = compare;
  cmp_eq = path_by_compare;
  cmp_refl = compare_refl;
  cmp_gt = compare_gt;
  cmp_trans = compare_trans;
}

abbrev pub compare_ℤ : ℤ → ℤ → Ordering
compare_ℤ (pos m) (pos n) = compare_ℕ m n
compare_ℤ (pos m) (negsuc n) = Ordering.gt
compare_ℤ (negsuc m) (pos n) = Ordering.lt
compare_ℤ (negsuc m) (negsuc n) = compare_ℕ n m

pub compare_ℤ_eq : (a b : ℤ) → compare_ℤ a b ≡ Ordering.eq → a ≡ b
compare_ℤ_eq a b h = ground arith

pub compare_ℤ_refl : (a : ℤ) → compare_ℤ a a ≡ Ordering.eq
compare_ℤ_refl a = ground arith

pub compare_ℤ_gt : (a b : ℤ) → compare_ℤ a b ≡ Ordering.gt → compare_ℤ b a ≡ Ordering.lt
compare_ℤ_gt a b h = ground arith

pub compare_ℤ_trans :
    (a b c : ℤ)
    → compare_ℤ a b ≡ Ordering.lt
    → compare_ℤ b c ≡ Ordering.lt
    → compare_ℤ a c ≡ Ordering.lt
compare_ℤ_trans a b c h k = ground arith

instance abbrev pub int_key : Key ℤ
int_key = record {
  cmp = compare_ℤ;
  cmp_eq = compare_ℤ_eq;
  cmp_refl = compare_ℤ_refl;
  cmp_gt = compare_ℤ_gt;
  cmp_trans = compare_ℤ_trans;
}

-- The order of a tuple: by its first part, then by its second.
abbrev pub compare_pair : String × ℤ → String × ℤ → Ordering
compare_pair (s, a) (t, b) = elim (compare s t) [
  | Ordering.eq ↦ compare_ℤ a b
  | Ordering.lt ↦ Ordering.lt
  | Ordering.gt ↦ Ordering.gt
]

pub compare_pair_eq : (p q : String × ℤ) → compare_pair p q ≡ Ordering.eq → p ≡ q
compare_pair_eq (s, a) (t, b) h = ground (arith, path_by_compare s t, compare_ℤ_eq a b)

pub compare_pair_refl : (p : String × ℤ) → compare_pair p p ≡ Ordering.eq
compare_pair_refl (s, a) = ground (arith, compare_refl s, compare_ℤ_refl a)

pub compare_pair_gt :
    (p q : String × ℤ) → compare_pair p q ≡ Ordering.gt → compare_pair q p ≡ Ordering.lt
compare_pair_gt (s, a) (t, b) h =
    ground
      (arith, path_by_compare s t, compare_refl s, compare_gt s t, compare_gt t s, compare_ℤ_gt a b)

pub compare_pair_trans :
    (p q r : String × ℤ)
    → compare_pair p q ≡ Ordering.lt
    → compare_pair q r ≡ Ordering.lt
    → compare_pair p r ≡ Ordering.lt
compare_pair_trans (s, a) (t, b) (u, c) h k = ground (
  arith,
  path_by_compare s t,
  path_by_compare t u,
  compare_refl s,
  compare_trans s t u,
  compare_ℤ_trans a b c,
)

instance abbrev pub pair_key : Key (String × ℤ)
pair_key = record {
  cmp = compare_pair;
  cmp_eq = compare_pair_eq;
  cmp_refl = compare_pair_refl;
  cmp_gt = compare_pair_gt;
  cmp_trans = compare_pair_trans;
}

abbrev pub BTreeMap : Type 0 → Type 0 → Type 0
BTreeMap K V = List (K × V)

module _ {K : Type 0} ⦃k : Key K⦄ where
  abbrev pub same : K → K → Bool
  same a b = is_eq (k.cmp a b)

  pub same→eq : (a b : K) → same a b ≡ true → a ≡ b
  same→eq a b h = ground (arith, k.cmp_eq a b)

  pub same_refl : (a : K) → same a a ≡ true
  same_refl a = rw (k.cmp_refl a)

  pub same_sym : (a b : K) → same a b ≡ same b a
  same_sym a b = ground (arith, k.cmp_eq a b, k.cmp_eq b a, k.cmp_refl a, k.cmp_refl b)

  -- How often a key stands in a list.
  abbrev pub count : K → List K → ℕ
  count a [] = 0
  count a (x ∷ xs) = (if same a x then 1 else 0) + count a xs

  abbrev pub contains : List K → K → Bool
  contains [] a = false
  contains (x ∷ xs) a = same a x || contains xs a

  pub contains-count : (xs : List K) (a : K) → contains xs a ≡ ltb 0 (count a xs)
  contains-count [] a = refl
  contains-count (x ∷ xs) a = ground (arith, contains-count xs a)

module _ {K V : Type 0} ⦃k : Key K⦄ where
  unfoldable pub get : K → BTreeMap K V → Option V
  get key [] = none
  get key ((j, v) ∷ m) = if same j key then some v else get key m

  -- Puts a new entry before the first greater key, or replaces the value.
  unfoldable pub insert : K → V → BTreeMap K V → BTreeMap K V
  insert key v [] = (key, v) ∷ []
  insert key v ((j, w) ∷ m) =
      let rest = insert key v m in
      elim (k.cmp key j) [
        | Ordering.lt ↦ (key, v) ∷ (j, w) ∷ m
        | Ordering.eq ↦ (j, v) ∷ m
        | Ordering.gt ↦ (j, w) ∷ rest
      ]

  unfoldable pub remove : K → BTreeMap K V → BTreeMap K V
  remove key [] = []
  remove key ((j, w) ∷ m) = let rest = remove key m in if same j key then rest else (j, w) ∷ rest

  pub get-insert :
      (key other : K) (v : V) (m : BTreeMap K V)
      → get other (insert key v m) ≡ (if same key other then some v else get other m)
  unfolding get insert
  get-insert key other v [] = refl
  get-insert key other v ((j, w) ∷ m) = ground (
    arith,
    get-insert key other v m,
    k.cmp_eq key j,
    k.cmp_eq j other,
    k.cmp_eq key other,
    k.cmp_refl key,
    k.cmp_refl j,
  )

  pub get-remove :
      (key other : K) (m : BTreeMap K V)
      → get other (remove key m) ≡ (if same key other then none else get other m)
  unfolding get remove
  get-remove key other [] = ground arith
  get-remove key other ((j, w) ∷ m) = ground (
    arith,
    get-remove key other m,
    k.cmp_eq j key,
    k.cmp_eq j other,
    k.cmp_eq key other,
    k.cmp_refl j,
    k.cmp_refl key,
  )

unfoldable pub keys : {K V : Type 0} → BTreeMap K V → List K
keys [] = []
keys ((j, _) ∷ m) = j ∷ keys m

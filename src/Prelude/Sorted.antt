-- ===== src/Prelude/Sorted.antt =====
-- The order of a `BTreeMap`: it is kept by every operation, and so no key stands twice.
use procstar.Prelude.Lists.{All}
use procstar.Prelude.Map.{Key, BTreeMap, same, same→eq, count, insert, remove, get, keys}
use Prim.Native.Nat.{◌≤◌, Ordering}
use mathlib.Core.Path.{◌≡◌, refl}
use mathlib.Core.Bool.{true}
use mathlib.Core.Option.{none}
use mathlib.Core.List.{[], ◌∷◌}
use native.Mathlib.Omega.{arith}

module _ {K V : Type 0} ⦃k : Key K⦄ where
  -- Every key of the map is greater than `j`.
  abbrev pub Above : K → BTreeMap K V → Type 0
  Above j m = All (λ e. k.cmp j e.0 ≡ Ordering.lt) m

  abbrev pub IsSorted : BTreeMap K V → Type 0
  IsSorted [] = Unit
  IsSorted ((j, v) ∷ m) = Above j m × IsSorted m

  Above-trans : (i j : K) (m : BTreeMap K V) → k.cmp i j ≡ Ordering.lt → Above j m → Above i m
  Above-trans i j [] h a = tt
  Above-trans i j ((l, v) ∷ m) h (p, ps) = (k.cmp_trans i j l h p, Above-trans i j m h ps)

  Above-insert :
      (j key : K) (v : V) (m : BTreeMap K V)
      → k.cmp j key ≡ Ordering.lt
      → Above j m
      → Above j (insert key v m)
  unfolding insert
  Above-insert j key v [] h a = (h, tt)
  Above-insert j key v ((l, w) ∷ m) h (p, ps) = ground (arith, Above-insert j key v m h ps)

  pub insert-IsSorted :
      (key : K) (v : V) (m : BTreeMap K V) → IsSorted m → IsSorted (insert key v m)
  unfolding insert
  insert-IsSorted key v [] s = (tt, tt)
  insert-IsSorted key v ((j, w) ∷ m) (a, s) = ground (
    arith,
    insert-IsSorted key v m s,
    Above-trans key j m,
    Above-insert j key v m,
    k.cmp_gt key j,
  )

  Above-remove : (j key : K) (m : BTreeMap K V) → Above j m → Above j (remove key m)
  unfolding remove
  Above-remove j key [] a = tt
  Above-remove j key ((l, w) ∷ m) (p, ps) = ground (arith, Above-remove j key m ps)

  pub remove-IsSorted : (key : K) (m : BTreeMap K V) → IsSorted m → IsSorted (remove key m)
  unfolding remove
  remove-IsSorted key [] s = tt
  remove-IsSorted key ((j, w) ∷ m) (a, s) =
      ground (arith, remove-IsSorted key m s, Above-remove j key m a)

  pub get-Above : (j key : K) (m : BTreeMap K V) → Above j m → same j key ≡ true → get key m ≡ none
  unfolding get
  get-Above j key [] a h = refl
  get-Above j key ((l, w) ∷ m) (p, ps) h =
      ground (arith, get-Above j key m ps h, same→eq j key, same→eq l key, k.cmp_refl j)

  count-Above :
      (j key : K) (m : BTreeMap K V) → Above j m → same key j ≡ true → count key (keys m) ≡ 0
  unfolding keys
  count-Above j key [] a h = refl
  count-Above j key ((l, w) ∷ m) (p, ps) h =
      ground (arith, count-Above j key m ps h, same→eq key j, same→eq key l, k.cmp_refl j)

  pub IsSorted-distinct : (m : BTreeMap K V) → IsSorted m → (key : K) → count key (keys m) ≤ 1
  unfolding keys
  IsSorted-distinct [] s key = omega arith
  IsSorted-distinct ((j, w) ∷ m) (a, s) key =
      ground (arith, IsSorted-distinct m s key, count-Above j key m a)

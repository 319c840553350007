-- ===== src/Procs/Finalize.antt =====
-- What is recorded of the units of a process, and when their cleanup counts as complete.
use procstar.Prelude.{
  ℕ, zero, suc, ◌+◌, ◌≤◌, ◌≡◌, refl, ap, ◌∙◌, arith, String, Bool, true, false, not, ◌&&◌, ◌||◌,
  List, [], ◌∷◌, Option, none, some, ok, err, if◌then◌else◌, str_eq, Bool-cases, inl, inr, eq_iff,
}
use procstar.Procs.Units.{
  UnitsFinal, Round, Timed, default_final, record_scope_result, replace_result, finalize_units,
  finalize_units_inner, clean_up, stop_unit, stopped, settle_scope, settle_from, is_no_such_unit,
  was_reset, read_accounting, record_accounting, retry, stop_slice, and_then_await, within_budget,
  also, set_incomplete,
}

-- The results of a scope, recorded in the order in which they are read.
unfoldable pub record_all : List String → UnitsFinal → UnitsFinal
unfolding record_scope_result
record_all [] fin = fin
record_all (result ∷ results) fin = record_all results (record_scope_result (some result) fin)

-- The last failure among results, or "success" where there is none, or what there was before.
abbrev pub last_failure : Option String → List String → Option String
last_failure before [] = before
last_failure before (result ∷ results) =
    if str_eq result "success"
    then last_failure (elim before [ none ↦ some result | some old ↦ some old ]) results
    else last_failure (some result) results

replace_result-last :
    (result : String) (before : Option String)
    → replace_result result before ≡ (
        if str_eq result "success"
        then elim before [ none ↦ some result | some old ↦ some old ]
        else some result)
replace_result-last result none = ground arith
replace_result-last result (some old) =
    ground (arith, eq_iff result "success", eq_iff old "success")

-- A recorded scope result is the last failure that was read: a later success does not erase it, and a
-- success stands only where no failure was read.
record_all-last_failure :
    (results : List String) (fin : UnitsFinal)
    → (record_all results fin).scope_result ≡ last_failure fin.scope_result results
unfolding record_all record_scope_result
record_all-last_failure [] fin = refl
record_all-last_failure (result ∷ results) fin =
    record_all-last_failure results (record_scope_result (some result) fin)
    ∙ rw (replace_result-last result fin.scope_result) (ground arith)

module _ (ends_with : String → String → Bool) where
  -- Whether a scope is confirmed to be gone, inactive or reset.
  abbrev pub settled : Timed (String × String) → Timed (Unit {0}) → Bool
  settled (some (ok (active_state, result))) reset =
      if str_eq active_state "failed" then was_reset reset else str_eq active_state "inactive"
  settled (some (err e)) reset = is_no_such_unit ends_with e
  settled none reset = false

  -- Whether a round stops everything that there is.
  abbrev pub cleans_up : Option String → Round → Bool
  cleans_up none r = stopped ends_with r.stop_slice
  cleans_up (some scope) r =
      (stopped ends_with r.stop_scope && settled r.scope_state r.reset_failed)
      && stopped ends_with r.stop_slice

  settle_from-value :
      (state : Timed (String × String)) (reset : Timed (Unit {0})) (k : ℕ) (fin : UnitsFinal)
      → (fin' : UnitsFinal) × (n : ℕ) × (k ≤ n)
        × (settle_from ends_with state reset (suc k) fin ≡ (fin', some (settled state reset, n)))
  unfolding settle_from
  settle_from-value (some (ok (active_state, result))) reset k fin =
      elim (Bool-cases (str_eq active_state "failed")) [
        | inl failed ↦ (record_scope_result (some result) fin, k, omega arith, rw (failed) refl)
        | inr other ↦ (record_scope_result (some result) fin, suc k, omega arith, rw (other) refl)
      ]
  settle_from-value (some (err e)) reset k fin = (fin, suc k, omega arith, refl)
  settle_from-value none reset k fin = (fin, suc k, omega arith, refl)

  stop_slice-value :
      (r : Round) (ok_before : Bool) (k n : ℕ) (fin : UnitsFinal)
      → suc (suc k) ≤ n
      → (fin' : UnitsFinal) × (n' : ℕ) × (k ≤ n')
        × (stop_slice ends_with r ok_before n fin
            ≡ (fin', some (ok_before && stopped ends_with r.stop_slice, n')))
  unfolding stop_unit
  stop_slice-value r ok_before k zero fin h = absurd (omega (arith, h))
  stop_slice-value r ok_before k (suc zero) fin h = absurd (omega (arith, h))
  stop_slice-value r ok_before k (suc (suc n)) fin h = (
    record_accounting (read_accounting r.read_to_string r.cgroup_path) fin,
    n,
    omega (arith, h),
    refl,
  )

  -- A round takes at most five calls: with so many left it ends, and its value is whether all was stopped.
  clean_up-value :
      (scope : Option String) (r : Round) (k n : ℕ) (fin : UnitsFinal)
      → 5 + k ≤ n
      → (fin' : UnitsFinal) × (n' : ℕ) × (k ≤ n')
        × (clean_up ends_with scope r n fin ≡ (fin', some (cleans_up scope r, n')))
  unfolding clean_up stop_unit settle_scope
  clean_up-value none r k n fin h = stop_slice-value r true k n fin (omega (arith, h))
  clean_up-value (some scope) r k zero fin h = absurd (omega (arith, h))
  clean_up-value (some scope) r k (suc zero) fin h = absurd (omega (arith, h))
  clean_up-value (some scope) r k (suc (suc zero)) fin h = absurd (omega (arith, h))
  clean_up-value (some scope) r k (suc (suc (suc n))) fin h =
      let scope_ok : Bool = stopped ends_with r.stop_scope in
      let (fin1, n1, le, e) = settle_from-value r.scope_state r.reset_failed n fin in
      let (fin2, n2, le2, e2) =
        stop_slice-value r (scope_ok && settled r.scope_state r.reset_failed) k n1 fin1
          (omega (arith, le, h)) in
      (
        fin2,
        n2,
        le2,
        ap
              (λ a.
                and_then_await (and_then_await a (also ends_with scope_ok))
                  (stop_slice ends_with r))
              e
            ∙ e2,
      )

  retry-incomplete :
      (scope : Option String) (again : Round) (n1 : ℕ) (fin fin2 : UnitsFinal) (n2 : ℕ)
      (first second : Bool)
      → clean_up ends_with scope again n1 fin ≡ (fin2, some (second, n2))
      → (within_budget ends_with (
          and_then_await
            (retry ends_with scope again first n1 fin)
            (set_incomplete ends_with))).cleanup_incomplete
        ≡ not (first || second)
  retry-incomplete scope again n1 fin fin2 n2 true second e = refl
  retry-incomplete scope again n1 fin fin2 n2 false second e =
      ap
        (λ a.
          (within_budget ends_with
            (and_then_await a (set_incomplete ends_with))).cleanup_incomplete)
        e

  -- With ten calls or more within the budget, the cleanup of a process's units is recorded as complete exactly
  -- when the first round, or else the second, stops the scope, settles it and stops the slice.
  pub finalize_units_complete :
      (slice : String) (scope : Option String) (r again : Round) (n : ℕ)
      → 10 ≤ n
      → (finalize_units ends_with (some slice) scope (some (r, again)) n).cleanup_incomplete
        ≡ not (cleans_up scope r || cleans_up scope again)
  unfolding finalize_units finalize_units_inner
  finalize_units_complete slice scope r again n h =
      let (fin, n1, le, e) = clean_up-value scope r 5 n default_final (omega (arith, h)) in
      let (fin2, n2, le2, e2) = clean_up-value scope again 0 n1 fin (omega (arith, le)) in
      ap
        (λ a.
          (within_budget ends_with (
            and_then_await (and_then_await a (retry ends_with scope again))
              (set_incomplete ends_with))).cleanup_incomplete)
        e
      ∙ retry-incomplete scope again n1 fin fin2 n2 (cleans_up scope r) (cleans_up scope again) e2

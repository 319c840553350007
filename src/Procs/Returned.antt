-- ===== src/Procs/Returned.antt =====
-- How the parts of `start_procs` of src/procs.rs come to return what they do.
use procstar.Prelude.{
  ℕ, zero, suc, ◌≡◌, refl, sym, ap, subst, List, Result, ok, err, string_key, length,
}
use procstar.Err
use procstar.Procs.Table.{SharedProc, Procs}
use procstar.Procs.Start.{Outcome, assert_none, try_step, returned, panics, exits, and_next}

pub and_next-eq :
    {A B : Type 0} (m : Outcome A) (f : A → Outcome B) {b : B}
    → and_next m f ≡ returned b
    → (a : A) × (m ≡ returned a) × (f a ≡ returned b)
and_next-eq (returned a) f h = (a, refl, h)
and_next-eq panics f h = cc
and_next-eq (exits code) f h = cc

pub returned_inj : {A : Type 0} {a b : A} → returned a ≡ returned b → a ≡ b
returned_inj h = cc

ok_inj : {E A : Type 0} {a b : A} → (the_ok : Result E A) → the_ok ≡ ok a → the_ok ≡ ok b → a ≡ b
ok_inj the_ok h k = cc

pub assert_none-value :
    (left : Result Err.Error ℕ) (tasks : List SharedProc) (w after : Procs)
    (result : Result Err.Error (List SharedProc))
    → assert_none left tasks w ≡ returned (result, after)
    → ((all_tasks : List SharedProc) → result ≡ ok all_tasks → length all_tasks ≡ length tasks)
      × (after ≡ w)
assert_none-value (err e) tasks w after result h = cc
assert_none-value (ok (suc n)) tasks w after result h = cc
assert_none-value (ok zero) tasks w after result h =
    let p = returned_inj h in
    (
      λ all_tasks e. ap length (sym (ok_inj result (sym (ap (λ q. q.0) p)) e)),
      sym (ap (λ q. q.1) p),
    )

pub try_step-ok :
    {A B : Type 0} {step : Result Err.Error A} {a : A} {w : Procs}
    (next : A → Procs → Outcome (Result Err.Error B × Procs)) {out : Result Err.Error B × Procs}
    → step ≡ ok a
    → try_step (step, w) next ≡ returned out
    → next a w ≡ returned out
try_step-ok {w = w} next {out = out} e h = subst (λ s. try_step (s, w) next ≡ returned out) e h

pub try_step-err :
    {A B : Type 0} {step : Result Err.Error A} {bad : Err.Error} {w : Procs}
    (next : A → Procs → Outcome (Result Err.Error B × Procs)) {out : Result Err.Error B × Procs}
    → step ≡ err bad
    → try_step (step, w) next ≡ returned out
    → returned (err bad, w) ≡ returned out
try_step-err {w = w} next {out = out} e h = subst (λ s. try_step (s, w) next ≡ returned out) e h

-- ===== src/Spec/Matching.antt =====
-- The three loops of `validate_procs_fds` of src/spec.rs, each against the relation of Spec/Wired.
use procstar.Prelude.{
  ◌+◌, ◌≤◌, ◌≡◌, refl, ap, ◌∙◌, inl, inr, arith, true, false, List, [], ◌∷◌, ok, done,
  and_then-eq-ok, Key, same, same→eq, same_refl, count, contains, contains-count, Bool-cases, All,
  pair_key, int_key,
}
use procstar.Spec.{ProcId, FdName, RawFd, Fd, Procs}
use procstar.Spec.Fds.{parse_fd}
use procstar.Spec.Validate.{PipeFds, check_fds, check_procs, collect_fds, collect_procs}
use procstar.Spec.Wired.{Distinct, Names, Writes, AllWrites, HasDistinctFds, count-append}

module _ {K : Type 0} ⦃k : Key K⦄ where
  pub count-same : (a b : K) (xs : List K) → same a b ≡ true → count a xs ≡ count b xs
  count-same a b xs h = ap (λ c. count c xs) (same→eq a b h)

  Distinct-cons : (n : K) (xs : List K) → Distinct xs → contains xs n ≡ false → Distinct (n ∷ xs)
  Distinct-cons n xs d h a = ground (arith, d a, count-same a n xs, contains-count xs n)

  not-contains : (n : K) (xs : List K) → count n xs ≡ 0 → contains xs n ≡ false
  not-contains n xs h = ground (arith, contains-count xs n)

check_fds_sound :
    (seen : List RawFd) (fds : List (FdName × Fd))
    → Distinct seen
    → check_fds seen fds ≡ ok tt
    → (ns : List RawFd) × Names fds ns × ((a : RawFd) → count a ns + count a seen ≤ 1)
unfolding check_fds
check_fds_sound seen [] d e = ([], Names.nil, λ a. omega (arith, d a))
check_fds_sound seen ((name, fd) ∷ fds) d e =
    let (n, parsed, e') = and_then-eq-ok (parse_fd name) _ e in
    elim (Bool-cases (contains seen n)) [
      | inl old ↦ cc (rw old at e')
      | inr new ↦
          let (ns, names, bound) =
            check_fds_sound (n ∷ seen) fds (Distinct-cons n seen d new) (rw new at e') in
          (n ∷ ns, Names.cons parsed names, λ a. omega (arith, bound a))
    ]

check_fds_complete :
    (seen : List RawFd) (fds : List (FdName × Fd)) (ns : List RawFd)
    → Names fds ns
    → ((a : RawFd) → count a ns + count a seen ≤ 1)
    → check_fds seen fds ≡ ok tt
unfolding check_fds
check_fds_complete seen [] ns Names.nil bound = refl
check_fds_complete seen ((_, _) ∷ fds) ns (Names.cons {n = n} {ns = ms} parsed names) bound =
    let new : contains seen n ≡ false =
      not-contains n seen (ground (arith, bound n, same_refl n)) in
    rw (parsed, new) (check_fds_complete (n ∷ seen) fds ms names (λ a. omega (arith, bound a)))

pub check_procs_sound :
    (procs : Procs) → check_procs procs ≡ ok tt → All (λ p. HasDistinctFds p.1.fds) procs
unfolding check_procs
check_procs_sound [] e = tt
check_procs_sound ((id, proc) ∷ procs) e =
    let (_, here, later) = and_then-eq-ok (check_fds [] proc.fds) _ e in
    let (ns, p, b) = check_fds_sound [] proc.fds (λ a. omega arith) here in
    (
      record { numbers = ns; parsed = p; distinct = λ a. omega (arith, b a) },
      check_procs_sound procs later,
    )

pub check_procs_complete :
    (procs : Procs) → All (λ p. HasDistinctFds p.1.fds) procs → check_procs procs ≡ ok tt
unfolding check_procs
check_procs_complete [] h = refl
check_procs_complete ((id, proc) ∷ procs) (h, hs) =
    rw (check_fds_complete [] proc.fds h.numbers h.parsed (λ a. omega (arith, h.distinct a)))
      (check_procs_complete procs hs)

-- The second loop: the assertion holds as long as no key is met twice.
collect_fds_lem :
    (id : ProcId) (pipes : PipeFds) (fds : List (FdName × Fd)) (ks : PipeFds)
    → Writes id fds ks
    → ((key : ProcId × RawFd) → count key ks + count key pipes ≤ 1)
    → (all : PipeFds) × (collect_fds id pipes fds ≡ done (ok all))
      × ((key : ProcId × RawFd) → count key all ≡ count key ks + count key pipes)
unfolding collect_fds
collect_fds_lem id pipes [] ks Writes.nil b = (pipes, refl, λ key. omega arith)
collect_fds_lem id pipes (_ ∷ fds) ks (Writes.write {n = n} {ks = ls} parsed w) b =
    let new : contains pipes (id, n) ≡ false =
      not-contains (id, n) pipes
        (ground (arith, b (id, n), same_refl {K = ProcId × RawFd} (id, n))) in
    let (all, e, c) = collect_fds_lem id ((id, n) ∷ pipes) fds ls w (λ key. omega (arith, b key)) in
    (all, rw (parsed, new) e, λ key. omega (arith, c key))
collect_fds_lem id pipes (_ ∷ fds) ks (Writes.skip other w) b =
    let (all, e, c) = collect_fds_lem id pipes fds ks w b in (all, rw other e, c)

pub collect_procs_lem :
    (pipes : PipeFds) (procs : Procs) (ks : PipeFds)
    → AllWrites procs ks
    → ((key : ProcId × RawFd) → count key ks + count key pipes ≤ 1)
    → (all : PipeFds) × (collect_procs pipes procs ≡ done (ok all))
      × ((key : ProcId × RawFd) → count key all ≡ count key ks + count key pipes)
unfolding collect_procs
collect_procs_lem pipes [] ks AllWrites.nil b = (pipes, refl, λ key. omega arith)
collect_procs_lem pipes ((id, proc) ∷ procs) all (AllWrites.cons {ks = ks} {ls = ls} w ws split) b =
    let both : (key : ProcId × RawFd) → count key all ≡ count key ks + count key ls =
      λ key. ap (count key) split ∙ count-append key ks ls in
    let (mid, e, c) =
      collect_fds_lem id pipes proc.fds ks w (λ key. omega (arith, b key, both key)) in
    let (end, e', c') =
      collect_procs_lem mid procs ls ws (λ key. omega (arith, b key, both key, c key)) in
    (end, rw e e', λ key. omega (arith, c key, c' key, both key))

-- ===== src/Spec/Laws.antt =====
-- What `validate_procs_fds` of src/spec.rs accepts: the specs that are well wired, and no other.
use procstar.Prelude.{
  ◌+◌, ◌≤◌, ◌≡◌, ◌↔◌, refl, ap, ◌∙◌, inl, inr, arith, List, [], ◌∷◌, ◌++◌, Result, ok, err, done,
  and_then, and_then-eq-ok, Result-cases, Key, same, same_refl, count, if◌then◌else◌, All, pair_key,
  string_key, int_key, keys,
}
use procstar.Spec.{Error, ProcId, FdName, RawFd, Fd, pipe_write, Procs, inherit}
use procstar.Spec.Validate.{
  PipeFds, check_procs, collect_procs, match_procs, check_rest, validate_procs_fds,
}
use procstar.Spec.Wired.{Distinct, Names, Writes, AllWrites, HasDistinctFds, IsWired, count-append}
use procstar.Spec.Matching.{check_procs_sound, check_procs_complete, collect_procs_lem}
use procstar.Spec.Matched.{match_procs_sound, match_procs_complete}

Writes-exists :
    (id : ProcId) (fds : List (FdName × Fd)) (ns : List RawFd)
    → Names fds ns
    → (ks : PipeFds) × Writes id fds ks
Writes-exists id [] ns Names.nil = ([], Writes.nil)
Writes-exists id ((_, pipe_write) ∷ fds) ns (Names.cons {n = m} parsed names) =
    let (ks, w) = Writes-exists id fds _ names in ((id, m) ∷ ks, Writes.write parsed w)
Writes-exists id ((_, inherit) ∷ fds) ns (Names.cons parsed names) =
    let (ks, w) = Writes-exists id fds _ names in (ks, Writes.skip refl w)
Writes-exists id ((_, _) ∷ fds) ns (Names.cons parsed names) =
    let (ks, w) = Writes-exists id fds _ names in (ks, Writes.skip refl w)

AllWrites-exists :
    (procs : Procs) → All (λ p. HasDistinctFds p.1.fds) procs → (ks : PipeFds) × AllWrites procs ks
AllWrites-exists [] h = ([], AllWrites.nil)
AllWrites-exists ((id, proc) ∷ procs) (h, hs) =
    let (ks, w) = Writes-exists id proc.fds h.numbers h.parsed in
    let (ls, ws) = AllWrites-exists procs hs in (ks ++ ls, AllWrites.cons w ws refl)

-- The write ends of a proc: each at most as often as its descriptor is named, and none of another
-- proc.
count-Writes :
    (id : ProcId) (fds : List (FdName × Fd)) (ns : List RawFd) (ks : PipeFds)
    → Names fds ns
    → Writes id fds ks
    → (other : ProcId) (n : RawFd) → count (other, n) ks ≤ (if same other id then count n ns else 0)
count-Writes id [] ns ks Names.nil Writes.nil other n = ground arith
count-Writes id (_ ∷ fds) ns ks (Names.cons {n = m} {ns = ms} p names)
      (Writes.write {n = m'} {ks = ls} p' w) other n =
    let e : m ≡ m' = cc in rw (← e) (ground (arith, count-Writes id fds ms ls names w other n))
count-Writes id (_ ∷ fds) ns ks (Names.cons {ns = ms} p names) (Writes.skip q w) other n =
    ground (arith, count-Writes id fds ms ks names w other n)

pub count-AllWrites :
    (procs : Procs) (ks : PipeFds)
    → All (λ p. HasDistinctFds p.1.fds) procs
    → AllWrites procs ks
    → (id : ProcId) (n : RawFd) → count (id, n) ks ≤ count id (keys procs)
unfolding keys
count-AllWrites [] ks h AllWrites.nil id n = omega arith
count-AllWrites ((id, proc) ∷ procs) all (h, hs) (AllWrites.cons {ks = ks} {ls = ls} w ws split)
      other n =
    let both : count (other, n) all ≡ count (other, n) ks + count (other, n) ls =
      ap (count (other, n)) split ∙ count-append {K = ProcId × RawFd} (other, n) ks ls in
    ground (
      arith,
      count-Writes id proc.fds h.numbers ks h.parsed w other n,
      count-AllWrites procs ls hs ws other n,
      h.distinct n,
      both,
    )

nil_of_count-zero : {K : Type 0} ⦃k : Key K⦄ (u : List K) → ((a : K) → count a u ≡ 0) → u ≡ []
nil_of_count-zero [] h = refl
nil_of_count-zero (p ∷ u) h = absurd (ground (arith, h p, same_refl p))

check_rest_nil :
    (pick : ProcId × RawFd → PipeFds → ProcId × RawFd) (u : PipeFds)
    → check_rest pick u ≡ ok tt
    → u ≡ []
check_rest_nil pick [] e = refl
check_rest_nil pick (p ∷ u) e = cc

module _ (pick : ProcId × RawFd → PipeFds → ProcId × RawFd) (procs : Procs)
    (distinct_ids : Distinct (keys procs)) where
  -- The write ends are collected without a failure once the first loop has passed.
  collected :
      (ks : PipeFds)
      → All (λ p. HasDistinctFds p.1.fds) procs
      → AllWrites procs ks
      → (all : PipeFds) × (collect_procs [] procs ≡ done (ok all))
        × ((k : ProcId × RawFd) → count k all ≡ count k ks)
  collected ks h ws =
      let b : (k : ProcId × RawFd) → count k ks + 0 ≤ 1 =
        λ k. omega (arith, count-AllWrites procs ks h ws k.0 k.1, distinct_ids k.0) in
      let (all, e, c) = collect_procs_lem [] procs ks ws b in (all, e, λ k. omega (arith, c k))

  validate_sound : validate_procs_fds pick procs ≡ done (ok tt) → IsWired procs
  unfolding validate_procs_fds
  validate_sound e = elim (Result-cases (check_procs procs)) [
    | inr (bad, failed) ↦ cc (rw failed at e)
    | inl (_, passed) ↦
        let h = check_procs_sound procs passed in
        let (ks, ws) = AllWrites-exists procs h in
        let (all, run, c) = collected ks h ws in
        let e' : and_then (match_procs all procs) (check_rest pick) ≡ ok tt =
          cc (rw (passed, run) at e) in
        let (end, matched, over) = and_then-eq-ok (match_procs all procs) (check_rest pick) e' in
        let (rs, reads, c') = match_procs_sound all procs matched in
        let none_left = check_rest_nil pick end over in
        record {
          fds = h;
          writes = ks;
          written = ws;
          reads = rs;
          read = reads;
          matched = λ k. omega (arith, c k, c' k, ap (count k) none_left);
        }
  ]

  validate_complete : IsWired procs → validate_procs_fds pick procs ≡ done (ok tt)
  unfolding validate_procs_fds
  validate_complete w =
      let (all, run, c) = collected w.writes w.fds w.written in
      let (end, matched, c') =
        match_procs_complete all procs w.reads w.read (λ k. omega (arith, c k, w.matched k)) in
      let e : end ≡ [] = nil_of_count-zero end (λ k. omega (arith, c k, c' k, w.matched k)) in
      rw (check_procs_complete procs w.fds, run, matched, e) refl

-- For specs under distinct proc ids, the validation succeeds exactly when the specs are well wired:
-- every descriptor name is read, no proc names a descriptor twice, and every pipe that a proc writes
-- is read exactly as often, by the procs together.
pub validate_procs_fds_iff :
    (pick : ProcId × RawFd → PipeFds → ProcId × RawFd) (procs : Procs)
    → Distinct (keys procs)
    → (validate_procs_fds pick procs ≡ done (ok tt)) ↔ IsWired procs
validate_procs_fds_iff pick procs d = (validate_sound pick procs d, validate_complete pick procs d)

-- For specs under distinct proc ids the assertion on the set of write ends never fails: the
-- validation returns, with success or with an error.
pub validate_procs_fds_returns :
    (pick : ProcId × RawFd → PipeFds → ProcId × RawFd) (procs : Procs)
    → Distinct (keys procs)
    → (r : Result Error (Unit {0})) × (validate_procs_fds pick procs ≡ done r)
unfolding validate_procs_fds
validate_procs_fds_returns pick procs d = elim (Result-cases (check_procs procs)) [
  | inr (bad, failed) ↦ (err bad, rw failed refl)
  | inl (_, passed) ↦
      let h = check_procs_sound procs passed in
      let (ks, ws) = AllWrites-exists procs h in
      let (all, run, c) = collected pick procs d ks h ws in
      (and_then (match_procs all procs) (check_rest pick), rw (passed, run) refl)
]

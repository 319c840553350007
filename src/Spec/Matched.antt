-- ===== src/Spec/Matched.antt =====
-- `match_fds` and `match_procs` of src/spec.rs: which write ends they leave, counted by their keys.
use procstar.Prelude.{
  ◌+◌, ◌≤◌, ◌≡◌, refl, ap, ◌∙◌, inl, inr, arith, List, [], ◌∷◌, ◌++◌, ok, and_then-eq-ok, same,
  same→eq, same_refl, count, if◌then◌else◌, Bool-cases, Option-cases, pair_key, string_key, int_key,
  Option, none, some,
}
use procstar.Spec.{ProcId, FdName, RawFd, Fd, pipe_read, Procs, inherit}
use procstar.Spec.Fds.{parse_fd}
use procstar.Spec.Validate.{PipeFds, remove_key, or_unmatched, match_fds, match_procs}
use procstar.Spec.Wired.{Reads, AllReads, count-append}

remove_key-some :
    (key k : ProcId × RawFd) (u : PipeFds) {u' : PipeFds}
    → remove_key key u ≡ some u'
    → count k u ≡ (if same k key then 1 else 0) + count k u'
unfolding remove_key
remove_key-some key k [] e = cc
remove_key-some key k (p ∷ u) {u'} e = elim (Bool-cases (same key p)) [
  | inl here ↦
      let q : same k key ≡ same k p = ap (λ x. same k x) (same→eq key p here) in
      let e' : u ≡ u' = ground arith in rw (q, e') refl
  | inr there ↦ elim (Option-cases (remove_key key u)) [
    | inl missing ↦ cc (rw (there, missing) at e)
    | inr (rest, found) ↦
        let e' : p ∷ rest ≡ u' = ground arith in
        rw (← e') (omega (arith, remove_key-some key k u found))
  ]
]

remove_key-none : (key : ProcId × RawFd) (u : PipeFds) → remove_key key u ≡ none → count key u ≡ 0
unfolding remove_key
remove_key-none key [] e = refl
remove_key-none key (p ∷ u) e = ground (arith, remove_key-none key u)

or_unmatched-ok :
    (id : ProcId) (name : FdName) (o : Option PipeFds) {u : PipeFds}
    → or_unmatched id name o ≡ ok u
    → o ≡ some u
or_unmatched-ok id name none e = cc
or_unmatched-ok id name (some v) e = cc

-- The third loop takes out one key for each read end.
match_fds_sound :
    (u : PipeFds) (fds : List (FdName × Fd)) {u' : PipeFds}
    → match_fds u fds ≡ ok u'
    → (ks : PipeFds) × Reads fds ks × ((k : ProcId × RawFd) → count k u ≡ count k ks + count k u')
unfolding match_fds
match_fds_sound u [] {u'} e =
    let e' : u ≡ u' = cc in ([], Reads.nil, λ k. ap (count k) e' ∙ omega arith)
match_fds_sound u ((own, pipe_read id name) ∷ fds) {u'} e =
    let (n, parsed, e') = and_then-eq-ok (parse_fd name) _ e in
    let (mid, removed, e'') =
      and_then-eq-ok (or_unmatched id name (remove_key (id, n) u)) (λ v. match_fds v fds) e' in
    let (ks, reads, c) = match_fds_sound mid fds e'' in
    let found = or_unmatched-ok id name (remove_key (id, n) u) removed in
    (
      (id, n) ∷ ks,
      Reads.read parsed reads,
      λ k. omega (arith, remove_key-some (id, n) k u found, c k),
    )
match_fds_sound u ((own, inherit) ∷ fds) e =
    let (ks, reads, c) = match_fds_sound u fds e in (ks, Reads.skip refl reads, c)
match_fds_sound u ((own, _) ∷ fds) e =
    let (ks, reads, c) = match_fds_sound u fds e in (ks, Reads.skip refl reads, c)

match_fds_complete :
    (u : PipeFds) (fds : List (FdName × Fd)) (ks : PipeFds)
    → Reads fds ks
    → ((k : ProcId × RawFd) → count k ks ≤ count k u)
    → (u' : PipeFds) × (match_fds u fds ≡ ok u')
      × ((k : ProcId × RawFd) → count k u ≡ count k ks + count k u')
unfolding match_fds
match_fds_complete u [] ks Reads.nil b = (u, refl, λ k. omega arith)
match_fds_complete u ((_, _) ∷ fds) ks
      (Reads.read {id = id} {name = name} {n = n} {ks = ls} parsed r) b =
    elim (Option-cases (remove_key (id, n) u)) [
      | inl missing ↦ absurd (
          ground
            (arith, remove_key-none (id, n) u, b (id, n), same_refl {K = ProcId × RawFd} (id, n)))
      | inr (rest, found) ↦
          let (u', e, c) =
            match_fds_complete rest fds ls r
              (λ k. omega (arith, remove_key-some (id, n) k u found, b k)) in
          (u', rw (parsed, found) e, λ k. omega (arith, remove_key-some (id, n) k u found, c k))
    ]
match_fds_complete u ((_, inherit) ∷ fds) ks (Reads.skip other r) b =
    match_fds_complete u fds ks r b
match_fds_complete u ((_, pipe_read _ _) ∷ fds) ks (Reads.skip other r) b = cc
match_fds_complete u ((_, _) ∷ fds) ks (Reads.skip other r) b = match_fds_complete u fds ks r b

pub match_procs_sound :
    (u : PipeFds) (procs : Procs) {u' : PipeFds}
    → match_procs u procs ≡ ok u'
    → (ks : PipeFds) × AllReads procs ks
      × ((k : ProcId × RawFd) → count k u ≡ count k ks + count k u')
unfolding match_procs
match_procs_sound u [] {u'} e =
    let e' : u ≡ u' = cc in ([], AllReads.nil, λ k. ap (count k) e' ∙ omega arith)
match_procs_sound u ((id, proc) ∷ procs) e =
    let (mid, here, later) = and_then-eq-ok (match_fds u proc.fds) (λ v. match_procs v procs) e in
    let (ks, r, c) = match_fds_sound u proc.fds here in
    let (ls, rs, c') = match_procs_sound mid procs later in
    (
      ks ++ ls,
      AllReads.cons r rs refl,
      λ k. omega (arith, c k, c' k, count-append {K = ProcId × RawFd} k ks ls),
    )

pub match_procs_complete :
    (u : PipeFds) (procs : Procs) (ks : PipeFds)
    → AllReads procs ks
    → ((k : ProcId × RawFd) → count k ks ≤ count k u)
    → (u' : PipeFds) × (match_procs u procs ≡ ok u')
      × ((k : ProcId × RawFd) → count k u ≡ count k ks + count k u')
unfolding match_procs
match_procs_complete u [] ks AllReads.nil b = (u, refl, λ k. omega arith)
match_procs_complete u ((id, proc) ∷ procs) all (AllReads.cons {ks = ks} {ls = ls} r rs split) b =
    let both : (k : ProcId × RawFd) → count k all ≡ count k ks + count k ls =
      λ k. ap (count k) split ∙ count-append {K = ProcId × RawFd} k ks ls in
    let (mid, e, c) = match_fds_complete u proc.fds ks r (λ k. omega (arith, b k, both k)) in
    let (end, e', c') =
      match_procs_complete mid procs ls rs (λ k. omega (arith, b k, both k, c k)) in
    (end, rw e e', λ k. omega (arith, c k, c' k, both k))

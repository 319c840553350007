-- ===== src/Sys/Cloexec.antt =====
-- `set_cloexec` of src/sys.rs, over the flags of the descriptors.
use procstar.Prelude.{
  ℕ, ◌+◌, ◌-◌, ◌%◌, ◌≡◌, ◌≢◌, refl, ◌⊎◌, ap, inl, inr, arith, Bool, false, ℤ, pos, negsuc, Result,
  ok, err, same, int_key, if◌then◌else◌, ◌==◌, Bool-cases,
}
use procstar.Io.{IoError}
use procstar.Spec.{RawFd}
use procstar.Sys.Calls.{fcntl_getfd, fcntl_setfd}

-- `flags & FD_CLOEXEC`, the lowest bit of an `i32`.
unfoldable pub has_cloexec : ℤ → Bool
has_cloexec (pos n) = n % 2 == 1
has_cloexec (negsuc n) = n % 2 == 0

-- `flags | FD_CLOEXEC`, where the bit is not set.
unfoldable pub with_cloexec : ℤ → ℤ
with_cloexec (pos n) = pos (n + 1)
with_cloexec (negsuc n) = negsuc (n - 1)

module _ {K : Type 0} (last_os_error : IoError) (getfd : K → RawFd → ℤ)
    (setfd : K → RawFd → ℤ → ℤ × K) where
  abbrev pub set_flags : RawFd → ℤ × K → Result IoError (Unit {0}) × K
  set_flags fd (ret, k) = (fcntl_setfd last_os_error ret, k)

  abbrev pub set_from : K → RawFd → Result IoError ℤ → Result IoError (Unit {0}) × K
  set_from k fd (err e) = (err e, k)
  set_from k fd (ok flags) =
      if has_cloexec flags then (ok tt, k) else set_flags fd (setfd k fd (with_cloexec flags))

  unfoldable pub set_cloexec : K → RawFd → Result IoError (Unit {0}) × K
  unfolding has_cloexec with_cloexec fcntl_getfd fcntl_setfd
  set_cloexec k fd = set_from k fd (fcntl_getfd last_os_error (getfd k fd))

  -- What the system documents of the two calls: F_GETFD returns flags or -1; F_SETFD stores the flags of
  -- its descriptor, unless it returns -1, and leaves the other descriptors alone.
  pub record Stores : Type 0 where
    pub returns : (k : K) (fd : RawFd) → (getfd k fd ≡ negsuc 0) ⊎ ((n : ℕ) × (getfd k fd ≡ pos n))
    pub stores :
        (k : K) (fd : RawFd) (flags : ℤ)
        → (setfd k fd flags).0 ≢ negsuc 0
        → getfd (setfd k fd flags).1 fd ≡ flags
    pub others :
        (k : K) (fd other : RawFd) (flags : ℤ)
        → same fd other ≡ false
        → getfd (setfd k fd flags).1 other ≡ getfd k other

  -- The descriptor is closed on exec.
  abbrev pub IsMarked : K → RawFd → Type 0
  IsMarked k fd = (n : ℕ) × (getfd k fd ≡ pos n) × (n % 2 ≡ 1)

  abbrev pub Marks : K → K → RawFd → Type 0
  Marks k after fd =
      IsMarked after fd
      × ((other : RawFd) → same fd other ≡ false → getfd after other ≡ getfd k other)

  set_flags-Marks :
      (k after : K) (fd : RawFd) (n : ℕ)
      → Stores
      → n % 2 ≡ 1
      → set_flags fd (setfd k fd (pos n)) ≡ (ok tt, after)
      → Marks k after fd
  unfolding fcntl_setfd
  set_flags-Marks k after fd n stores h e =
      let at : (setfd k fd (pos n)).1 ≡ after = ap (λ r. r.1) e in
      let stored : (setfd k fd (pos n)).0 ≢ negsuc 0 =
        λ failed. cc (rw failed at (ap (λ r. r.0) e)) in
      (
        (n, rw (← at) (stores.stores k fd (pos n) stored), h),
        λ other d. rw (← at) (stores.others k fd other (pos n) d),
      )

  -- After it has succeeded the descriptor is closed on exec, and the flags of the others are as they were.
  pub set_cloexec-Marks :
      (k after : K) (fd : RawFd) → Stores → set_cloexec k fd ≡ (ok tt, after) → Marks k after fd
  unfolding set_cloexec has_cloexec with_cloexec fcntl_getfd
  set_cloexec-Marks k after fd stores e = elim (stores.returns k fd) [
    | inl failed ↦ cc (ap (λ r. r.0) (rw failed at e))
    | inr (n, got) ↦ elim (Bool-cases (n % 2 == 1)) [
      | inl old ↦
          let same_state : k ≡ after = ap (λ r. r.1) (rw (got, old) at e) in
          rw (← same_state) ((n, got, ground arith), λ other d. refl)
      | inr new ↦ set_flags-Marks k after fd (n + 1) stores (ground arith) (rw (got, new) at e)
    ]
  ]

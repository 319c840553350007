-- ===== src/Fd/Descriptors.antt =====
-- What `close`, `dup2` and `open` do to the descriptors of a process, and the sequences of them that
-- `in_child` of src/fd.rs makes.
use procstar.Prelude.{
  true, false, not, ◌&&◌, String, [], ◌∷◌, Option, none, some, ℤ, Result, ok, err, ◌≡◌, refl, ap,
  ◌∙◌, arith, if◌then◌else◌, same, same→eq, same_refl, same_sym, contains, int_key, Bool-cases, inl,
  inr,
}
use procstar.Io.{IoError}
use procstar.Spec.{RawFd}
use procstar.Fd.Child.{Calls, then_call, finish, move}

-- What the descriptors of a process refer to.
abbrev pub Table : Type 0 → Type 0
Table R = RawFd → Option R

abbrev pub put : {R : Type 0} → RawFd → Option R → Table R → Table R
put fd r t x = if same fd x then r else t x

-- What `close`, `dup2` and `open` are documented to do to the descriptors of a process. `R` names what a
-- descriptor may refer to.
pub record Descriptors {W : Type 0} (calls : Calls W) (R : Type 0) : Type 0 where
  pub at : W → Table R
  pub opened : String → ℤ → ℤ → R
  pub close_at : (fd x : RawFd) (w : W) → at (calls.close fd w).1 x ≡ put fd none (at w) x
  pub dup2_at :
      (from fd x : RawFd) (w : W)
      → (calls.dup2 from fd w).0 ≡ ok tt
      → at (calls.dup2 from fd w).1 x ≡ put fd (at w from) (at w) x
  pub open_at :
      (path : String) (oflags mode : ℤ) (fd x : RawFd) (w : W)
      → (calls.open_file path oflags mode w).0 ≡ ok fd
      → (at w fd ≡ none)
        × (at (calls.open_file path oflags mode w).1 x
            ≡ put fd (some (opened path oflags mode)) (at w) x)

module _ {W R : Type 0} (calls : Calls W) (d : Descriptors calls R) where
  -- Closing takes effect whether or not it reports an error.
  pub close_wired :
      (fd x : RawFd) (w : W)
      → d.at (then_call calls (calls.close fd w) (finish calls)).1 x ≡ put fd none (d.at w) x
  close_wired fd x w = ground (arith, d.close_at fd x w)

  pub dup2_wired :
      (from fd x : RawFd) (w : W)
      → (then_call calls (calls.dup2 from fd w) (finish calls)).0 ≡ ok tt
      → d.at (then_call calls (calls.dup2 from fd w) (finish calls)).1 x
        ≡ put fd (d.at w from) (d.at w) x
  dup2_wired from fd x w h = ground (arith, d.dup2_at from fd x w)

  closed_after :
      (t : Table R) (from : RawFd) (r : Result IoError (Unit {0}) × W)
      → ((x : RawFd) → r.0 ≡ ok tt → d.at r.1 x ≡ t x)
      → let moved =
          then_call calls r (λ _ w'. then_call calls (calls.close from w') (finish calls)) in
        moved.0 ≡ ok tt → (x : RawFd) → d.at moved.1 x ≡ put from none t x
  closed_after t from (err e, w') law h x = cc
  closed_after t from (ok _, w') law h x =
      close_wired from x w' ∙ ap (λ r. if same from x then none else r) (law x refl)

  -- A move of a descriptor to another one.
  pub move_wired :
      (from fd : RawFd) (w : W)
      → (move calls from fd w).0 ≡ ok tt
      → (x : RawFd)
      → d.at (move calls from fd w).1 x ≡ put from none (put fd (d.at w from) (d.at w)) x
  move_wired from fd w =
      closed_after (put fd (d.at w from) (d.at w)) from (calls.dup2 from fd w)
        (λ x. d.dup2_at from fd x w)

  -- A file is opened, and its descriptor moved unless it is the right one.
  file_wired :
      (fd file_fd : RawFd) (r : R) (t : Table R) (w : W)
      → t file_fd ≡ none
      → ((x : RawFd) → d.at w x ≡ put file_fd (some r) t x)
      → let set = if same file_fd fd then (ok tt, w) else move calls file_fd fd w in
        set.0 ≡ ok tt → (x : RawFd) → d.at set.1 x ≡ put fd (some r) t x
  file_wired fd file_fd r t w new law h x = elim (Bool-cases (same file_fd fd)) [
    | inl e ↦ rw (e) (law x ∙ ap (λ f. put f (some r) t x) (same→eq file_fd fd e))
    | inr e ↦
        let moved = rw (e) at h in
        rw (e) (
          move_wired file_fd fd w moved x
          ∙ ground
              (arith, law x, law file_fd, new, same→eq file_fd x, same→eq fd x, same_refl file_fd))
  ]

  pub opened_wired :
      (fd : RawFd) (r : R) (t : Table R) (opened : Result IoError RawFd × W)
      → ((file_fd x : RawFd)
          → opened.0 ≡ ok file_fd
          → (t file_fd ≡ none) × (d.at opened.1 x ≡ put file_fd (some r) t x))
      → let set =
          then_call calls opened
            λ file_fd w'. if same file_fd fd then (ok tt, w') else move calls file_fd fd w' in
        set.0 ≡ ok tt → (x : RawFd) → d.at set.1 x ≡ put fd (some r) t x
  opened_wired fd r t (err e, w) law h x = cc
  opened_wired fd r t (ok file_fd, w) law h x =
      file_wired fd file_fd r t w (law file_fd file_fd refl).0 (λ y. (law file_fd y refl).1) h x

  pub not_target : (from fd : RawFd) → not (same from fd) ≡ true → same from fd ≡ false
  not_target from fd apart = ground arith

  pub captured :
      (fd read_fd write_fd : RawFd) (t : Table R) (closed : Result IoError (Unit {0}) × W)
      → ((x : RawFd) → d.at closed.1 x ≡ put read_fd none t x)
      → not (same read_fd write_fd) && not (same read_fd fd) && not (same write_fd fd) ≡ true
      → let set = then_call calls closed λ _ w'. move calls write_fd fd w' in
        set.0 ≡ ok tt
        → (x : RawFd)
        → d.at set.1 x
          ≡ (if contains (read_fd ∷ write_fd ∷ []) x then none else put fd (t write_fd) t x)
  captured fd read_fd write_fd t (err e, w) law apart h x = cc
  captured fd read_fd write_fd t (ok _, w) law apart h x =
      move_wired write_fd fd w h x
      ∙ ground (
        arith,
        law x,
        law write_fd,
        same_sym x read_fd,
        same_sym x write_fd,
        same→eq x read_fd,
        same→eq fd x,
        same_sym read_fd fd,
      )

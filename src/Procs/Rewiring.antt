-- ===== src/Procs/Rewiring.antt =====
-- What the handlers of a process, made by `start_procs` of src/procs.rs, are there for in the child, and
-- when they do not disturb each other.
use procstar.Prelude.{
  Bool, true, false, not, ◌&&◌, List, [], ◌∷◌, ◌++◌, none, ◌≡◌, refl, ◌∙◌, arith, if◌then◌else◌,
  same_refl, same→eq, contains, int_key, Bool-cases, inl, inr,
}
use procstar.Spec.{RawFd}
use procstar.Fd.{FdHandler}
use procstar.Fd.Child.{Calls}
use procstar.Fd.Descriptors.{Table, Descriptors}
use procstar.Fd.Wired.{own, separate, names, rewired, rewired-unnamed, AsMade}
use procstar.Procs.Proc.{FdHandlers}

abbrev pub disjoint : List RawFd → List RawFd → Bool
disjoint [] ys = true
disjoint (x ∷ xs) ys = not (contains ys x) && disjoint xs ys

pub disjoint-contains :
    (xs ys : List RawFd) (x : RawFd)
    → disjoint xs ys ≡ true
    → contains xs x ≡ true
    → contains ys x ≡ false
disjoint-contains [] ys x apart h = cc
disjoint-contains (z ∷ xs) ys x apart h = ground (arith, disjoint-contains xs ys x, same→eq x z)

abbrev pub owned : FdHandlers → List RawFd
owned [] = []
owned ((_, h) ∷ handlers) = own h ++ owned handlers

abbrev pub named : FdHandlers → List RawFd
named [] = []
named ((_, h) ∷ handlers) = names h ++ named handlers

pub contains-append :
    (xs ys : List RawFd) (x : RawFd)
    → contains (xs ++ ys) x ≡ (if contains xs x then true else contains ys x)
contains-append [] ys x = refl
contains-append (z ∷ xs) ys x = ground (arith, contains-append xs ys x)

disjoint-append :
    (xs ys zs : List RawFd)
    → disjoint xs (ys ++ zs) ≡ true
    → (disjoint xs ys ≡ true) × (disjoint xs zs ≡ true)
disjoint-append [] ys zs apart = (refl, refl)
disjoint-append (x ∷ xs) ys zs apart =
    ground (arith, disjoint-append xs ys zs, contains-append ys zs x)

-- The descriptors that the parent has made are all different, and none of them is set up or duplicated.
abbrev pub apart : FdHandlers → Bool
apart [] = true
apart ((_, h) ∷ handlers) =
    separate h
    && disjoint (own h) (named handlers)
    && disjoint (own h) (owned handlers)
    && disjoint (names h) (owned handlers)
    && apart handlers

module _ {W R : Type 0} (calls : Calls W) (d : Descriptors calls R) where
  -- What the handlers are there for, one after the other.
  unfoldable pub rewire : Table R → FdHandlers → Table R → Table R
  rewire made [] t = t
  rewire made ((_, h) ∷ handlers) t = rewire made handlers (rewired calls d made h t)

  pub rewired-agree :
      (made : Table R) (h : FdHandler) (t t' : Table R)
      → ((y : RawFd) → contains (names h) y ≡ true → t y ≡ t' y)
      → (x : RawFd) → t x ≡ t' x
      → rewired calls d made h t x ≡ rewired calls d made h t' x
  unfolding rewired
  rewired-agree made FdHandler.inherit t t' agree x e = e
  rewired-agree made (FdHandler.error _) t t' agree x e = e
  rewired-agree made (FdHandler.close fd) t t' agree x e = ground arith
  rewired-agree made (FdHandler.dup fd dup_fd) t t' agree x e =
      ground (arith, agree dup_fd, same_refl dup_fd)
  rewired-agree made (FdHandler.unmanaged_file fd path oflags mode) t t' agree x e = ground arith
  rewired-agree made (FdHandler.unlinked_file fd file_fd _ _) t t' agree x e = ground arith
  rewired-agree made (FdHandler.capture_memory fd _ write_fd _ _ _) t t' agree x e = ground arith
  rewired-agree made (FdHandler.pipe_write fd _) t t' agree x e = ground arith
  rewired-agree made (FdHandler.pipe_read fd _) t t' agree x e = ground arith

  rewire-unnamed :
      (made : Table R) (handlers : FdHandlers) (t : Table R) (x : RawFd)
      → contains (named handlers) x ≡ false
      → rewire made handlers t x ≡ t x
  unfolding rewire
  rewire-unnamed made [] t x other = refl
  rewire-unnamed made ((fd, h) ∷ handlers) t x other =
      let both = contains-append (names h) (named handlers) x in
      rewire-unnamed made handlers (rewired calls d made h t) x (ground (arith, both))
      ∙ rewired-unnamed calls d made h t x (ground (arith, both))

  -- Tables that agree outside `hidden` still do after handlers that do not name what is hidden.
  rewire-agree :
      (made : Table R) (hidden : List RawFd) (handlers : FdHandlers) (t t' : Table R)
      → disjoint hidden (named handlers) ≡ true
      → ((y : RawFd) → contains hidden y ≡ false → t y ≡ t' y)
      → (x : RawFd) → contains hidden x ≡ false
      → rewire made handlers t x ≡ rewire made handlers t' x
  unfolding rewire
  rewire-agree made hidden [] t t' clear agree x other = agree x other
  rewire-agree made hidden ((fd, h) ∷ handlers) t t' clear agree x other =
      rewire-agree made hidden handlers (rewired calls d made h t) (rewired calls d made h t')
        (disjoint-append hidden (names h) (named handlers) clear).1
        (λ y seen. rewired-agree made h t t' (λ z name. agree z (unhidden z name)) y (agree y seen))
        x other
    where
      unhidden : (z : RawFd) → contains (names h) z ≡ true → contains hidden z ≡ false
      unhidden z name = ground (
        arith,
        disjoint-contains hidden (names h ++ named handlers) z clear,
        contains-append (names h) (named handlers) z,
      )

  pub as_made :
      (made t : Table R) (h : FdHandler)
      → ((y : RawFd) → contains (own h) y ≡ true → t y ≡ made y)
      → AsMade calls d made t h
  as_made made t FdHandler.inherit kept = tt
  as_made made t (FdHandler.error _) kept = tt
  as_made made t (FdHandler.close _) kept = tt
  as_made made t (FdHandler.dup _ _) kept = tt
  as_made made t (FdHandler.unmanaged_file _ _ _ _) kept = tt
  as_made made t (FdHandler.unlinked_file _ file_fd _ _) kept =
      ground (arith, kept file_fd, same_refl file_fd)
  as_made made t (FdHandler.capture_memory _ _ write_fd _ _ _) kept =
      ground (arith, kept write_fd, same_refl write_fd)
  as_made made t (FdHandler.pipe_write _ p) kept = ground (arith, kept p, same_refl p)
  as_made made t (FdHandler.pipe_read _ p) kept = ground (arith, kept p, same_refl p)

  -- A table that is `t` but for what `h` has closed, after the rest of the handlers.
  pub closed-rewire :
      (made : Table R) (hidden : List RawFd) (handlers : FdHandlers) (t t' : Table R)
      → disjoint hidden (named handlers) ≡ true
      → ((y : RawFd) → t' y ≡ (if contains hidden y then none else t y))
      → (x : RawFd)
      → rewire made handlers t' x ≡ (if contains hidden x then none else rewire made handlers t x)
  closed-rewire made hidden handlers t t' clear law x = elim (Bool-cases (contains hidden x)) [
    | inl e ↦
        rewire-unnamed made handlers t' x (disjoint-contains hidden (named handlers) x clear e)
        ∙ law x
        ∙ ground arith
    | inr e ↦
        rewire-agree made hidden handlers t' t clear (λ y other. law y ∙ rw (other) refl) x e
        ∙ rw (e) refl
  ]

  -- What the parent has made for later handlers is still there after an earlier one.
  pub kept_after :
      (made : Table R) (handler : FdHandler) (later : List RawFd) (t t' : Table R)
      → disjoint (own handler) later ≡ true
      → disjoint (names handler) later ≡ true
      → ((y : RawFd) → contains later y ≡ true → t y ≡ made y)
      → ((y : RawFd)
          → t' y ≡ (if contains (own handler) y then none else rewired calls d made handler t y))
      → (y : RawFd) → contains later y ≡ true
      → t' y ≡ made y
  kept_after made handler later t t' own_apart names_apart kept law y later_y =
      law y
      ∙ rw (outside (own handler) own_apart) refl
      ∙ rewired-unnamed calls d made handler t y (outside (names handler) names_apart)
      ∙ kept y later_y
    where
      outside : (xs : List RawFd) → disjoint xs later ≡ true → contains xs y ≡ false
      outside xs clear = ground (arith, disjoint-contains xs later y clear)

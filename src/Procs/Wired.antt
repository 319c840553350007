-- ===== src/Procs/Wired.antt =====
-- The descriptors with which a child of `start_procs` of src/procs.rs calls `execve`, described apart from
-- the system calls that set them up.
use procstar.Prelude.{
  true, String, [], ◌∷◌, none, Result, ok, err, ◌≡◌, refl, ap, ◌∙◌, arith, if◌then◌else◌, contains,
  int_key,
}
use procstar.Message.{IncomingMessage}
use procstar.Spec.{RawFd}
use procstar.Err
use procstar.Fd.Child.{Calls, in_child}
use procstar.Fd.Descriptors.{Table, Descriptors}
use procstar.Fd.Wired.{own, rewired, in_child-rewired}
use procstar.Procs.Rewiring.{
  owned, apart, rewire, contains-append, as_made, closed-rewire, kept_after,
}
use procstar.Procs.Proc.{FdHandlers}
use procstar.Procs.Child.{Written, set_up_fds, or_fd_error}

module _ {W R : Type 0} (calls : Calls W) (debug : IncomingMessage → String)
    (d : Descriptors calls R) where
  -- A handler after which the child may still call `execve` has not failed.
  or_fd_error-ok :
      (fd : RawFd) (r : Result Err.Error (Unit {0})) (s : Written)
      → (or_fd_error calls debug fd r s).ok_to_exec ≡ true
      → (r ≡ ok tt) × (s.ok_to_exec ≡ true)
  or_fd_error-ok fd (ok _) s h = (refl, h)
  or_fd_error-ok fd (err e) s h = cc

  set_up_fds-ok :
      (handlers : FdHandlers) (s : Written) (w : W)
      → (set_up_fds calls debug handlers s w).0.ok_to_exec ≡ true
      → s.ok_to_exec ≡ true
  unfolding set_up_fds
  set_up_fds-ok [] s w h = h
  set_up_fds-ok ((fd, handler) ∷ handlers) s w h =
      (or_fd_error-ok fd (in_child calls handler w).0 s
        (set_up_fds-ok handlers _ (in_child calls handler w).1 h)).1

  set_up_fds-rewire_from :
      (made : Table R) (handlers : FdHandlers) (s : Written) (w : W)
      → apart handlers ≡ true
      → ((y : RawFd) → contains (owned handlers) y ≡ true → d.at w y ≡ made y)
      → (set_up_fds calls debug handlers s w).0.ok_to_exec ≡ true
      → (x : RawFd)
      → d.at (set_up_fds calls debug handlers s w).1 x
        ≡ (if contains (owned handlers) x then none else rewire calls d made handlers (d.at w) x)
  unfolding set_up_fds rewire
  set_up_fds-rewire_from made [] s w clear kept h x = refl
  set_up_fds-rewire_from made ((fd, handler) ∷ handlers) s w clear kept h x =
      let result = (in_child calls handler w).0 in
      let w' = (in_child calls handler w).1 in
      let s' = or_fd_error calls debug fd result s in
      let all = contains-append (own handler) (owned handlers) in
      let stepped =
        in_child-rewired calls d made handler w (ground arith)
          (as_made calls d made (d.at w) handler (λ y e. kept y (all y ∙ rw (e) refl)))
          (or_fd_error-ok fd result s (set_up_fds-ok handlers s' w' h)).0 in
      let later =
        kept_after calls d made handler (owned handlers) (d.at w) (d.at w') (ground arith)
          (ground arith) (λ y e. kept y (ground (arith, all y))) stepped in
      set_up_fds-rewire_from made handlers s' w' (ground arith) later h x
      ∙ ap (λ r. if contains (owned handlers) x then none else r)
          (closed-rewire calls d made (own handler) handlers (rewired calls d made handler (d.at w))
            (d.at w') (ground arith) stepped x)
      ∙ ground (arith, all x)

  -- Where the descriptors that the parent has made are all different, and no handler sets one of them up
  -- or duplicates it: if the child may still call `execve` after all its handlers, those descriptors are
  -- closed, and every other one refers to what the handlers are there for, in their order, or else to
  -- what it referred to before.
  pub set_up_fds-rewire :
      (handlers : FdHandlers) (s : Written) (w : W)
      → apart handlers ≡ true
      → (set_up_fds calls debug handlers s w).0.ok_to_exec ≡ true
      → (x : RawFd)
      → d.at (set_up_fds calls debug handlers s w).1 x ≡ (
          if contains (owned handlers) x then none else rewire calls d (d.at w) handlers (d.at w) x)
  set_up_fds-rewire handlers s w clear h x =
      set_up_fds-rewire_from (d.at w) handlers s w clear (λ y e. refl) h x

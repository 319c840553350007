-- ===== src/Tests/Rewiring.antt =====
-- A table of descriptors with its system calls, and the descriptors of a child that has set up a file,
-- a pipe, a duplicate of it and a capture.
use procstar.Prelude.{
  ◌≡◌, refl, List, [], ◌∷◌, String, true, Option, none, some, ℤ, pos, Result, ok, err, BTreeMap,
  get, insert, remove, get-insert, get-remove, int_key, arith, subst,
}
use procstar.Io.{IoError}
use procstar.Sys.Files.{bad_descriptor}
use procstar.Fd.{FdHandler}
use procstar.Fd.Child.{Calls, in_child}
use procstar.Fd.Descriptors.{Descriptors, put}
use procstar.Fd.Wired.{rewired}
use procstar.Procs.Proc.{FdHandlers}
use procstar.Procs.Child.{Written, set_up_fds}
use procstar.Procs.Rewiring.{rewire}
use procstar.Procs.Wired.{set_up_fds-rewire}
use procstar.Tests.Data.{debug}

abbrev Fds : Type 0
Fds = BTreeMap ℤ String

abbrev free : List ℤ → Fds → Option ℤ
free [] w = none
free (c ∷ cs) w = let rest = free cs w in elim (get c w) [ none ↦ some c | some _ ↦ rest ]

abbrev open_at : Option ℤ → String → Fds → Result IoError ℤ × Fds
open_at none path w = (err bad_descriptor, w)
open_at (some fd) path w = (ok fd, insert fd path w)

abbrev dup_at : Option String → ℤ → Fds → Result IoError (Unit {0}) × Fds
dup_at none to w = (err bad_descriptor, w)
dup_at (some r) to w = (ok tt, insert to r w)

abbrev close_result : Option String → Result IoError (Unit {0})
close_result none = err bad_descriptor
close_result (some _) = ok tt

abbrev candidates : List ℤ
candidates = pos 3 ∷ pos 4 ∷ pos 5 ∷ pos 6 ∷ []

abbrev calls : Calls Fds
calls = record {
  close = λ fd w. (close_result (get fd w), remove fd w);
  dup2 = λ from to w. dup_at (get from w) to w;
  open_file = λ path oflags mode w. open_at (free candidates w) path w;
}

free_lem : (cs : List ℤ) (w : Fds) (fd : ℤ) → free cs w ≡ some fd → get fd w ≡ none
free_lem [] w fd h = cc
free_lem (c ∷ cs) w fd h = ground (arith, free_lem cs w fd)

dup_at_lem :
    (r : Option String) (to x : ℤ) (w : Fds)
    → (dup_at r to w).0 ≡ ok tt
    → get x (dup_at r to w).1 ≡ put to r (λ y. get y w) x
dup_at_lem none to x w h = cc
dup_at_lem (some r) to x w h = get-insert to x r w

open_at_lem :
    (found : Option ℤ) (path : String) (fd x : ℤ) (w : Fds)
    → ((y : ℤ) → found ≡ some y → get y w ≡ none)
    → (open_at found path w).0 ≡ ok fd
    → (get fd w ≡ none) × (get x (open_at found path w).1 ≡ put fd (some path) (λ y. get y w) x)
open_at_lem none path fd x w law h = cc
open_at_lem (some y) path fd x w law h =
    let same_fd : y ≡ fd = cc in
    subst (λ z. (get z w ≡ none) × (get x (insert y path w) ≡ put z (some path) (λ v. get v w) x))
      same_fd (law y refl, get-insert y x path w)

abbrev descriptors : Descriptors calls String
descriptors = record {
  at = λ w fd. get fd w;
  opened = λ path oflags mode. path;
  close_at = λ fd x w. get-remove fd x w;
  dup2_at = λ from to x w h. dup_at_lem (get from w) to x w h;
  open_at = λ path oflags mode fd x w h.
      open_at_lem (free candidates w) path fd x w (free_lem candidates w) h;
}

abbrev at_fork : Fds
at_fork =
    (pos 0, "terminal")
    ∷ (pos 1, "terminal")
    ∷ (pos 2, "terminal")
    ∷ (pos 7, "pipe")
    ∷ (pos 8, "temporary file")
    ∷ []

abbrev handlers : FdHandlers
handlers =
    (pos 0, FdHandler.unmanaged_file (pos 0) "/dev/null" (pos 0) (pos 0))
    ∷ (pos 1, FdHandler.pipe_write (pos 1) (pos 7))
    ∷ (pos 2, FdHandler.dup (pos 2) (pos 1))
    ∷ (pos 5, FdHandler.unlinked_file (pos 5) (pos 8) none true)
    ∷ []

abbrev start : Written
start = record { errors = []; ok_to_exec = true }

-- The standard error goes where the standard output goes, and the pipe's own descriptor is closed.
rewired_fds :
    (set_up_fds calls debug handlers start at_fork).1
    ≡ ((pos 0, "/dev/null") ∷ (pos 1, "pipe") ∷ (pos 2, "pipe") ∷ (pos 5, "temporary file") ∷ [])
unfolding set_up_fds get insert remove
rewired_fds = refl

-- A pipe's end that happens to have the number of the descriptor to set up is closed with it.
same_number : (in_child calls (FdHandler.pipe_write (pos 7) (pos 7)) at_fork).1 ≡ (
    (pos 0, "terminal")
    ∷ (pos 1, "terminal")
    ∷ (pos 2, "terminal")
    ∷ (pos 8, "temporary file")
    ∷ [])
unfolding in_child get insert remove
same_number = refl

set_up_fds-rewire_example :
    get (pos 2) (set_up_fds calls debug handlers start at_fork).1 ≡ some "pipe"
unfolding set_up_fds get insert remove rewire rewired
set_up_fds-rewire_example =
    set_up_fds-rewire calls debug descriptors handlers start at_fork refl refl (pos 2)

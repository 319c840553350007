-- ===== src/Fd/Wired.antt =====
-- The descriptors of the child after `in_child` of src/fd.rs, as src/procs.rs calls it for every handler
-- of a process: what each descriptor refers to, described apart from the system calls.
use procstar.Prelude.{
  Bool, true, false, not, ◌&&◌, List, [], ◌∷◌, none, some, ok, ◌≡◌, refl, ap, ◌∙◌, arith,
  if◌then◌else◌, same, same→eq, same_sym, contains, int_key, Bool-cases, inl, inr,
}
use procstar.Spec.{RawFd}
use procstar.Fd.{FdHandler}
use procstar.Fd.Descriptors.{
  Table, put, Descriptors, close_wired, dup2_wired, move_wired, opened_wired, captured, not_target,
}
use procstar.Fd.Child.{Calls, then_call, finish, set_up, in_child, drop}

-- The descriptors that the parent has made for the child to use and close.
abbrev pub own : FdHandler → List RawFd
own (FdHandler.unlinked_file _ file_fd _ _) = file_fd ∷ []
own (FdHandler.capture_memory _ read_fd write_fd _ _ _) = read_fd ∷ write_fd ∷ []
own (FdHandler.pipe_write _ pipe_write_fd) = pipe_write_fd ∷ []
own (FdHandler.pipe_read _ pipe_read_fd) = pipe_read_fd ∷ []
own _ = []

-- None of them is the descriptor to set up.
abbrev pub separate : FdHandler → Bool
separate (FdHandler.unlinked_file fd file_fd _ _) = not (same file_fd fd)
separate (FdHandler.capture_memory fd read_fd write_fd _ _ _) =
    not (same read_fd write_fd) && not (same read_fd fd) && not (same write_fd fd)
separate (FdHandler.pipe_write fd pipe_write_fd) = not (same pipe_write_fd fd)
separate (FdHandler.pipe_read fd pipe_read_fd) = not (same pipe_read_fd fd)
separate _ = true

-- The descriptors that a handler sets up or duplicates.
abbrev pub names : FdHandler → List RawFd
names (FdHandler.close fd) = fd ∷ []
names (FdHandler.dup fd dup_fd) = fd ∷ dup_fd ∷ []
names (FdHandler.unmanaged_file fd _ _ _) = fd ∷ []
names (FdHandler.unlinked_file fd _ _ _) = fd ∷ []
names (FdHandler.capture_memory fd _ _ _ _ _) = fd ∷ []
names (FdHandler.pipe_write fd _) = fd ∷ []
names (FdHandler.pipe_read fd _) = fd ∷ []
names _ = []

module _ {W R : Type 0} (calls : Calls W) (d : Descriptors calls R) where
  -- What a handler is there for: its descriptor refers to nothing, to what another descriptor refers to
  -- by then, to a file, or to what the parent has made.
  unfoldable pub rewired : Table R → FdHandler → Table R → Table R
  rewired made (FdHandler.close fd) t = put fd none t
  rewired made (FdHandler.dup fd dup_fd) t = put fd (t dup_fd) t
  rewired made (FdHandler.unmanaged_file fd path oflags mode) t =
      put fd (some (d.opened path oflags mode)) t
  rewired made (FdHandler.unlinked_file fd file_fd _ _) t = put fd (made file_fd) t
  rewired made (FdHandler.capture_memory fd _ write_fd _ _ _) t = put fd (made write_fd) t
  rewired made (FdHandler.pipe_write fd pipe_write_fd) t = put fd (made pipe_write_fd) t
  rewired made (FdHandler.pipe_read fd pipe_read_fd) t = put fd (made pipe_read_fd) t
  rewired made _ t = t

  -- What a handler passes on is still what the parent has made.
  abbrev pub AsMade : Table R → Table R → FdHandler → Type 0
  AsMade made t (FdHandler.unlinked_file _ file_fd _ _) = t file_fd ≡ made file_fd
  AsMade made t (FdHandler.capture_memory _ _ write_fd _ _ _) = t write_fd ≡ made write_fd
  AsMade made t (FdHandler.pipe_write _ pipe_write_fd) = t pipe_write_fd ≡ made pipe_write_fd
  AsMade made t (FdHandler.pipe_read _ pipe_read_fd) = t pipe_read_fd ≡ made pipe_read_fd
  AsMade made t _ = Unit

  -- The step of one handler, which also closes what the parent has made for it.
  pub in_child-rewired :
      (made : Table R) (handler : FdHandler) (w : W)
      → separate handler ≡ true
      → AsMade made (d.at w) handler
      → (in_child calls handler w).0 ≡ ok tt
      → (x : RawFd)
      → d.at (in_child calls handler w).1 x
        ≡ (if contains (own handler) x then none else rewired made handler (d.at w) x)
  unfolding in_child set_up drop rewired
  in_child-rewired made FdHandler.inherit w apart given h x = refl
  in_child-rewired made (FdHandler.error e) w apart given h x = cc
  in_child-rewired made (FdHandler.close fd) w apart given h x = close_wired calls d fd x w
  in_child-rewired made (FdHandler.dup fd dup_fd) w apart given h x =
      elim (Bool-cases (same dup_fd fd)) [
        | inl e ↦ ground (arith, same→eq dup_fd fd e, same→eq fd x)
        | inr e ↦ ground (arith, dup2_wired calls d dup_fd fd x w)
      ]
  in_child-rewired made (FdHandler.unmanaged_file fd path oflags mode) w apart given h x =
      opened_wired calls d fd (d.opened path oflags mode) (d.at w)
        (calls.open_file path oflags mode w) (λ file_fd y. d.open_at path oflags mode file_fd y w) h
        x
  in_child-rewired made (FdHandler.unlinked_file fd file_fd encoding attached) w apart given h x =
      let differs = not_target calls d file_fd fd apart in
      let moved = rw (differs) at h in
      rw (differs) (
        d.close_at file_fd x (then_call calls (calls.dup2 file_fd fd w) (finish calls)).1
        ∙ ground (arith, dup2_wired calls d file_fd fd x w moved, given, same_sym x file_fd))
  in_child-rewired made (FdHandler.capture_memory fd read_fd write_fd encoding buf attached) w apart
        given h x =
      captured calls d fd read_fd write_fd (d.at w) (calls.close read_fd w)
        (λ y. d.close_at read_fd y w) apart h x
      ∙ ap (λ r. if contains (read_fd ∷ write_fd ∷ []) x then none else put fd r (d.at w) x) given
  in_child-rewired made (FdHandler.pipe_write fd pipe_write_fd) w apart given h x =
      ground (arith, move_wired calls d pipe_write_fd fd w h x, same_sym x pipe_write_fd)
  in_child-rewired made (FdHandler.pipe_read fd pipe_read_fd) w apart given h x =
      ground (arith, move_wired calls d pipe_read_fd fd w h x, same_sym x pipe_read_fd)

  -- A descriptor that is not named keeps what it refers to.
  pub rewired-unnamed :
      (made : Table R) (handler : FdHandler) (t : Table R) (x : RawFd)
      → contains (names handler) x ≡ false
      → rewired made handler t x ≡ t x
  unfolding rewired
  rewired-unnamed made FdHandler.inherit t x other = refl
  rewired-unnamed made (FdHandler.error e) t x other = refl
  rewired-unnamed made (FdHandler.close fd) t x other = ground (arith, same_sym fd x)
  rewired-unnamed made (FdHandler.dup fd dup_fd) t x other = ground (arith, same_sym fd x)
  rewired-unnamed made (FdHandler.unmanaged_file fd path oflags mode) t x other =
      ground (arith, same_sym fd x)
  rewired-unnamed made (FdHandler.unlinked_file fd file_fd _ _) t x other =
      ground (arith, same_sym fd x)
  rewired-unnamed made (FdHandler.capture_memory fd _ write_fd _ _ _) t x other =
      ground (arith, same_sym fd x)
  rewired-unnamed made (FdHandler.pipe_write fd _) t x other = ground (arith, same_sym fd x)
  rewired-unnamed made (FdHandler.pipe_read fd _) t x other = ground (arith, same_sym fd x)

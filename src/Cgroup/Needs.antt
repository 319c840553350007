-- ===== src/Cgroup/Needs.antt =====
-- Which accounting files of a cgroup must be there.
use procstar.Prelude.{
  ◌≡◌, refl, ◌∙◌, Bool, true, false, not, ◌&&◌, ◌||◌, String, List, Result, ok, err, and_then,
  contains, string_key, Result-cases, inl, inr,
}
use procstar.Io.{IoError}
use procstar.Cgroup.Files.{
  Error, join_path, load_scalar, load_pids, load_memory, load_cpu_stat, enabled_controllers,
  if_enabled, load_accounting,
}

abbrev pub is_ok : {A : Type 0} → Result Error A → Bool
is_ok (ok a) = true
is_ok (err e) = false

is_ok-and_then :
    {A B : Type 0} (r : Result Error A) (f : A → Result Error B) (b : Bool)
    → ((a : A) → is_ok (f a) ≡ b)
    → is_ok (and_then r f) ≡ (is_ok r && b)
is_ok-and_then (ok a) f b h = h a
is_ok-and_then (err e) f b h = refl

is_ok-last :
    {A B : Type 0} (r : Result Error A) (f : A → Result Error B)
    → ((a : A) → is_ok (f a) ≡ true)
    → is_ok (and_then r f) ≡ is_ok r
is_ok-last (ok a) f h = h a
is_ok-last (err e) f h = refl

module _ (read_to_string : String → Result IoError String) where
  -- Whether a file with one number can be read.
  abbrev pub has : String → String → Bool
  has cgroup_path name = is_ok (load_scalar read_to_string (join_path cgroup_path name))

  -- The four numbers of the memory controller.
  abbrev pub has_memory : String → Bool
  has_memory path =
      has path "memory.current"
      && (has path "memory.peak" && (has path "memory.swap.current" && has path "memory.swap.peak"))

  load_pids-has :
      (path : String)
      → is_ok (load_pids read_to_string path) ≡ (has path "pids.current" && has path "pids.peak")
  unfolding load_pids
  load_pids-has path =
      is_ok-and_then (load_scalar read_to_string (join_path path "pids.current")) _
        (has path "pids.peak")
        λ current.
          is_ok-last (load_scalar read_to_string (join_path path "pids.peak")) _ λ peak. refl

  load_memory-has : (path : String) → is_ok (load_memory read_to_string path) ≡ has_memory path
  unfolding load_memory
  load_memory-has path =
      is_ok-and_then (load_scalar read_to_string (join_path path "memory.current")) _ _ λ current.
        is_ok-and_then (load_scalar read_to_string (join_path path "memory.peak")) _ _ λ peak.
          is_ok-and_then (load_scalar read_to_string (join_path path "memory.swap.current")) _ _
            λ swap_current.
              is_ok-last (load_scalar read_to_string (join_path path "memory.swap.peak")) _
                λ swap_peak. refl

  if_enabled-is_ok :
      {A : Type 0} (enabled : Bool) (loaded : Result Error A)
      → is_ok (if_enabled read_to_string enabled loaded) ≡ (not enabled || is_ok loaded)
  if_enabled-is_ok true (ok a) = refl
  if_enabled-is_ok true (err e) = refl
  if_enabled-is_ok false loaded = refl

  -- What must be there, by the enabled controllers.
  abbrev pub needed : String → Result Error (List String) → Bool
  needed path (err e) = false
  needed path (ok controllers) =
      (not (contains controllers "pids") || (has path "pids.current" && has path "pids.peak"))
      && ((not (contains controllers "memory") || has_memory path)
          && is_ok (load_cpu_stat read_to_string path))

  enabled_needs :
      (path : String) (controllers : List String)
      → (is_ok (
            if_enabled read_to_string (contains controllers "pids") (load_pids read_to_string path))
          && (is_ok (
                if_enabled read_to_string
                  (contains controllers "memory")
                  (load_memory read_to_string path))
              && is_ok (load_cpu_stat read_to_string path)))
        ≡ needed path (ok controllers)
  enabled_needs path controllers =
      rw
        (
          if_enabled-is_ok (contains controllers "pids") (load_pids read_to_string path),
          if_enabled-is_ok (contains controllers "memory") (load_memory read_to_string path),
          load_pids-has path,
          load_memory-has path,
        )
        refl

  -- The accounting of a cgroup is read exactly if its controllers can be read, and cpu.stat, and where the
  -- controller is enabled the two numbers of processes and the four of memory; the memory events and
  -- the memory limit never decide it.
  pub load_accounting-needed :
      (path : String)
      → is_ok (load_accounting read_to_string path)
        ≡ needed path (enabled_controllers read_to_string path)
  unfolding load_accounting
  load_accounting-needed path = elim (Result-cases (enabled_controllers read_to_string path)) [
    | inr (e, missing) ↦ rw (missing) refl
    | inl (controllers, found) ↦ rw (found) (
        is_ok-and_then
          (if_enabled read_to_string (contains controllers "pids") (load_pids read_to_string path))
          _ _
          (λ pids.
            is_ok-and_then
              (if_enabled read_to_string (contains controllers "memory")
                (load_memory read_to_string path))
              _ _ λ memory. is_ok-last (load_cpu_stat read_to_string path) _ λ cpu_stat. refl)
        ∙ enabled_needs path controllers)
  ]

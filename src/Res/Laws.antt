-- ===== src/Res/Laws.antt =====
-- The exit status of a process (src/res.rs).
use procstar.Prelude.{◌≡◌, ◌↔◌, arith, false, none, ℤ, panicked}
use procstar.Sig.{get_abbrev}
use procstar.Res.{WaitMacros, new_status}

-- `Status::new` panics exactly where a signal that has no name, such as a real-time signal, ended the
-- process.
new_status-panicked_iff :
    (m : WaitMacros) (status : ℤ)
    → (new_status m status ≡ panicked)
      ↔ ((m.wifexited status ≡ false) × (get_abbrev (m.wtermsig status) ≡ none))
unfolding new_status
new_status-panicked_iff m status = (λ e. ground arith, λ h. ground arith)

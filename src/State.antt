-- ===== src/State.antt =====
-- src/state.rs: the state of a process.
use procstar.Prelude.{Bool, true, false}

pub data State : Type 0 where
  error running terminated : State

abbrev pub is_running : State → Bool
is_running State.running = true
is_running _ = false

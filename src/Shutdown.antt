-- ===== src/Shutdown.antt =====
-- src/shutdown.rs: the shutdown states.
pub mod Signals
pub mod Ended
use procstar.Prelude.{String, Bool, true, false}

pub data State : Type 0 where
  active idling done : State

unfoldable pub display_state : State → String
display_state State.active = "active"
display_state State.idling = "idling"
display_state State.done = "done"

abbrev pub is_active : State → Bool
is_active State.active = true
is_active _ = false

abbrev pub is_idling : State → Bool
is_idling State.idling = true
is_idling _ = false

abbrev pub is_done : State → Bool
is_done State.done = true
is_done _ = false

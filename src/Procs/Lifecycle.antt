-- ===== src/Procs/Lifecycle.antt =====
-- The notifications of src/procs.rs as the steps of an abstract agent, which has the set of its
-- processes' ids and its shutdown state, and nothing of the heap, the order of the table or the
-- subscribers.
use procstar.Prelude.{◌≡◌, Bool, true, false, List, [], ◌∷◌, get, string_key, same, if◌then◌else◌}
use procstar.Shutdown
use procstar.Shutdown.{is_idling}
use procstar.Spec.{ProcId}
use procstar.Procs.Table.{Notification, Procs}
use procstar.Procs.Changes.{is_some}

-- The abstract agent.
pub record View : Type 0 where
  pub present : ProcId → Bool
  pub state : Shutdown.State

abbrev pub with_id : ProcId → Bool → (ProcId → Bool) → ProcId → Bool
with_id id b present other = if same id other then b else present other

-- What each notification does to it. A process is deleted only where it is present.
pub data Step (v : View) : Notification → View → Type 0 where
  start :
      (id : ProcId)
      → Step v (Notification.start id) (record v { present = with_id id true v.present })
  not_running : (id : ProcId) → Step v (Notification.not_running id) v
  delete :
      (id : ProcId)
      → v.present id ≡ true
      → Step v (Notification.delete id) (record v { present = with_id id false v.present })
  shut_down :
      (state : Shutdown.State) → Step v (Notification.shut_down state) (record v { state = state })

-- A log, the latest first, that the abstract agent accepts.
pub data Trace (v : View) : List Notification → View → Type 0 where
  nothing : Trace v [] v
  step :
      {log : List Notification} {u t : View} {noti : Notification}
      → Trace v log u
      → Step u noti t
      → Trace v (noti ∷ log) t

-- What of an agent the abstract one has.
abbrev pub view : Procs → View
view w = record { present = λ id. is_some (get id w.procs); state = w.shutdown }

abbrev pub new_view : View
new_view = record { present = λ id. false; state = Shutdown.State.active }

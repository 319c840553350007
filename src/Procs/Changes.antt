-- ===== src/Procs/Changes.antt =====
-- The notifications of src/procs.rs as a log of changes to the table: a subscriber that follows `Start`
-- and `Delete` knows the table's process ids at any time.
use procstar.Prelude.{
  ◌<◌, ◌≡◌, Bool, true, false, List, [], ◌∷◌, Option, none, some, get, string_key, same,
  if◌then◌else◌, ◌&&◌,
}
use procstar.Prelude.Sorted.{IsSorted}
use procstar.Shutdown
use procstar.Shutdown.{is_idling}
use procstar.Spec.{ProcId}
use procstar.Procs.Proc.{Proc}
use procstar.Procs.Table.{
  SharedProc, Notification, Procs, update, alloc, notify, insert_proc, is_empty, set_shutdown,
  remove_if_not_running, pop, clear,
}

-- Whether a process is in the table, for one who has only the notifications.
abbrev pub live : ProcId → List Notification → Bool
live id [] = false
live id (Notification.start j ∷ log) = if same j id then true else live id log
live id (Notification.delete j ∷ log) = if same j id then false else live id log
live id (Notification.not_running j ∷ log) = live id log
live id (Notification.shut_down s ∷ log) = live id log

abbrev pub is_some : {A : Type 0} → Option A → Bool
is_some none = false
is_some (some _) = true

-- The table is in the order of its keys, and an idling agent whose table is empty is done.
pub record IsConsistent (w : Procs) : Type 0 where
  pub sorted : IsSorted w.procs
  pub settled : (is_empty w && is_idling w.shutdown) ≡ false

-- A subscriber that follows the log knows the table.
abbrev pub Tracks : Procs → Type 0
Tracks w = (id : ProcId) → live id w.sent ≡ is_some (get id w.procs)

-- The changes that the agent and its tasks make to the shared state.
pub data Op : Type 0 where
  starts : ProcId → Proc → Op
  deletes : ProcId → Op
  pops : Op
  clears : Op
  shuts : Shutdown.State → Op
  ends : ProcId → Op
  changes : SharedProc → Proc → Op

unfoldable pub apply : Op → Procs → Procs
apply (starts id proc) w = let (r, w') = alloc proc w in insert_proc id r w'
apply (deletes id) w = (remove_if_not_running id w).1
apply pops w = (pop w).1
apply clears w = clear w
apply (shuts state) w = set_shutdown state w
apply (ends id) w = notify (Notification.not_running id) w
apply (changes r proc) w = record w { heap = update w.heap r proc }

unfoldable pub run : List Op → Procs → Procs
unfolding apply
run [] w = w
run (op ∷ ops) w = run ops (apply op w)

-- What one change must keep, for a table with a subscriber.
pub record Follows (w : Procs) : Type 0 where
  pub consistent : IsConsistent w
  pub listened : 0 < w.receivers
  pub tracks : Tracks w

-- ===== src/Procs/Idling.antt =====
-- `check_idling` of src/procs.rs: that its rounds come to an end, and what they leave as it was.
use procstar.Prelude.{
  ℕ, suc, ◌<◌, ◌≡◌, ap, ◌∙◌, sym, subst, arith, false, ◌∷◌, some, get, string_key, ◌&&◌,
}
use procstar.Prelude.Sorted.{IsSorted}
use procstar.Shutdown.{is_idling}
use procstar.Spec.{ProcId}
use procstar.Procs.Table.{Notification, Procs, notify, is_empty, check_idling_from, check_idling}
use procstar.Procs.Changes.{live, is_some, Tracks, Follows}

-- With two rounds of fuel or more, the two functions that call each other return.
check_idling_from-some :
    (fuel : ℕ) (w : Procs) → check_idling_from (suc (suc fuel)) w ≡ some (check_idling w)
unfolding check_idling notify
check_idling_from-some fuel w = ground arith

pub check_idling-procs : (w : Procs) → (check_idling w).procs ≡ w.procs
unfolding check_idling notify
check_idling-procs w = ground arith

pub check_idling-receivers : (w : Procs) → (check_idling w).receivers ≡ w.receivers
unfolding check_idling notify
check_idling-receivers w = ground arith

pub check_idling-live : (w : Procs) (id : ProcId) → live id (check_idling w).sent ≡ live id w.sent
unfolding check_idling notify
check_idling-live w id = ground arith

-- The state in which no more is to be done about shutting down.
pub check_idling-settled :
    (w : Procs) → (is_empty (check_idling w) && is_idling (check_idling w).shutdown) ≡ false
unfolding check_idling notify is_empty
check_idling-settled w = ground arith

pub check_idling-Follows :
    (w : Procs) → IsSorted w.procs → 0 < w.receivers → Tracks w → Follows (check_idling w)
check_idling-Follows w sorted listened tracks = record {
  consistent = record {
    sorted = subst IsSorted (sym (check_idling-procs w)) sorted;
    settled = check_idling-settled w;
  };
  listened = omega (arith, check_idling-receivers w);
  tracks = λ id.
      check_idling-live w id
      ∙ tracks id
      ∙ ap (λ m. is_some (get id m)) (sym (check_idling-procs w));
}

pub notify_listened :
    (noti : Notification) (w : Procs)
    → 0 < w.receivers
    → notify noti w ≡ record w { sent = noti ∷ w.sent }
unfolding notify
notify_listened noti w h = ground arith

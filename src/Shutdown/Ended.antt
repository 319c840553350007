-- ===== src/Shutdown/Ended.antt =====
-- How a signal leaves an agent.
use procstar.Prelude.{
  ℤ, ◌≡◌, refl, ap, ◌∙◌, sym, arith, Bool, true, false, List, [], ◌++◌, append-nil, Exec, done,
  panicked, if◌then◌else◌, ◌&&◌, bind_exec,
}
use procstar.Shutdown.{State, is_idling}
use procstar.Sig.{Signum, sigterm, sigkill}
use procstar.Procs.Table.{
  Procs, set_shutdown, get_shutdown, is_empty, announce, check_idling, notify,
}
use procstar.Procs.Waiting.{Waiting, Event, wait_running, wait_idle}
use procstar.Shutdown.Signals.{
  SignalStyle, Handled, kill_all, timeout, finish, kill_late, on_signal,
}

pub set_shutdown-state :
    (state : State) (w : Procs)
    → get_shutdown (set_shutdown state w)
      ≡ (if is_empty w && is_idling state then State.done else state)
unfolding set_shutdown announce check_idling get_shutdown is_empty
set_shutdown-state state w = ground arith

pub set_shutdown-procs : (state : State) (w : Procs) → (set_shutdown state w).procs ≡ w.procs
unfolding set_shutdown announce check_idling notify
set_shutdown-procs state w = ground arith

-- What each style leads to, in the cases of its timeouts.
pub data Ended (running idle : List Event) (w : Procs) : SignalStyle → Handled → Type 0 where
  waits_for_idle :
      (out : Handled)
      → get_shutdown out.procs ≡ (if is_empty w then State.done else State.idling)
      → out.procs.procs ≡ w.procs
      → out.kills ≡ []
      → Ended running idle w SignalStyle.shutdown_on_idle out
  terminated :
      (out : Handled) (w' : Procs)
      → timeout (wait_running running w) ≡ done (false, w')
      → get_shutdown out.procs ≡ State.done
      → out.kills ≡ kill_all sigterm w
      → Ended running idle w SignalStyle.term_then_kill out
  killed_late :
      (out : Handled) (w' : Procs)
      → timeout (wait_running running w) ≡ done (true, w')
      → get_shutdown out.procs ≡ State.done
      → out.kills ≡ kill_all sigterm w ++ kill_all sigkill w'
      → Ended running idle w SignalStyle.term_then_kill out
  killed :
      (out : Handled)
      → get_shutdown out.procs ≡ State.done
      → out.kills ≡ kill_all sigkill w
      → Ended running idle w SignalStyle.kill out

done_inj : {A : Type 0} {a b : A} → done a ≡ done b → a ≡ b
done_inj h = cc

bind_exec-done :
    {A B : Type 0} (m : Exec A) (f : A → Exec B) (b : B)
    → bind_exec m f ≡ done b
    → (a : A) × (m ≡ done a) × (f a ≡ done b)
bind_exec-done (done a) f b h = (a, refl, h)
bind_exec-done panicked f b h = cc

finish-done :
    (kills : List (ℤ × Signum)) (s : Waiting) (out : Handled)
    → finish kills s ≡ done out
    → (get_shutdown out.procs ≡ State.done) × (out.kills ≡ kills)
finish-done kills s out h =
    let ((late, w), _, h1) = bind_exec-done (timeout s) _ out h in
    (
      ap (λ r. get_shutdown r.procs) (sym (done_inj h1))
          ∙ set_shutdown-state State.done w
          ∙ ground arith,
      ap (λ r. r.kills) (sym (done_inj h1)),
    )

-- Whether SIGKILL followed.
by_time :
    {running idle : List Event} {w : Procs} (out : Handled) (late : Bool) (w' : Procs)
    → timeout (wait_running running w) ≡ done (late, w')
    → get_shutdown out.procs ≡ State.done
    → out.kills ≡ kill_all sigterm w ++ kill_late late w'
    → Ended running idle w SignalStyle.term_then_kill out
by_time {w = w} out false w' e state kills =
    Ended.terminated out w' e state (kills ∙ append-nil (kill_all sigterm w))
by_time out true w' e state kills = Ended.killed_late out w' e state kills

-- A signal of one style or another: if its handler ends, then it has set the agent idling, or done where
-- no process is left, and has signalled nothing; or it has sent SIGTERM to every running process and,
-- exactly if these have not all ended in time, SIGKILL to those that run then, and the agent is done; or
-- it has sent SIGKILL to every running process, and the agent is done.
pub on_signal-Ended :
    (style : SignalStyle) (running idle : List Event) (w : Procs) (out : Handled)
    → on_signal style running idle w ≡ done out
    → Ended running idle w style out
unfolding on_signal
on_signal-Ended SignalStyle.shutdown_on_idle running idle w out h =
    Ended.waits_for_idle out
      (ap (λ r. get_shutdown r.procs) (sym (done_inj h))
        ∙ set_shutdown-state State.idling w
        ∙ ground arith)
      (ap (λ r. r.procs.procs) (sym (done_inj h)) ∙ set_shutdown-procs State.idling w)
      (ap (λ r. r.kills) (sym (done_inj h)))
on_signal-Ended SignalStyle.term_then_kill running idle w out h =
    let ((late, w'), e, h1) = bind_exec-done (timeout (wait_running running w)) _ out h in
    let (state, kills) =
      finish-done (kill_all sigterm w ++ kill_late late w') (wait_idle idle w') out h1 in
    by_time out late w' e state kills
on_signal-Ended SignalStyle.kill running idle w out h =
    let (state, kills) = finish-done (kill_all sigkill w) (wait_idle idle w) out h in
    Ended.killed out state kills

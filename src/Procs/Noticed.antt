-- ===== src/Procs/Noticed.antt =====
-- The end of a process is noticed: no SIGCHLD is lost between the kernel, the watcher and the task.
use procstar.Prelude.{
  ◌≡◌, ◌≢◌, ◌⊎◌, inl, inr, refl, ◌∙◌, Bool, true, false, List, [], ◌∷◌, Option, none, some, Exec,
  done, Bool-cases, err, subst, if◌then◌else◌, arith,
}
use procstar.State
use procstar.Sig.{Signum}
use procstar.Err
use procstar.Sig.Watch.{Channels, watch, signal}
use procstar.Procs.Proc.{Proc, WaitInfo, Kill, get_state, send_signal}
use procstar.Procs.Running.{
  Wake, LeavesAlone, reap, recorded, finish, wait_for_proc, ended-not_running,
}
use procstar.Procs.Sigchld.{Event, Reaper, is_ended, step, steps, woken, pass}

-- A process whose end is known: it is not running, and gets no signals.
pub record IsReaped (info : WaitInfo) (outcome : Exec Proc) : Type 0 where
  pub after : Proc
  pub recorded_as : outcome ≡ done after
  pub waited : after.wait_info ≡ some info
  pub not_running : get_state after ≢ State.State.running
  pub no_signals :
      (kill : Kill) (signum : Signum) → send_signal kill after signum ≡ err Err.Error.no_proc

pub wake-IsReaped :
    (between : Proc → Proc) (wake : Wake) (info : WaitInfo) (proc : Proc)
    → LeavesAlone between
    → proc.wait_info ≡ none
    → wake.waited ≡ some info
    → IsReaped info (wait_for_proc between (wake ∷ []) proc)
unfolding wait_for_proc reap finish get_state send_signal
wake-IsReaped between wake info proc alone fresh found =
    let p : Proc = between (reap proc) in
    let unset : p.wait_info ≡ none = alone.wait_info (reap proc) ∙ fresh in
    record {
      after = recorded wake info p;
      recorded_as = rw (found, unset, finish) refl;
      waited = refl;
      not_running = ended-not_running p.errors info;
      no_signals = λ kill signum. rw (alone.reaped (reap proc)) refl;
    }

-- A wake before the end of the process changes nothing.
wake-early :
    (between : Proc → Proc) (wake : Wake) (proc : Proc)
    → wake.waited ≡ none
    → wait_for_proc between (wake ∷ []) proc ≡ done proc
unfolding wait_for_proc
wake-early between wake proc e = rw e refl

module _ (k : Channels) (between : Proc → Proc) (alone : LeavesAlone between) (before : Proc)
    (fresh : before.wait_info ≡ none) where
  open k use {ready, has_changed, raise_ready, send_changed}

  -- As long as the task waits, an end that it has not seen is on its way to it: as a signal that the watcher will
  -- receive, or as a change of the channel.
  pub data Noticed (r : Reaper k between) : Type 0 where
    waits :
        r.over ≡ false
        → r.proc ≡ done before
        → (is_ended k between r.ended ≡ true
            → (ready r.stream ≡ true) ⊎ (has_changed r.channel ≡ true))
        → Noticed r
    is_over :
        r.over ≡ true → (info : WaitInfo) → r.ended ≡ some info → IsReaped info r.proc → Noticed r

  child_ends-Noticed :
      (info : WaitInfo) (r : Reaper k between)
      → Noticed r
      → Noticed (step k between (Event.child_ends info) r)
  unfolding step
  child_ends-Noticed info r (Noticed.waits going p h) =
      Noticed.waits going p (λ _. inl (raise_ready r.stream))
  child_ends-Noticed info r (Noticed.is_over over old e reaped) =
      Noticed.is_over over old (rw e refl) reaped

  other_child-Noticed :
      (r : Reaper k between) → Noticed r → Noticed (step k between Event.other_child r)
  unfolding step
  other_child-Noticed r (Noticed.waits going p h) =
      Noticed.waits going p (λ _. inl (raise_ready r.stream))
  other_child-Noticed r (Noticed.is_over over info e reaped) = Noticed.is_over over info e reaped

  pub watcher-Noticed :
      (r : Reaper k between) → Noticed r → Noticed (step k between Event.watcher r)
  unfolding step watch
  watcher-Noticed r (Noticed.waits going p h) = elim (Bool-cases (ready r.stream)) [
    | inl ready_now ↦
        rw (ready_now, step) (Noticed.waits going p (λ _. inr (send_changed r.channel)))
    | inr idle ↦ rw (idle, step) (Noticed.waits going p h)
  ]
  watcher-Noticed r (Noticed.is_over over info e reaped) = elim (Bool-cases (ready r.stream)) [
    | inl ready_now ↦ rw (ready_now, step) (Noticed.is_over over info e reaped)
    | inr idle ↦ rw (idle, step) (Noticed.is_over over info e reaped)
  ]

  pass-Noticed :
      (wake : Wake) (r : Reaper k between) (channel : _) (ended : Option WaitInfo)
      → r.ended ≡ ended
      → r.proc ≡ done before
      → Noticed (pass k between wake r channel)
  pass-Noticed wake r channel none e p =
      Noticed.waits (rw e refl)
        (rw p (wake-early between (record wake { waited = r.ended }) before e))
        (λ h. absurd (ground (arith, e, h)))
  pass-Noticed wake r channel (some info) e p =
      Noticed.is_over (rw e refl) info e
        (rw p (wake-IsReaped between (record wake { waited = r.ended }) info before alone fresh e))

  -- A task that has returned stays as it is; otherwise its turn is that of one that waits.
  pub if_holds :
      (P : Reaper k between → Type 0) (b : Bool) (r r' : Reaper k between)
      → (b ≡ true → P r)
      → (b ≡ false → P r')
      → P (if b then r else r')
  if_holds P true r r' h h' = h refl
  if_holds P false r r' h h' = h' refl

  pub over-IsReaped :
      (r : Reaper k between) (info : WaitInfo)
      → Noticed r
      → r.ended ≡ some info
      → r.over ≡ true
      → IsReaped info r.proc
  over-IsReaped r info (Noticed.waits going p h) e over = cc
  over-IsReaped r info (Noticed.is_over _ info' e' reaped) e over =
      let same : info' ≡ info = cc in subst (λ i. IsReaped i r.proc) same reaped

  woken-Noticed :
      (wake : Wake) (r : Reaper k between) (got : _)
      → r.proc ≡ done before
      → Noticed r
      → Noticed (woken k between wake r got)
  woken-Noticed wake r none p n = n
  woken-Noticed wake r (some channel) p n = pass-Noticed wake r channel r.ended refl p

  pub waiting_proc : (r : Reaper k between) → Noticed r → r.over ≡ false → r.proc ≡ done before
  waiting_proc r (Noticed.waits going p h) e = p
  waiting_proc r (Noticed.is_over over info e' reaped) e = cc

  task-Noticed :
      (wake : Wake) (r : Reaper k between)
      → Noticed r
      → Noticed (step k between (Event.task wake) r)
  unfolding step
  task-Noticed wake r n =
      if_holds Noticed r.over r _ (λ _. n)
        (λ going. woken-Noticed wake r (signal k r.channel) (waiting_proc r n going) n)

  step-Noticed :
      (event : Event) (r : Reaper k between) → Noticed r → Noticed (step k between event r)
  step-Noticed (Event.child_ends info) r n = child_ends-Noticed info r n
  step-Noticed Event.other_child r n = other_child-Noticed r n
  step-Noticed Event.watcher r n = watcher-Noticed r n
  step-Noticed (Event.task wake) r n = task-Noticed wake r n

  pub steps-Noticed :
      (events : List Event) (r : Reaper k between) → Noticed r → Noticed (steps k between events r)
  unfolding steps
  steps-Noticed [] r n = n
  steps-Noticed (event ∷ events) r n =
      steps-Noticed events (step k between event r) (step-Noticed event r n)

-- ===== src/Agent/Surviving.antt =====
-- What the whole loop of an agent, `run` of src/agent.rs, does to the shared state, over all its sessions.
use procstar.Prelude.{
  Exec, done, panicked, ℕ, ◌≡◌, subst, arith, List, [], ◌∷◌, Option, none, some, Result, ok, err,
  Bool-cases, inl, inr,
}
use procstar.Shutdown.{is_done}
use procstar.Err
use procstar.Procs.Table.{Procs, subscribe, get_shutdown, is_empty}
use procstar.Procs.Changes.{Follows}
use procstar.Procs.Following.{run-Follows-from}
use procstar.Procs.Evolving.{Evolves, Evolves-Follows, Evolves-receivers}
use procstar.Procs.Alert.{subscribe-Follows}
use procstar.Procs.Start.{Outcome, returned}
use procstar.Procs.Returned.{and_next-eq, returned_inj}
use procstar.Proto.{Machine}
use procstar.Agent.{ConnectConfig, Retry, after_failure, after_success}
use procstar.Agent.Session.{
  Wire, World, Event, Session, Status, open_, broken, is_over, run_session,
}
use procstar.Agent.Following.{run_session-Evolves}
use procstar.Agent.Connect.{Connection, connect}
use procstar.Agent.Loop.{
  Attempt, Loop, finished, gave_up, connected, goes_on, met, opened, closed, retried, reconnected,
  attempted, run_from, run_agent,
}

-- The shared state as the loop has left it.
abbrev pub state_of : Loop → Procs
state_of (finished r w) = w.procs
state_of (gave_up e r w) = w.procs
state_of (connected r s) = s.world.procs
state_of (goes_on r w) = w.procs

-- The subscription of a session does not count for the others.
closed-Follows :
    (w : World) (s : Session)
    → Evolves (opened w).world.procs s.world.procs
    → Follows w.procs
    → Follows (closed s).procs
unfolding subscribe is_empty
closed-Follows w s changes f =
    let now =
      Evolves-Follows (subscribe w.procs) s.world.procs changes (subscribe-Follows w.procs f) in
    let same = Evolves-receivers (subscribe w.procs) s.world.procs changes in
    record {
      consistent = record { sorted = now.consistent.sorted; settled = now.consistent.settled };
      listened = ground (arith, same, f.listened);
      tracks = now.tracks;
    }

module _ {F : Type 0} (m : Machine) (wire : Wire) (mul_f64 : ℕ → F → Exec ℕ) (cfg : ConnectConfig F)
    (c : Connection) where
  reconnected-Follows :
      (r : Retry) (w : World) (s : Session) (status : Status) (next : World → Outcome Loop)
      (l : Loop)
      → Evolves (opened w).world.procs s.world.procs
      → reconnected m wire mul_f64 cfg c r s status next ≡ returned l
      → ((w' : World) → next w' ≡ returned l → Follows w'.procs → Follows (state_of l))
      → Follows w.procs
      → Follows (state_of l)
  reconnected-Follows r w s open_ next l changes h keep f =
      subst (λ k. Follows (state_of k)) (returned_inj h)
        (Evolves-Follows (opened w).world.procs s.world.procs changes (subscribe-Follows w.procs f))
  reconnected-Follows r w s broken next l changes h keep f =
      keep (closed s) h (closed-Follows w s changes f)
  reconnected-Follows r w s is_over next l changes h keep f =
      subst (λ k. Follows (state_of k)) (returned_inj h) (closed-Follows w s changes f)

  retried-Follows :
      (e : Err.Error) (r : Retry) (w : World) (again : Exec (Option Retry))
      (next : Retry → Outcome Loop) (l : Loop)
      → retried m wire mul_f64 cfg c e r w again next ≡ returned l
      → ((r' : Retry) → next r' ≡ returned l → Follows (state_of l))
      → Follows w.procs
      → Follows (state_of l)
  retried-Follows e r w panicked next l h keep f = cc
  retried-Follows e r w (done none) next l h keep f =
      subst (λ k. Follows (state_of k)) (returned_inj h) f
  retried-Follows e r w (done (some r')) next l h keep f = keep r' h

  attempted-Follows :
      (answer : Result Err.Error (Unit {0})) (events : List Event) (r : Retry) (w : World)
      (next : Retry → World → Outcome Loop) (l : Loop)
      → attempted m wire mul_f64 cfg c answer events r w next ≡ returned l
      → ((r' : Retry) (w' : World)
          → next r' w' ≡ returned l
          → Follows w'.procs
          → Follows (state_of l))
      → Follows w.procs
      → Follows (state_of l)
  attempted-Follows (err e) events r w next l h keep f =
      retried-Follows e r w (after_failure mul_f64 cfg r) _ l h (λ r' h'. keep r' w h' f) f
  attempted-Follows (ok _) events r w next l h keep f =
      let (s, e, h1) = and_next-eq (run_session m wire events (opened w)) _ h in
      reconnected-Follows (after_success mul_f64 cfg r) w s s.status _ l
        (run_session-Evolves m wire events (opened w) s e) h1 (keep (after_success mul_f64 cfg r)) f

  run_from-Follows :
      (attempts : List Attempt) (r : Retry) (w : World) (l : Loop)
      → run_from m wire mul_f64 cfg c attempts r w ≡ returned l
      → Follows w.procs
      → Follows (state_of l)
  unfolding run_from
  run_from-Follows [] r w l h f = subst (λ k. Follows (state_of k)) (returned_inj h) f
  run_from-Follows (a ∷ attempts) r w l h f =
      let w' = met a.before w in
      let f' = run-Follows-from a.before w.procs f in
      elim (Bool-cases (is_done (get_shutdown w'.procs))) [
        | inl over ↦ subst (λ k. Follows (state_of k)) (returned_inj (rw (over, run_from) at h)) f'
        | inr going ↦
            attempted-Follows (connect wire a.net c w'.procs) a.events r w' _ l
              (rw (going, run_from) at h) (λ r2 w2 h2 f2. run_from-Follows attempts r2 w2 l h2 f2)
              f'
      ]

  -- If the loop of an agent does not panic or make the program exit, then another subscriber that followed
  -- the notifications when it began still does so, over all its attempts and sessions, whatever comes over the
  -- connections and whatever other tasks change.
  pub run_agent-Follows :
      (attempts : List Attempt) (w : World) (l : Loop)
      → run_agent m wire mul_f64 cfg c attempts w ≡ returned l
      → Follows w.procs
      → Follows (state_of l)
  unfolding run_agent
  run_agent-Follows attempts w l h f = run_from-Follows attempts _ w l h f

-- ===== src/Agent/Ends.antt =====
-- How an agent ends, of src/agent.rs, and how long it sleeps before.
use procstar.Prelude.{
  ℕ, ◌+◌, ◌≤◌, ◌≡◌, refl, Exec, Exec-cases, inl, inr, arith, true, List, [], ◌∷◌, Result, ok, err,
  All, Bool-cases, leb,
}
use procstar.Shutdown
use procstar.Shutdown.{is_done}
use procstar.Err
use procstar.Procs.Table.{get_shutdown}
use procstar.Procs.Start.{Outcome, returned, panics, exits, and_next}
use procstar.Proto.{Machine}
use procstar.Agent.{ConnectConfig, Retry, after_failure, after_success, back_off}
use procstar.Agent.Backoff.{Short, back_off-Short}
use procstar.Agent.Session.{
  Wire, World, Event, Session, Status, open_, broken, is_over, run_session,
}
use procstar.Agent.Connect.{Connection, Network, connect}
use procstar.Agent.Loop.{
  Attempt, Loop, finished, gave_up, connected, goes_on, met, opened, closed, retried, reconnected,
  attempted, run_from, run_agent,
}

is_done-eq : (state : Shutdown.State) → is_done state ≡ true → state ≡ Shutdown.State.done
is_done-eq Shutdown.State.done h = refl
is_done-eq Shutdown.State.active h = cc
is_done-eq Shutdown.State.idling h = cc

module _ {F : Type 0} (m : Machine) (wire : Wire) (mul_f64 : ℕ → F → Exec ℕ) (cfg : ConnectConfig F)
    (c : Connection) where
  -- No sleep was longer than the larger of the first and the maximal interval, and the next will not be.
  abbrev pub Rests : Retry → Type 0
  Rests r = Short mul_f64 cfg r.interval × All (Short mul_f64 cfg) r.slept

  -- How the agent stands after its attempts.
  pub data Ends : Outcome Loop → Type 0 where
    was_done :
        (r : Retry) (w : World)
        → get_shutdown w.procs ≡ Shutdown.State.done
        → Rests r
        → Ends (returned (finished r w))
    told_done :
        (r : Retry) (s : Session)
        → s.status ≡ is_over
        → Rests r
        → Ends (returned (finished r (closed s)))
    failed :
        (e : Err.Error) (r : Retry) (w : World) (net : Network)
        → connect wire net c w.procs ≡ err e
        → cfg.count_max ≤ r.count + 1
        → Rests r
        → Ends (returned (gave_up e r w))
    in_session :
        (r : Retry) (s : Session) → s.status ≡ open_ → Rests r → Ends (returned (connected r s))
    before_attempt : (r : Retry) (w : World) → Rests r → Ends (returned (goes_on r w))
    broke : Ends panics
    exited : (code : ℕ) → Ends (exits code)

  retried-Ends :
      (e : Err.Error) (r : Retry) (w : World) (net : Network) (next : Retry → Outcome Loop)
      → connect wire net c w.procs ≡ err e
      → Rests r
      → ((r' : Retry) → Rests r' → Ends (next r'))
      → Ends (retried m wire mul_f64 cfg c e r w (after_failure mul_f64 cfg r) next)
  unfolding after_failure
  retried-Ends e r w net next unconnected (short, slept) keep =
      elim (Bool-cases (leb cfg.count_max (r.count + 1))) [
        | inl last ↦
            rw (last, after_failure)
              (Ends.failed e r w net unconnected (ground (arith, last)) (short, slept))
        | inr more ↦ elim (Exec-cases (back_off mul_f64 cfg r.interval)) [
          | inl (interval, e') ↦
              rw (more, e', after_failure)
                (keep _ (back_off-Short mul_f64 cfg r.interval interval e', (short, slept)))
          | inr breaks ↦ rw (more, breaks, after_failure) Ends.broke
        ]
      ]

  reconnected-Ends :
      (r : Retry) (s : Session) (status : Status) (next : World → Outcome Loop)
      → s.status ≡ status
      → Rests r
      → ((w : World) → Ends (next w))
      → Ends (reconnected m wire mul_f64 cfg c r s status next)
  reconnected-Ends r s open_ next e rests keep = Ends.in_session r s e rests
  reconnected-Ends r s broken next e rests keep = keep (closed s)
  reconnected-Ends r s is_over next e rests keep = Ends.told_done r s e rests

  session-Ends :
      (out : Outcome Session) (r : Retry) (next : World → Outcome Loop)
      → Rests r
      → ((w : World) → Ends (next w))
      → Ends (and_next out λ s. reconnected m wire mul_f64 cfg c r s s.status next)
  session-Ends (returned s) r next rests keep = reconnected-Ends r s s.status next refl rests keep
  session-Ends panics r next rests keep = Ends.broke
  session-Ends (exits code) r next rests keep = Ends.exited code

  attempted-Ends :
      (net : Network) (w : World) (answer : Result Err.Error (Unit {0})) (events : List Event)
      (r : Retry) (next : Retry → World → Outcome Loop)
      → connect wire net c w.procs ≡ answer
      → Rests r
      → ((r' : Retry) (w' : World) → Rests r' → Ends (next r' w'))
      → Ends (attempted m wire mul_f64 cfg c answer events r w next)
  attempted-Ends net w (err e) events r next h rests keep =
      retried-Ends e r w net (λ r'. next r' w) h rests (λ r' rests'. keep r' w rests')
  attempted-Ends net w (ok _) events r next h rests keep =
      session-Ends (run_session m wire events (opened w)) (after_success mul_f64 cfg r)
        (next (after_success mul_f64 cfg r)) (omega arith, rests.1)
        (λ w'. keep (after_success mul_f64 cfg r) w' (omega arith, rests.1))

  run_from-Ends :
      (attempts : List Attempt) (r : Retry) (w : World)
      → Rests r
      → Ends (run_from m wire mul_f64 cfg c attempts r w)
  unfolding run_from
  run_from-Ends [] r w rests = Ends.before_attempt r w rests
  run_from-Ends (a ∷ attempts) r w rests =
      let w' = met a.before w in
      elim (Bool-cases (is_done (get_shutdown w'.procs))) [
        | inl over ↦ rw (over, run_from) (Ends.was_done r w' (is_done-eq _ over) rests)
        | inr going ↦
            rw (going, run_from)
              (attempted-Ends a.net w' (connect wire a.net c w'.procs) a.events r _ refl rests
                (run_from-Ends attempts))
      ]

  -- Whatever happens, an agent returns only if it finds its state to be done before an attempt, or a
  -- session has been told so; it gives up only with the error of an attempt that failed, once its
  -- count of failures has reached `count_max` with this one; else a session is open, or it will connect again, or
  -- there was a panic or the end of the program. It never sleeps longer between attempts than the larger of the
  -- first and the maximal interval.
  pub run_agent-Ends :
      (attempts : List Attempt) (w : World) → Ends (run_agent m wire mul_f64 cfg c attempts w)
  unfolding run_agent
  run_agent-Ends attempts w = run_from-Ends attempts _ w (omega arith, tt)

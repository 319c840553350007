-- ===== src/Agent/Backoff.antt =====
-- How often an agent tries to connect, and how long it waits in between.
use procstar.Prelude.{
  ℕ, suc, ◌+◌, ◌<◌, ◌≤◌, ◌≡◌, refl, arith, Bool, true, false, List, [], ◌∷◌, Result, ok, err, All,
  length, Exec, done, Exec-cases, ◌++◌, max, Bool-cases, inl, inr, leb,
}
use procstar.Err
use procstar.Shutdown
use procstar.Shutdown.{is_done}
use procstar.Agent.{
  ConnectConfig, Retry, Turn, Run, finished, gave_up, goes_on, broke, Next, stops, again, back_off,
  capped, after_failure, on_failure, on_attempt, take_turn, and_so_on, run_turns, run,
}

-- Turns in which the agent is not done and no connection is made.
abbrev pub failing : List Err.Error → List Turn
failing [] = []
failing (e ∷ errors) =
    (record { shutdown = Shutdown.State.active; attempt = err e }) ∷ failing errors

-- What has been slept, however the loop stands.
abbrev pub slept_of : Run → List ℕ
slept_of (finished r) = r.slept
slept_of (gave_up e r) = r.slept
slept_of (goes_on r) = r.slept
slept_of broke = []

at_most : (a b : ℕ) → a ≤ b → leb a b ≡ true
at_most a b h = ground arith

above : (a b : ℕ) → b < a → leb a b ≡ false
above a b h = ground arith

module _ {F : Type 0} (mul_f64 : ℕ → F → Exec ℕ) (cfg : ConnectConfig F) where
  abbrev pub Short : ℕ → Type 0
  Short t = t ≤ max cfg.interval_start cfg.interval_max

  pub back_off-Short : (interval next : ℕ) → back_off mul_f64 cfg interval ≡ done next → Short next
  unfolding back_off
  back_off-Short interval next e = ground arith

  -- The multiplication of an interval that may be slept gives a duration.
  abbrev pub Multiplies : Type 0
  Multiplies =
      (interval : ℕ)
      → Short interval
      → (longer : ℕ) × (mul_f64 interval cfg.interval_mult ≡ done longer)

  back_off-done :
      Multiplies
      → (interval : ℕ) → Short interval
      → (next : ℕ) × (back_off mul_f64 cfg interval ≡ done next)
  unfolding back_off
  back_off-done multiplies interval short =
      let (longer, e) = multiplies interval short in (capped mul_f64 cfg longer, rw e refl)

  -- The next step keeps to the bound.
  abbrev Bounded : Next → Type 0
  Bounded (stops out) = All Short (slept_of out)
  Bounded (again r) = Short r.interval × All Short r.slept

  on_failure-Bounded :
      (e : Err.Error) (r : Retry)
      → Short r.interval
      → All Short r.slept
      → Bounded (on_failure mul_f64 cfg e r (after_failure mul_f64 cfg r))
  unfolding after_failure
  on_failure-Bounded e r short slept = elim (Bool-cases (leb cfg.count_max (r.count + 1))) [
    | inl last ↦ rw (last, after_failure) slept
    | inr more ↦ elim (Exec-cases (back_off mul_f64 cfg r.interval)) [
      | inl (next, e) ↦
          rw (more, e, after_failure) (back_off-Short r.interval next e, (short, slept))
      | inr breaks ↦ rw (more, breaks, after_failure) tt
    ]
  ]

  on_attempt-Bounded :
      (attempt : Result Err.Error Bool) (r : Retry)
      → Short r.interval
      → All Short r.slept
      → Bounded (on_attempt mul_f64 cfg attempt r)
  on_attempt-Bounded (err e) r short slept = on_failure-Bounded e r short slept
  on_attempt-Bounded (ok true) r short slept = slept
  on_attempt-Bounded (ok false) r short slept = (omega arith, slept)

  take_turn-Bounded :
      (turn : Turn) (r : Retry)
      → Short r.interval
      → All Short r.slept
      → Bounded (take_turn mul_f64 cfg turn r)
  unfolding take_turn
  take_turn-Bounded turn r short slept = elim (Bool-cases (is_done turn.shutdown)) [
    | inl over ↦ rw (over, take_turn) slept
    | inr more ↦ rw (more, take_turn) (on_attempt-Bounded turn.attempt r short slept)
  ]

  and_so_on-Short :
      (n : Next) (next : Retry → Run)
      → Bounded n
      → ((r : Retry) → Short r.interval → All Short r.slept → All Short (slept_of (next r)))
      → All Short (slept_of (and_so_on mul_f64 cfg n next))
  and_so_on-Short (stops out) next slept keep = slept
  and_so_on-Short (again r) next (short, slept) keep = keep r short slept

  run_turns-Short :
      (turns : List Turn) (r : Retry)
      → Short r.interval
      → All Short r.slept
      → All Short (slept_of (run_turns mul_f64 cfg turns r))
  unfolding run_turns
  run_turns-Short [] r short slept = slept
  run_turns-Short (turn ∷ turns) r short slept =
      and_so_on-Short (take_turn mul_f64 cfg turn r) (λ r'. run_turns mul_f64 cfg turns r')
        (take_turn-Bounded turn r short slept) (run_turns-Short turns)

  -- Whatever happens on the connection, the agent never sleeps longer between two attempts than the larger of the first
  -- and the maximal interval.
  run-Short : (turns : List Turn) → All Short (slept_of (run mul_f64 cfg turns))
  unfolding run
  run-Short turns = run_turns-Short turns _ (omega arith) tt

  run_turns-failing :
      (errors : List Err.Error) (e : Err.Error) (r : Retry)
      → Multiplies
      → Short r.interval
      → r.count + suc (length errors) ≡ cfg.count_max
      → (r' : Retry) × (run_turns mul_f64 cfg (failing (errors ++ e ∷ [])) r ≡ gave_up e r')
        × (length r'.slept ≡ length errors + length r.slept)
  unfolding run_turns take_turn after_failure
  run_turns-failing [] e r multiplies short h = (
    r,
    rw (at_most cfg.count_max (r.count + 1) (omega (arith, h)), after_failure) refl,
    omega arith,
  )
  run_turns-failing (e' ∷ errors) e r multiplies short h =
      let (next, backs) = back_off-done multiplies r.interval short in
      let r' : Retry = record {
        interval = next;
        count = r.count + 1;
        slept = r.interval ∷ r.slept;
      } in
      let (end, run_rest, n) =
        run_turns-failing errors e r' multiplies (back_off-Short r.interval next backs)
          (omega (arith, h)) in
      (
        end,
        rw (above cfg.count_max (r.count + 1) (omega (arith, h)), backs, after_failure) run_rest,
        omega (arith, n),
      )

  -- If the multiplication of an interval that may be slept by the factor does not panic: an agent that cannot
  -- connect at all gives up with the error of attempt number `count_max`, after one
  -- sleep less than that.
  pub run-failing :
      (errors : List Err.Error) (e : Err.Error)
      → Multiplies
      → suc (length errors) ≡ cfg.count_max
      → (r : Retry) × (run mul_f64 cfg (failing (errors ++ e ∷ [])) ≡ gave_up e r)
        × (length r.slept ≡ length errors)
  unfolding run
  run-failing errors e multiplies h =
      let (r, gives_up, n) =
        run_turns-failing errors e (record { interval = cfg.interval_start; count = 0; slept = [] })
          multiplies (omega arith) (omega (arith, h)) in
      (r, gives_up, omega (arith, n))

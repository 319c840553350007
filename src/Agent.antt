-- ===== src/Agent.antt =====
-- src/agent.rs: an agent's connection to its server. A websocket, the codec of its messages and `f64` are
-- not this code: what happens on the connection is a list of events, and a duration is a number of
-- nanoseconds, which `mul_f64` multiplies, and `from_secs` makes of a number of seconds; both panic where
-- the result is no duration.
pub mod Session
pub mod Connect
pub mod Registered
pub mod Backoff
pub mod Following
pub mod Loop
pub mod Ends
pub mod Surviving
use procstar.Prelude.{
  ℕ, suc, ◌+◌, Bool, true, false, List, [], ◌∷◌, Option, none, some, Result, ok, err, ltb, leb,
  if◌then◌else◌, String, Exec, done, panicked, bind_exec,
}
use procstar.Err
use procstar.Shutdown
use procstar.Shutdown.{is_done}

-- `f64` stands for the type of the factor.
pub record ConnectConfig (F : Type 0) : Type 0 where
  pub interval_start : ℕ
  pub interval_mult : F
  pub interval_max : ℕ
  pub count_max : ℕ
  pub read_timeout : ℕ

-- The defaults; `two` is the factor 2.0.
unfoldable pub new_config : {F : Type 0} → F → ConnectConfig F
new_config two = record {
  interval_start = 1000000000;
  interval_mult = two;
  interval_max = 60000000000;
  count_max = 18446744073709551615;
  read_timeout = 60000000000;
}

-- The options of the command line that configure the connection, over the defaults.
pub record ConnectArgs (F : Type 0) : Type 0 where
  pub connect_interval_start : Option F
  pub connect_interval_mult : Option F
  pub connect_interval_max : Option F
  pub connect_count_max : Option ℕ
  pub agent_read_timeout : Option F

abbrev pub map_or : {A B : Type 0} → Option A → B → (A → B) → B
map_or none default f = default
map_or (some a) default f = f a

-- `get_connect_config` of src/argv.rs.
unfoldable pub get_connect_config :
    {F : Type 0} → F → (F → Exec ℕ) → ConnectArgs F → Exec (ConnectConfig F)
unfolding new_config
get_connect_config two from_secs args =
    let df = new_config two in
    bind_exec (map_or args.connect_interval_start (done df.interval_start) from_secs) λ start.
      bind_exec (map_or args.connect_interval_max (done df.interval_max) from_secs) λ longest.
        bind_exec (map_or args.agent_read_timeout (done df.read_timeout) from_secs) λ timeout.
          done (record {
            interval_start = start;
            interval_mult = map_or args.connect_interval_mult df.interval_mult (λ x. x);
            interval_max = longest;
            count_max = map_or args.connect_count_max df.count_max (λ x. x);
            read_timeout = timeout;
          })

-- What `run` keeps between attempts, and the times it has slept, latest first.
pub record Retry : Type 0 where
  pub interval : ℕ
  pub count : ℕ
  pub slept : List ℕ

-- One turn of the outer loop: the shutdown state it finds, and either the error of the connection or
-- whether the session ended because the agent is done.
pub record Turn : Type 0 where
  pub shutdown : Shutdown.State
  pub attempt : Result Err.Error Bool

-- How `run` ends: well, or with the error of the last attempt; or it goes on after the turns that there
-- are. It panics where the next interval is no duration.
pub data Run : Type 0 where
  finished : Retry → Run
  gave_up : Err.Error → Retry → Run
  goes_on : Retry → Run
  broke : Run

pub data Next : Type 0 where
  stops : Run → Next
  again : Retry → Next

module _ {F : Type 0} (mul_f64 : ℕ → F → Exec ℕ) (cfg : ConnectConfig F) where
  abbrev pub capped : ℕ → ℕ
  capped interval = if ltb cfg.interval_max interval then cfg.interval_max else interval

  -- The next interval: longer by the factor, up to the maximum.
  unfoldable pub back_off : ℕ → Exec ℕ
  back_off interval = bind_exec (mul_f64 interval cfg.interval_mult) λ longer. done (capped longer)

  -- After a sleep: with the next interval.
  abbrev pub rested : Retry → ℕ → Exec (Option Retry)
  rested r interval =
      done
        (some (record { interval = interval; count = r.count + 1; slept = r.interval ∷ r.slept }))

  -- After an unsuccessful attempt; `none` is to give up.
  unfoldable pub after_failure : Retry → Exec (Option Retry)
  unfolding back_off
  after_failure r =
      if leb cfg.count_max (r.count + 1)
      then done none
      else bind_exec (back_off r.interval) (rested r)

  abbrev pub after_success : Retry → Retry
  after_success r = record { interval = cfg.interval_start; count = 0; slept = r.slept }

  abbrev pub on_failure : Err.Error → Retry → Exec (Option Retry) → Next
  on_failure e r panicked = stops broke
  on_failure e r (done none) = stops (gave_up e r)
  on_failure e r (done (some r')) = again r'

  abbrev pub on_attempt : Result Err.Error Bool → Retry → Next
  on_attempt (err e) r = on_failure e r (after_failure r)
  on_attempt (ok true) r = stops (finished (after_success r))
  on_attempt (ok false) r = again (after_success r)

  -- One turn of the loop.
  unfoldable pub take_turn : Turn → Retry → Next
  unfolding after_failure
  take_turn turn r = if is_done turn.shutdown then stops (finished r) else on_attempt turn.attempt r

  abbrev pub and_so_on : Next → (Retry → Run) → Run
  and_so_on (stops out) next = out
  and_so_on (again r) next = next r

  unfoldable pub run_turns : List Turn → Retry → Run
  unfolding take_turn
  run_turns [] r = goes_on r
  run_turns (turn ∷ turns) r = and_so_on (take_turn turn r) λ r'. run_turns turns r'

  unfoldable pub run : List Turn → Run
  unfolding run_turns
  run turns = run_turns turns (record { interval = cfg.interval_start; count = 0; slept = [] })

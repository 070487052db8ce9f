-- ===== src/Timers.antt =====
-- The seconds of the core and its timers (src/wish_time.c, and `wish_timer_db_t` of src/wish_core.h).
-- A callback with its context is a `Callback`, `run` is what it does to the rest of the core, and
-- `check` is `wish_connections_check`. None of the callbacks that the core registers sets a timer.
pub mod OnTime
mod Tests
use wish_c.Prelude.{
  ℕ, ◌+◌, ◌%◌, ◌^◌, Bool, true, false, List, [], ◌∷◌, ◌++◌, ltb, leb, if◌then◌else◌,
}

-- `wish_timer_db_t`
pub record Timer (Callback : Type 0) : Type 0 where
  pub time : ℕ
  pub cb : Callback
  pub interval : ℕ
  pub single_shot : Bool

-- The clock of a core with its list of timers; the stamp is the static variable of the report, and
-- `rest` is the rest of the core.
pub record Clock (Callback Rest : Type 0) : Type 0 where
  pub core_time : ℕ
  pub check_connections_timestamp : ℕ
  pub time_db : List (Timer Callback)
  pub rest : Rest

-- `wish_time_t` has 32 bits.
abbrev pub wish_time : ℕ → ℕ
wish_time n = n % 2 ^ 32

module _ {Callback : Type 0} where
  unfoldable pub is_due : ℕ → Timer Callback → Bool
  is_due now t = leb t.time now

  -- What stays in the list of a timer that ran.
  unfoldable pub rescheduled : ℕ → Timer Callback → List (Timer Callback)
  rescheduled now t =
      if t.single_shot then [] else record t { time = wish_time (now + t.interval) } ∷ []

  unfoldable pub kept : ℕ → Timer Callback → List (Timer Callback)
  unfolding rescheduled
  kept now t = if is_due now t then rescheduled now t else t ∷ []

module _ {Callback Rest : Type 0} where
  -- `LL_APPEND` of a new timer.
  unfoldable append_timer : Clock Callback Rest → Callback → ℕ → Bool → Clock Callback Rest
  append_timer c cb interval single_shot = record c {
    time_db =
        c.time_db
        ++ record {
          time = wish_time (c.core_time + interval);
          cb = cb;
          interval = interval;
          single_shot = single_shot;
        }
          ∷ [];
  }

  -- `wish_core_time_set_interval`
  unfoldable pub set_interval : Clock Callback Rest → Callback → ℕ → Clock Callback Rest
  unfolding append_timer
  set_interval c cb interval = append_timer c cb interval false

  -- `wish_core_time_set_timeout`
  unfoldable pub set_timeout : Clock Callback Rest → Callback → ℕ → Clock Callback Rest
  unfolding append_timer
  set_timeout c cb interval = append_timer c cb interval true

  module _ (run : Callback → Rest → Rest) where
    unfoldable pub run_if_due : ℕ → Timer Callback → Rest → Rest
    run_if_due now t s = if is_due now t then run t.cb s else s

    -- The loop over the timers.
    unfoldable pub timers_loop : ℕ → List (Timer Callback) → Rest → List (Timer Callback) × Rest
    unfolding kept run_if_due
    timers_loop now [] s = ([], s)
    timers_loop now (t ∷ timers) s =
        let r = timers_loop now timers (run_if_due now t s) in (kept now t ++ r.0, r.1)

    unfoldable pub run_timers : Clock Callback Rest → Clock Callback Rest
    unfolding timers_loop
    run_timers c =
        let r = timers_loop c.core_time c.time_db c.rest in record c { time_db = r.0; rest = r.1 }

  -- The check of the connections, once more than 60 seconds went by.
  unfoldable pub check_connections : (Rest → Rest) → Clock Callback Rest → Clock Callback Rest
  check_connections check c =
      if ltb (wish_time (c.check_connections_timestamp + 60)) c.core_time
      then record c { check_connections_timestamp = c.core_time; rest = check c.rest }
      else c

  -- `wish_time_report_periodic`
  unfoldable pub report_periodic :
      (Callback → Rest → Rest) → (Rest → Rest) → Clock Callback Rest → Clock Callback Rest
  unfolding check_connections run_timers
  report_periodic run check c =
      run_timers run
        (check_connections check (record c { core_time = wish_time (c.core_time + 1) }))

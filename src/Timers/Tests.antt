-- ===== src/Timers/Tests.antt =====
-- The timers of src/wish_time.c on three of them.
use wish_c.Prelude.{ℕ, ◌≡◌, refl, List, [], ◌∷◌, arith}
use wish_c.Timers.{
  Clock, report_periodic, set_interval, set_timeout, append_timer, check_connections, run_timers,
  timers_loop, run_if_due, is_due, kept, rescheduled,
}
use wish_c.Timers.OnTime.{
  IsAhead, AllTimers, no_timer, and_timer, OnTime, note, report_periodic-OnTime,
}

-- Callbacks are numbers, and a check is written down as 0.
abbrev at_start : Clock ℕ (List ℕ)
at_start = record { core_time = 70; check_connections_timestamp = 0; time_db = []; rest = [] }

unfoldable three : Clock ℕ (List ℕ)
unfolding set_interval set_timeout append_timer
three = set_timeout (set_interval (set_timeout at_start 1 2) 2 1) 3 1

abbrev check : List ℕ → List ℕ
check log = 0 ∷ log

three_run : (report_periodic note check three).rest ≡ 0 ∷ (2 ∷ (3 ∷ []))
unfolding report_periodic check_connections run_timers timers_loop run_if_due is_due kept
    rescheduled three
three_run = refl

three_run_again :
    (report_periodic note check (report_periodic note check three)).rest
    ≡ 0 ∷ (2 ∷ (3 ∷ (1 ∷ (2 ∷ []))))
unfolding report_periodic check_connections run_timers timers_loop run_if_due is_due kept
    rescheduled three
three_run_again = refl

three-IsAhead : AllTimers (IsAhead three.core_time) three.time_db
unfolding three
three-IsAhead =
    and_timer (record { to_come = omega arith; waits = omega arith; fits = omega arith })
      (and_timer (record { to_come = omega arith; waits = omega arith; fits = omega arith })
        (and_timer (record { to_come = omega arith; waits = omega arith; fits = omega arith })
          no_timer))

report_periodic-OnTime_example : OnTime check three (report_periodic note check three)
unfolding three
report_periodic-OnTime_example = report_periodic-OnTime check three (omega arith) three-IsAhead

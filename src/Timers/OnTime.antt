-- ===== src/Timers/OnTime.antt =====
-- When the timers of src/wish_time.c run.
use wish_c.Prelude.{
  ℕ, ◌+◌, ◌^◌, ◌<◌, ◌≤◌, ◌≡◌, refl, sym, ap, ◌∙◌, true, false, List, [], ◌∷◌, ◌++◌, arith,
  append-nil, subst, leb→le, append_assoc, ltb, leb, ◌==◌, if◌then◌else◌,
}
use wish_c.Connection.Handshake.Outcome.{if_cases}
use wish_c.Connection.Transport.Framing.{if_true}
use wish_c.Identity.Saving.{if_false}
use wish_c.Timers.{
  Timer, Clock, wish_time, is_due, rescheduled, kept, run_if_due, timers_loop, check_connections,
  run_timers, report_periodic,
}

==_true : (a b : ℕ) → a ≡ b → (a == b) ≡ true
==_true a b h = ground arith

==_false : (a b : ℕ) → b < a → (a == b) ≡ false
==_false a b h = ground arith

not-leb : (a b : ℕ) → leb a b ≡ false → b < a
not-leb a b h = ground arith

module _ {Callback : Type 0} where
  -- The timer's time is to come, and it waits at least a second; the clock of 32 bits does not end
  -- before it has run once more.
  pub record IsAhead (now : ℕ) (t : Timer Callback) : Type 0 where
    pub to_come : now < t.time
    pub waits : 1 ≤ t.interval
    pub fits : now + 1 + t.interval < 2 ^ 32

  pub data AllTimers (P : Timer Callback → Type 0) : List (Timer Callback) → Type 0 where
    no_timer : AllTimers P []
    and_timer :
        {t : Timer Callback} {ts : List (Timer Callback)}
        → P t
        → AllTimers P ts
        → AllTimers P (t ∷ ts)

  -- The timer's time is to come, and it waits at least a second.
  pub record IsWaiting (now : ℕ) (t : Timer Callback) : Type 0 where
    pub still_to_come : now < t.time
    pub still_waits : 1 ≤ t.interval

  -- The callbacks of the timers that are set to this second, in the order of the list.
  unfoldable pub set_to : ℕ → List (Timer Callback) → List Callback
  set_to now [] = []
  set_to now (t ∷ ts) = if t.time == now then t.cb ∷ set_to now ts else set_to now ts

  -- The callbacks that ran are written down.
  abbrev pub note : Callback → List Callback → List Callback
  note cb log = log ++ cb ∷ []

  IsWaiting-rescheduled :
      (now : ℕ) (t : Timer Callback) (ts : List (Timer Callback))
      → 1 ≤ t.interval
      → now + t.interval < 2 ^ 32
      → AllTimers (IsWaiting now) ts
      → AllTimers (IsWaiting now) (rescheduled now t ++ ts)
  unfolding rescheduled
  IsWaiting-rescheduled now t ts h f a =
      if_cases (λ l. AllTimers (IsWaiting now) (l ++ ts)) t.single_shot (λ e. a)
        (λ e. and_timer (record { still_to_come = omega arith; still_waits = h }) a)

  IsWaiting-kept :
      (now : ℕ) (t : Timer Callback) (ts : List (Timer Callback))
      → IsAhead now t
      → AllTimers (IsWaiting (now + 1)) ts
      → AllTimers (IsWaiting (now + 1)) (kept (now + 1) t ++ ts)
  unfolding kept is_due
  IsWaiting-kept now t ts h a =
      if_cases (λ l. AllTimers (IsWaiting (now + 1)) (l ++ ts)) (leb t.time (now + 1))
        (λ e. IsWaiting-rescheduled (now + 1) t ts h.waits (omega (arith, h.fits)) a)
        (λ e. and_timer (record { still_to_come = not-leb _ _ e; still_waits = h.waits }) a)

  on_time :
      {now : ℕ} {t : Timer Callback}
      → leb t.time (now + 1) ≡ true
      → IsAhead now t
      → t.time ≡ now + 1
  on_time e h = omega (arith, leb→le _ _ e, h.to_come)

  module _ (now : ℕ) where
    timers_loop-IsWaiting :
        (ts : List (Timer Callback)) (log : List Callback)
        → AllTimers (IsAhead now) ts
        → AllTimers (IsWaiting (now + 1)) (timers_loop note (now + 1) ts log).0
    unfolding timers_loop
    timers_loop-IsWaiting [] log a = no_timer
    timers_loop-IsWaiting (t ∷ ts) log (and_timer h a) =
        IsWaiting-kept now t _ h (timers_loop-IsWaiting ts _ a)

    timers_loop-set_to :
        (ts : List (Timer Callback)) (log : List Callback)
        → AllTimers (IsAhead now) ts
        → (timers_loop note (now + 1) ts log).1 ≡ log ++ set_to (now + 1) ts
    unfolding timers_loop set_to run_if_due is_due
    timers_loop-set_to [] log a = sym (append-nil log)
    timers_loop-set_to (t ∷ ts) log (and_timer h a) =
        if_cases (λ l. (timers_loop note (now + 1) ts l).1 ≡ log ++ set_to (now + 1) (t ∷ ts))
          (leb t.time (now + 1))
          (λ e.
            timers_loop-set_to ts _ a
            ∙ append_assoc log (t.cb ∷ []) (set_to (now + 1) ts)
            ∙ ap (λ l. log ++ l) (sym (if_true _ (==_true t.time (now + 1) (on_time e h)))))
          (λ e.
            timers_loop-set_to ts _ a
            ∙ ap (λ l. log ++ l) (sym (if_false _ (==_false t.time (now + 1) (not-leb _ _ e)))))

  module _ (check : List Callback → List Callback) where
    check_connections-time_db :
        (c : Clock Callback (List Callback)) → (check_connections check c).time_db ≡ c.time_db
    unfolding check_connections
    check_connections-time_db c =
        if_cases (λ d. d.time_db ≡ c.time_db)
          (ltb (wish_time (c.check_connections_timestamp + 60)) c.core_time)
          {x = record c { check_connections_timestamp = c.core_time; rest = check c.rest }} {y = c}
          (λ e. refl) (λ e. refl)

    check_connections-core_time :
        (c : Clock Callback (List Callback)) → (check_connections check c).core_time ≡ c.core_time
    unfolding check_connections
    check_connections-core_time c =
        if_cases (λ d. d.core_time ≡ c.core_time)
          (ltb (wish_time (c.check_connections_timestamp + 60)) c.core_time)
          {x = record c { check_connections_timestamp = c.core_time; rest = check c.rest }} {y = c}
          (λ e. refl) (λ e. refl)

    -- What a tick comes to: every timer of the new list is to come, and those that ran are the ones
    -- set to this second.
    pub record OnTime (c d : Clock Callback (List Callback)) : Type 0 where
      pub wait : AllTimers (IsWaiting (c.core_time + 1)) d.time_db
      pub ran :
          d.rest
          ≡ (check_connections check (record c { core_time = c.core_time + 1 })).rest
            ++ set_to (c.core_time + 1) c.time_db

    run_timers-OnTime :
        (c : Clock Callback (List Callback))
        → AllTimers (IsAhead c.core_time) c.time_db
        → OnTime c
            (run_timers note (check_connections check (record c { core_time = c.core_time + 1 })))
    unfolding run_timers
    run_timers-OnTime c a = record {
      wait =
          subst
            (λ n. AllTimers (IsWaiting (c.core_time + 1)) (timers_loop note n d.time_db d.rest).0)
            (sym (check_connections-core_time c'))
            (timers_loop-IsWaiting c.core_time d.time_db d.rest a');
      ran =
          ap (λ n. (timers_loop note n d.time_db d.rest).1) (check_connections-core_time c')
          ∙ timers_loop-set_to c.core_time d.time_db d.rest a'
          ∙ ap (λ ts. d.rest ++ set_to (c.core_time + 1) ts) (check_connections-time_db c');
    }
      where
        c' : Clock Callback (List Callback)
        c' = record c { core_time = c.core_time + 1 }

        d : Clock Callback (List Callback)
        d = check_connections check c'

        a' : AllTimers (IsAhead c.core_time) d.time_db
        a' = subst (AllTimers (IsAhead c.core_time)) (sym (check_connections-time_db c')) a

    -- When every timer waits at least a second, is to come and runs again before the end of the clock
    -- of 32 bits, a tick runs exactly the callbacks of the timers that are set to the new second, in
    -- the order of the list and after the check of the connections, and leaves timers that are to
    -- come.
    pub report_periodic-OnTime :
        (c : Clock Callback (List Callback))
        → c.core_time + 1 < 2 ^ 32
        → AllTimers (IsAhead c.core_time) c.time_db
        → OnTime c (report_periodic note check c)
    unfolding report_periodic
    report_periodic-OnTime c h a =
        subst
          (λ n. OnTime c (run_timers note (check_connections check (record c { core_time = n }))))
          (sym e) (run_timers-OnTime c a)
      where
        e : wish_time (c.core_time + 1) ≡ c.core_time + 1
        e = omega arith

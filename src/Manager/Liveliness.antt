-- ===== src/Manager/Liveliness.antt =====
-- What a round of `check_connection_liveliness` (src/wish_connection_mgr.c) leaves.
use wish_c.Prelude.{ℕ, ◌+◌, ◌<◌, ◌≡◌, ◌≢◌, refl, ap, arith, ltb, leb, ◌&&◌}
use wish_c.Connection.Types.{Connection, ContextState, World, Session}
use wish_c.Connection.Handshake.Outcome.{
  closed_conn, close_connection-conn, send_message-conn, if_cases,
}
use wish_c.Pool.{Core}
use wish_c.Pool.Sweep.{All, sweep-All}
use wish_c.Manager.{
  time_mod, ping_interval, ping_timeout, connection_setup_timeout, silent_for, ping, send_ping,
  ping_if_silent, close_if_dead, check_context, check_connection_liveliness,
}

-- The peer was heard within the timeout, and nothing is left half closed.
pub record Lively (now : ℕ) (c : Connection) : Type 0 where
  pub heard :
      c.context_state ≡ ContextState.connected → ¬ (c.latest_input_timestamp + ping_timeout < now)
  pub set_up :
      c.context_state ≡ ContextState.in_making
      → ¬ (c.latest_input_timestamp + connection_setup_timeout < now)
  pub not_closing : c.context_state ≢ ContextState.closing

-- The deadlines of a context do not wrap.
pub record InTime (c : Connection) : Type 0 where
  pub no_wrap : c.latest_input_timestamp + ping_timeout < time_mod

free≢connected : ContextState.free ≢ ContextState.connected
free≢connected e = absurd (ground arith)

module _ (w : World) where
  closed-Lively : (c : Connection) → c ≡ closed_conn w → Lively w.now c
  closed-Lively c e =
      let free : c.context_state ≡ ContextState.free = ap (λ (x : Connection). x.context_state) e in
      record {
        heard = λ h. absurd (ground arith);
        set_up = λ h. absurd (ground arith);
        not_closing = λ h. absurd (ground arith);
      }

  -- After the ping the silence is known.
  ping_fields :
      (s : Session)
      → ((ping_if_silent w s).conn.latest_input_timestamp ≡ s.conn.latest_input_timestamp)
        × ((ping_if_silent w s).conn.context_state ≡ s.conn.context_state)
  unfolding ping_if_silent send_ping
  ping_fields s =
      let e = send_message-conn w s ping in
      if_cases
        (λ (t : Session).
          (t.conn.latest_input_timestamp ≡ s.conn.latest_input_timestamp)
          × (t.conn.context_state ≡ s.conn.context_state))
        (silent_for ping_interval w s.conn
          && leb s.conn.ping_sent_timestamp s.conn.latest_input_timestamp)
        (λ _. (
          ap (λ (x : Connection). x.latest_input_timestamp) e,
          ap (λ (x : Connection). x.context_state) e,
        ))
        (λ _. (refl, refl))

  pinged :
      (s : Session)
      → InTime s.conn
      → s.conn.latest_input_timestamp + ping_timeout < w.now
      → s.conn.latest_input_timestamp < (ping_if_silent w s).conn.ping_sent_timestamp
  unfolding ping_if_silent send_ping silent_for
  pinged s t h = let n = t.no_wrap in ground arith

  connected-Lively :
      (s : Session)
      → InTime s.conn
      → s.conn.context_state ≡ ContextState.connected
      → Lively w.now (close_if_dead w (ping_if_silent w s)).conn
  unfolding close_if_dead silent_for
  connected-Lively s t e =
      let p = ping_if_silent w s in
      let same = ping_fields s in
      let n = t.no_wrap in
      if_cases (λ (x : Session). Lively w.now x.conn)
        (silent_for ping_timeout w p.conn
          && ltb p.conn.latest_input_timestamp p.conn.ping_sent_timestamp)
        (λ _. closed-Lively _ (close_connection-conn w p))
        (λ no. record {
          heard = λ _ h. ground (arith, pinged s t, same);
          set_up = λ h. absurd (ground arith);
          not_closing = λ h. absurd (ground arith);
        })

  in_making-Lively :
      (s : Session)
      → InTime s.conn
      → s.conn.context_state ≡ ContextState.in_making
      → Lively w.now (check_context ContextState.in_making w s).conn
  unfolding check_context silent_for
  in_making-Lively s t e =
      let n = t.no_wrap in
      if_cases (λ (x : Session). Lively w.now x.conn) (silent_for connection_setup_timeout w s.conn)
        (λ _. closed-Lively _ (close_connection-conn w s))
        (λ no. record {
          heard = λ h. absurd (ground arith);
          set_up = λ _ h. ground arith;
          not_closing = λ h. absurd (ground arith);
        })

  check_context-Lively :
      (q : ContextState) (s : Session)
      → s.conn.context_state ≡ q
      → InTime s.conn
      → Lively w.now (check_context q w s).conn
  unfolding check_context
  check_context-Lively ContextState.connected s e t = connected-Lively s t e
  check_context-Lively ContextState.in_making s e t = in_making-Lively s t e
  check_context-Lively ContextState.closing s e t = closed-Lively _ (close_connection-conn w s)
  check_context-Lively ContextState.free s e t = record {
    heard = λ h. absurd (ground arith);
    set_up = λ h. absurd (ground arith);
    not_closing = λ h. absurd (ground arith);
  }

-- After `check_connection_liveliness`, in a pool whose deadlines do not wrap, every connected context
-- has had input within PING_TIMEOUT seconds, every context in the making within
-- CONNECTION_SETUP_TIMEOUT seconds, and no context is closing.
pub check_connection_liveliness-Lively :
    (w : World) (core : Core)
    → All InTime core.connection_pool
    → All (Lively w.now) (check_connection_liveliness w core).connection_pool
unfolding check_connection_liveliness
check_connection_liveliness-Lively w core h =
    sweep-All (λ i w' s. check_context s.conn.context_state w' s) w InTime (Lively w.now)
      (λ i others s t.
        check_context-Lively (record w { others = others }) s.conn.context_state s refl t)
      core h

-- ===== src/Manager/Parallel.antt =====
-- What `wish_close_parallel_connections` (src/wish_connection_mgr.c) leaves.
use wish_c.Prelude.{subst⁻¹, ℕ, ◌≡◌, ◌≢◌, ap, ◌∙◌, false, ◌&&◌, arith, ◌==◌, if◌then◌else◌}
use wish_c.Connection.Types.{Connection, ContextState, World, Session}
use wish_c.Connection.Close.{is_connected}
use wish_c.Connection.Handshake.Outcome.{close_connection-conn, if_cases}
use wish_c.Pool.{Core, is_between, sweep}
use wish_c.Pool.Sweep.{AllFrom, sweep-AllFrom}
use wish_c.Manager.{close_parallel, close_parallel_connections}

-- A context is the one with the index k, or it is no connected one between the ids of `conn`.
pub record NotParallel (k : ℕ) (conn : Connection) (i : ℕ) (c : Connection) : Type 0 where
  pub alone :
      i ≢ k → (is_between conn.luid conn.ruid conn.rhid c && is_connected c.context_state) ≡ false

close_parallel-NotParallel :
    (k : ℕ) (conn : Connection) (i : ℕ) (w : World) (s : Session)
    → NotParallel k conn i (close_parallel k conn i w s).conn
unfolding close_parallel
close_parallel-NotParallel k conn i w s =
    if_cases (λ (t : Session). NotParallel k conn i t.conn) (i == k)
      (λ e. record { alone = λ ne. absurd (ground arith) })
      (λ e.
        if_cases (λ (t : Session). NotParallel k conn i t.conn)
          (is_between conn.luid conn.ruid conn.rhid s.conn && is_connected s.conn.context_state)
          (λ _. record {
            alone = λ _.
                ap
                  (λ (c : Connection).
                    is_between conn.luid conn.ruid conn.rhid c && is_connected c.context_state)
                  (close_connection-conn w s)
                ∙ ground arith;
          })
          (λ h. record { alone = λ _. h }))

-- After `wish_close_parallel_connections` for a connected context with the index k, no other context
-- is connected with the same local identity, remote identity and remote host.
pub close_parallel_connections-AllFrom :
    (w : World) (core : Core) (k : ℕ) (conn : Connection)
    → conn.context_state ≡ ContextState.connected
    → AllFrom (NotParallel k conn) 0 (close_parallel_connections w core k conn).connection_pool
unfolding close_parallel_connections
close_parallel_connections-AllFrom w core k conn e =
    subst⁻¹ (λ (x : Core). AllFrom (NotParallel k conn) 0 x.connection_pool)
      (ap (λ q. if is_connected q then (sweep (close_parallel k conn) w core) else core) e)
      (sweep-AllFrom (NotParallel k conn) (close_parallel k conn) w
        (λ i others s. close_parallel-NotParallel k conn i (record w { others = others }) s) core)

-- ===== src/Pool/CloseAll.antt =====
-- `wish_connections_close_all` (src/wish_connection.c).
use wish_c.Prelude.{◌≡◌, refl, map, if◌then◌else◌}
use wish_c.Connection.Types.{Connection, ContextState, World, Session}
use wish_c.Connection.Handshake.Outcome.{closed_conn, close_connection-conn}
use wish_c.Pool.{Core, counts, close_if_open, connections_close_all}
use wish_c.Pool.Sweep.{sweep-map}

close_if_open-conn :
    (q : ContextState) (w : World) (s : Session)
    → (close_if_open q w s).conn ≡ (if counts q then (closed_conn w) else s.conn)
unfolding close_if_open
close_if_open-conn ContextState.in_making w s = close_connection-conn w s
close_if_open-conn ContextState.connected w s = close_connection-conn w s
close_if_open-conn ContextState.free w s = refl
close_if_open-conn ContextState.closing w s = refl

-- `wish_connections_close_all` leaves the pool in which exactly the connected contexts and those in
-- the making are closed, that is free, and the others are as they were.
pub close_all-closes :
    (w : World) (core : Core)
    → (connections_close_all w core).connection_pool
      ≡ map
          (λ (c : Connection). if counts c.context_state then (closed_conn w) else c)
          core.connection_pool
unfolding connections_close_all
close_all-closes w core =
    sweep-map (λ i w' s. close_if_open s.conn.context_state w' s) w _
      (λ i others s. close_if_open-conn s.conn.context_state (record w { others = others }) s) core

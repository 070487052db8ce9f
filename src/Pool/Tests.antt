-- ===== src/Pool/Tests.antt =====
-- A pool of three contexts, and runs of the theorems about the pool and its manager.
use wish_c.Prelude.{ℕ, refl, List, [], ◌∷◌, arith, replicate}
use wish_c.Connection.Types.{Connection, ContextState, zero_connection}
use wish_c.Connection.Tests.{lab}
use wish_c.Pool.{Core, connection_init, lookup_connected, is_candidate, is_vacant}
use wish_c.Pool.Sweep.{AllFrom, All, none_left, also}
use wish_c.Pool.Lookup.{Latest, lookup_connected-Latest}
use wish_c.Pool.Init.{FreeIsClean, Started, connection_init-Started}
use wish_c.Manager.{close_parallel_connections, check_connection_liveliness}
use wish_c.Manager.Parallel.{NotParallel, close_parallel_connections-AllFrom}
use wish_c.Manager.Liveliness.{Lively, check_connection_liveliness-Lively}

abbrev ours : List ℕ
ours = replicate 32 3

abbrev theirs : List ℕ
theirs = replicate 32 4

abbrev between : ContextState → ℕ → Connection
between state time = record (zero_connection 128) {
  context_state = state;
  luid = ours;
  ruid = theirs;
  latest_input_timestamp = time;
}

abbrev core : Core
core = record {
  connection_pool =
      between ContextState.connected 3
      ∷ (between ContextState.connected 4 ∷ (zero_connection 128 ∷ []));
  next_conn_id = 3;
  log = [];
}

lookup_connected-Latest_example :
    Latest
      (is_candidate ours theirs (replicate 32 0))
      core.connection_pool
      (lookup_connected core ours theirs (replicate 32 0))
lookup_connected-Latest_example = lookup_connected-Latest core ours theirs (replicate 32 0)

used : (time : ℕ) → FreeIsClean lab (between ContextState.connected time)
unfolding is_vacant
used time = record { clean = λ e. absurd (ground arith) }

unused : FreeIsClean lab (zero_connection 128)
unused = record { clean = λ e. record { zeroes = refl } }

connection_init-Started_example :
    Started lab core ours theirs (connection_init lab core ours theirs)
connection_init-Started_example =
    connection_init-Started lab (omega arith) (omega arith) core ours theirs
      (also (used 3) (also (used 4) (also unused none_left)))

check_connection_liveliness-Lively_example :
    All (Lively 5) (check_connection_liveliness lab core).connection_pool
check_connection_liveliness-Lively_example = check_connection_liveliness-Lively lab core (
    also (record { no_wrap = omega arith })
      (also (record { no_wrap = omega arith }) (also (record { no_wrap = omega arith }) none_left)))

close_parallel_connections-AllFrom_example :
    AllFrom
      (NotParallel 1 (between ContextState.connected 4))
      0
      (close_parallel_connections lab core 1 (between ContextState.connected 4)).connection_pool
close_parallel_connections-AllFrom_example =
    close_parallel_connections-AllFrom lab core 1 (between ContextState.connected 4) refl

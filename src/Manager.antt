-- ===== src/Manager.antt =====
-- The connection manager (src/wish_connection_mgr.c): the check of each second for connections that
-- went silent, and the end of parallel connections. Times are uint32_t seconds.
pub mod Liveliness
pub mod Parallel
pub mod Check
use wish_c.Prelude.{
  ℕ, ◌+◌, ◌%◌, ◌^◌, Bool, true, false, not, ◌&&◌, List, [], ◌∷◌, length, same, ltb, leb, ◌==◌,
  if◌then◌else◌,
}
use wish_c.Connection.Types.{Connection, ContextState, World, Session}
use wish_c.Connection.Close.{is_connected, close_connection}
use wish_c.Connection.Cipher.{send_message}
use wish_c.Pool.{Core, is_between, sweep}

abbrev pub time_mod : ℕ
time_mod = 2 ^ 32

-- PING_INTERVAL, PING_TIMEOUT and CONNECTION_SETUP_TIMEOUT
abbrev pub ping_interval : ℕ
ping_interval = 10

abbrev pub ping_timeout : ℕ
ping_timeout = 40

abbrev pub connection_setup_timeout : ℕ
connection_setup_timeout = 40

-- The time is past so many seconds after the last input.
unfoldable pub silent_for : ℕ → World → Connection → Bool
silent_for n w c = ltb ((c.latest_input_timestamp + n) % time_mod) w.now

-- The document `{ ping: true }` in BSON.
abbrev pub ping : List ℕ
ping = 12 ∷ 0 ∷ 0 ∷ 0 ∷ 8 ∷ b'p' ∷ b'i' ∷ b'n' ∷ b'g' ∷ 0 ∷ 1 ∷ 0 ∷ []

send_ping : World → Session → Session
send_ping w s =
    let s' = (send_message w s ping).1 in
    record s' { conn = record (s'.conn) { ping_sent_timestamp = w.now } }

-- A connected context that was silent is pinged, once for each silence.
unfoldable pub ping_if_silent : World → Session → Session
unfolding send_ping
ping_if_silent w s =
    if silent_for ping_interval w s.conn
      && leb s.conn.ping_sent_timestamp s.conn.latest_input_timestamp
    then (send_ping w s)
    else s

-- It is closed when it stays silent after the ping.
unfoldable pub close_if_dead : World → Session → Session
close_if_dead w s =
    if silent_for ping_timeout w s.conn
      && ltb s.conn.latest_input_timestamp s.conn.ping_sent_timestamp
    then (close_connection w s)
    else s

-- A round of the loop, by the state of the context.
unfoldable pub check_context : ContextState → World → Session → Session
check_context ContextState.connected w s = close_if_dead w (ping_if_silent w s)
check_context ContextState.in_making w s =
    if silent_for connection_setup_timeout w s.conn then (close_connection w s) else s
check_context ContextState.closing w s = close_connection w s
check_context ContextState.free w s = s

-- `check_connection_liveliness`
unfoldable pub check_connection_liveliness : World → Core → Core
check_connection_liveliness w core =
    sweep (λ i w' s. check_context s.conn.context_state w' s) w core

-- A round of the loop of `wish_close_parallel_connections` for the connection with the index k.
close_parallel : ℕ → Connection → ℕ → World → Session → Session
close_parallel k conn i w s =
    if i == k
    then s
    else (if is_between conn.luid conn.ruid conn.rhid s.conn && is_connected s.conn.context_state
        then (close_connection w s)
        else s)

-- `wish_close_parallel_connections`, called with the connection of the index k.
unfoldable pub close_parallel_connections : World → Core → ℕ → Connection → Core
unfolding close_parallel
close_parallel_connections w core k conn =
    if is_connected conn.context_state then (sweep (close_parallel k conn) w core) else core

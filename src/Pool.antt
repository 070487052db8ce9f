-- ===== src/Pool.antt =====
-- The connection pool: `wish_connection_init`, the lookups and `wish_connections_close_all` of
-- src/wish_connection.c. A pointer into `core->connection_pool` is an index of the list; NULL is
-- `none`. A loop that calls a connection's function gives it the other contexts of the pool as they
-- are at that time.
pub mod Sweep
pub mod Lookup
pub mod Init
mod Tests
pub mod CloseAll
use wish_c.Prelude.{
  ℕ, zero, suc, ◌+◌, ◌-◌, ◌≤◌, get_or, Bool, true, false, not, ◌&&◌, ◌||◌, List, [], ◌∷◌, ◌++◌,
  Option, none, some, length, same, leb, ◌==◌, if◌then◌else◌,
}
use wish_c.RingBuffer.{Ring}
use wish_c.Connection.Types.{
  Connection, ContextState, TransportState, ProtocolState, Effect, World, Session,
}
use wish_c.Connection.Close.{is_connected, close_connection}

-- The part of `wish_core_t` that the pool uses, with what the connections have done.
pub record Core : Type 0 where
  pub connection_pool : List Connection
  pub next_conn_id : ℕ
  pub log : List Effect

abbrev pub is_free : ContextState → Bool
is_free ContextState.free = true
is_free _ = false

abbrev pub is_in_making : ContextState → Bool
is_in_making ContextState.in_making = true
is_in_making _ = false

-- A free context, taken into use.
unfoldable pub take_context : World → ℕ → List ℕ → List ℕ → Connection → Connection
take_context w id luid ruid c = record c {
  context_state = ContextState.in_making;
  latest_input_timestamp = w.now;
  connection_id = id;
  luid = luid;
  ruid = ruid;
  rx_ringbuf = record (c.rx_ringbuf) { max_len = w.rx_ringbuf_len };
  curr_transport_state = TransportState.initial;
  curr_protocol_state = ProtocolState.initial;
  apps = [];
}

-- The index of the first element that passes the test, `i` being that of the head.
unfoldable pub find_from : {A : Type 0} → (A → Bool) → List A → ℕ → Option ℕ
find_from test [] i = none
find_from test (x ∷ xs) i = if test x then (some i) else (find_from test xs (i + 1))

unfoldable pub find : {A : Type 0} → (A → Bool) → List A → Option ℕ
unfolding find_from
find test xs = find_from test xs 0

unfoldable pub update_at : {A : Type 0} → ℕ → (A → A) → List A → List A
update_at n f [] = []
update_at zero f (x ∷ xs) = f x ∷ xs
update_at (suc n) f (x ∷ xs) = x ∷ update_at n f xs

unfoldable pub is_vacant : Connection → Bool
is_vacant c = is_free c.context_state

-- The id is taken from a counter of type int, which is modelled as long as it does not overflow.
init_at : World → Core → List ℕ → List ℕ → Option ℕ → Option ℕ × Core
init_at w core luid ruid none = (none, core)
init_at w core luid ruid (some i) = (
  some i,
  record core {
    connection_pool = update_at i (take_context w core.next_conn_id luid ruid) core.connection_pool;
    next_conn_id = core.next_conn_id + 1;
  },
)

-- `wish_connection_init`
unfoldable pub connection_init : World → Core → List ℕ → List ℕ → Option ℕ × Core
unfolding init_at
connection_init w core luid ruid = init_at w core luid ruid (find is_vacant core.connection_pool)

-- `wish_core_lookup_ctx_by_connection_id`
unfoldable pub lookup_by_connection_id : Core → ℕ → Option ℕ
lookup_by_connection_id core id =
    find (λ (c : Connection). c.connection_id == id) core.connection_pool

-- The three ids are those of the connection.
unfoldable pub is_between : List ℕ → List ℕ → List ℕ → Connection → Bool
is_between luid ruid rhid c = same c.luid luid && (same c.ruid ruid && same c.rhid rhid)

-- `wish_core_lookup_ctx_by_luid_ruid_rhid`
unfoldable pub lookup_by_ids : Core → List ℕ → List ℕ → List ℕ → Option ℕ
lookup_by_ids core luid ruid rhid =
    find
      (λ (c : Connection).
        not (is_free c.context_state)
        && (is_between luid ruid rhid c && not c.friend_req_connection))
      core.connection_pool

-- The condition on which the connected lookup takes a context, but for the time.
unfoldable pub is_candidate : List ℕ → List ℕ → List ℕ → Connection → Bool
is_candidate luid ruid rhid c =
    not (is_free c.context_state)
    && (is_between luid ruid rhid c
        && (is_connected c.context_state && not c.friend_req_connection))

-- The loop of the connected lookup: `best` is `connection`, `latest` is `latest_input`.
latest_loop : (Connection → Bool) → List Connection → ℕ → Option ℕ → ℕ → Option ℕ
latest_loop test [] i best latest = best
latest_loop test (c ∷ rest) i best latest =
    if test c && leb latest c.latest_input_timestamp
    then (latest_loop test rest (i + 1) (some i) c.latest_input_timestamp)
    else (latest_loop test rest (i + 1) best latest)

-- `wish_core_lookup_connected_ctx_by_luid_ruid_rhid`
unfoldable pub lookup_connected : Core → List ℕ → List ℕ → List ℕ → Option ℕ
unfolding latest_loop
lookup_connected core luid ruid rhid =
    latest_loop (is_candidate luid ruid rhid) core.connection_pool 0 none 0

-- What `wish_core_is_connected_luid_ruid` makes of a state: an answer, or the search goes on.
abbrev pub counts : ContextState → Bool
counts ContextState.connected = true
counts ContextState.in_making = true
counts _ = false

is_connected_loop : List Connection → List ℕ → List ℕ → Bool
is_connected_loop [] luid ruid = false
is_connected_loop (c ∷ rest) luid ruid =
    if is_free c.context_state || c.friend_req_connection
    then (is_connected_loop rest luid ruid)
    else (if same c.luid luid && same c.ruid ruid
        then (if counts c.context_state then true else (is_connected_loop rest luid ruid))
        else (is_connected_loop rest luid ruid))

-- `wish_core_is_connected_luid_ruid`
unfoldable pub is_connected_luid_ruid : Core → List ℕ → List ℕ → Bool
unfolding is_connected_loop
is_connected_luid_ruid core luid ruid = is_connected_loop core.connection_pool luid ruid

-- The inner loop over the four bytes of an address: `continue` there goes on with the next byte.
address_loop : ℕ → List ℕ → List ℕ → List ℕ → List ℕ → Bool
address_loop zero remote rmt_ip local local_ip = true
address_loop (suc n) remote rmt_ip local local_ip =
    if get_or remote (4 - suc n) 0 == get_or rmt_ip (4 - suc n) 0
    then (if get_or local (4 - suc n) 0 == get_or local_ip (4 - suc n) 0
        then (address_loop n remote rmt_ip local local_ip)
        else (address_loop n remote rmt_ip local local_ip))
    else (address_loop n remote rmt_ip local local_ip)

-- `wish_identify_context`
unfoldable pub identify_context : Core → List ℕ → ℕ → List ℕ → ℕ → Option ℕ
unfolding address_loop
identify_context core rmt_ip rmt_port local_ip local_port =
    find
      (λ (c : Connection).
        (c.local_port == local_port)
        && ((c.remote_port == rmt_port)
            && address_loop 4 c.remote_ip_addr rmt_ip c.local_ip_addr local_ip))
      core.connection_pool

-- A function of a connection on each context of the pool in turn, with its index: `done` are those
-- before it.
sweep_loop :
    (ℕ → World → Session → Session)
    → World
    → List Connection
    → List Connection
    → List Effect
    → List Connection × List Effect
sweep_loop f w done [] log = (done, log)
sweep_loop f w done (c ∷ rest) log =
    let s = f (length done) (record w { others = done ++ rest }) (record { conn = c; log = log }) in
    sweep_loop f w (done ++ s.conn ∷ []) rest s.log

unfoldable pub sweep : (ℕ → World → Session → Session) → World → Core → Core
unfolding sweep_loop
sweep f w core =
    let r = sweep_loop f w [] core.connection_pool core.log in
    record core { connection_pool = r.0; log = r.1 }

-- A round of the loop of `wish_connections_close_all`.
pub close_if_open : ContextState → World → Session → Session
close_if_open ContextState.in_making w s = close_connection w s
close_if_open ContextState.connected w s = close_connection w s
close_if_open ContextState.free w s = s
close_if_open ContextState.closing w s = s

-- `wish_connections_close_all`
unfoldable pub connections_close_all : World → Core → Core
unfolding close_if_open
connections_close_all w core = sweep (λ i w' s. close_if_open s.conn.context_state w' s) w core

-- ===== src/Relay.antt =====
-- The relay client (src/wish_relay_client.c, src/wish_relay_client.h) with the socket functions of its
-- unix port (port/unix/relay_client.c).
pub mod Edges
pub mod Recovery
pub mod Again
pub mod Servers
mod Tests
use wish_c.Prelude.{
  ℕ, zero, suc, ◌+◌, ◌%◌, ◌^◌, Bool, true, false, ◌&&◌, ◌||◌, List, [], ◌∷◌, ◌++◌, Option, none,
  some, take, length, replicate, same, ltb, leb, ◌==◌, if◌then◌else◌,
}
use wish_c.RingBuffer.{Ring, init, data_length, read, write}
use wish_c.Connection.Types.{Connection, World, wish_id_len}
use wish_c.Pool.{Core, connection_init, update_at}
use wish_c.Address.{
  HostPort, no_colon, negative_length, host_port, parse_transport_host_port, parse_transport_ip,
}

-- `enum wish_relay_client_state`
pub data RelayState : Type 0 where
  initial resolving connecting opened read_session_id wait closing wait_reconnect : RelayState

-- `wish_relay_client_t`. The socket is `none` where it is -1.
pub record Relay : Type 0 where
  pub sockfd : Option ℕ
  pub uid : List ℕ
  pub session_id : List ℕ
  pub curr_state : RelayState
  pub rx_ringbuf : Ring
  pub host : List ℕ
  pub port : ℕ
  pub last_input_timestamp : ℕ

abbrev pub host_max_len : ℕ
host_max_len = 64

abbrev pub rx_rb_len : ℕ
rx_rb_len = 64

abbrev pub session_id_len : ℕ
session_id_len = 10

abbrev pub server_timeout : ℕ
server_timeout = 45

abbrev pub reconnect_timeout : ℕ
reconnect_timeout = 10

abbrev pub connect_timeout : ℕ
connect_timeout = 30

-- What the client asks of the rest: its socket, the resolver, `wish_connections_check`, and the
-- opening of the connection with this index of the pool.
pub data Action : Type 0 where
  sent : List ℕ → Action
  socket_closed : Option ℕ → Action
  resolver_started resolver_cancelled : List ℕ → Action
  connections_checked : Action
  connection_opened : ℕ → List ℕ → ℕ → Action
  connection_resolved : ℕ → List ℕ → ℕ → Action

-- What `connect` returns at once.
pub data Connect : Type 0 where
  in_progress connected failed : Connect

-- The world around the client: the core's, `atoi`, `socket` and `connect`.
pub record Net : Type 0 where
  pub world : World
  pub atoi : List ℕ → ℕ
  pub socket : Option ℕ
  pub connect : List ℕ → ℕ → Connect

-- A relay client with the pool and what was asked so far.
pub record Client : Type 0 where
  pub relay : Relay
  pub core : Core
  pub actions : List Action

abbrev pub act : Client → Action → Client
act s a = record s { actions = s.actions ++ a ∷ [] }

abbrev pub in_state : Client → RelayState → Client
in_state s state = record s { relay = record (s.relay) { curr_state = state } }

-- `relay_ctrl_connected_cb`
unfoldable pub connected_cb : Net → Client → Client
connected_cb net s = record s {
  relay = record (s.relay) { curr_state = opened; last_input_timestamp = net.world.now };
}

-- `relay_ctrl_connect_fail_cb` and `relay_ctrl_disconnect_cb`, which are alike
unfoldable pub disconnect_cb : Net → Client → Client
disconnect_cb net s = record s {
  relay = record (s.relay) { curr_state = wait_reconnect; last_input_timestamp = net.world.now };
}

unfoldable pub after_connect : Client → Connect → Client
after_connect s in_progress = s
after_connect s connected = s
after_connect s failed = in_state s wait_reconnect

unfoldable pub after_socket : Net → Client → List ℕ → Option ℕ → Client
unfolding after_connect
after_socket net s ip none = in_state s wait_reconnect
after_socket net s ip (some fd) = after_connect s (net.connect ip s.relay.port)

-- `port_relay_client_open`. Without a socket, `connect` fails.
unfoldable pub port_open : Net → Client → List ℕ → Client
unfolding after_socket
port_open net s ip =
    after_socket net
      (record s { relay = record (s.relay) { curr_state = connecting; sockfd = net.socket } }) ip
      net.socket

unfoldable pub open_host : Net → Client → Option (List ℕ) → Client
open_host net s none = act (in_state s resolving) (resolver_started s.relay.host)
open_host net s (some ip) = port_open net s ip

-- `wish_relay_client_open`
unfoldable pub client_open : Net → Client → List ℕ → Client
unfolding open_host
client_open net s uid =
    open_host net
      (record s {
        relay = record (s.relay) {
          rx_ringbuf = init s.relay.rx_ringbuf (s.relay.rx_ringbuf.memory) rx_rb_len;
          uid = uid;
        };
      })
      (parse_transport_ip net.atoi s.relay.host)

unfoldable pub cleanup : Client → RelayState → Client
cleanup s resolving = act s (resolver_cancelled s.relay.host)
cleanup s connecting = act s (socket_closed s.relay.sockfd)
cleanup s opened = act s (socket_closed s.relay.sockfd)
cleanup s read_session_id = act s (socket_closed s.relay.sockfd)
cleanup s wait = act s (socket_closed s.relay.sockfd)
cleanup s wait_reconnect = s
cleanup s initial = s
cleanup s closing = s

-- `wish_relay_client_close`
unfoldable pub client_close : Net → Client → Client
unfolding cleanup
client_close net s = disconnect_cb net (cleanup s s.relay.curr_state)

-- "W.", version 1 and type 6.
abbrev pub preamble : List ℕ
preamble = b'W' ∷ (b'.' ∷ (22 ∷ []))

send_handshake : Client → Client
send_handshake s =
    in_state (act s (sent (preamble ++ take wish_id_len s.relay.uid))) read_session_id

take_session_id : Client → Client
take_session_id s =
    if leb session_id_len (data_length s.relay.rx_ringbuf)
    then (let r = read s.relay.rx_ringbuf session_id_len in
        act
          (record s {
            relay = record (s.relay) { session_id = r.1; rx_ringbuf = r.2; curr_state = wait };
          })
          connections_checked)
    else s

unfoldable pub null_id : List ℕ
null_id = replicate wish_id_len 0

unfoldable pub open_to : Net → Client → ℕ → Option (List ℕ) → Client
open_to net s i (some ip) = act s (connection_opened i ip s.relay.port)
open_to net s i none = act s (connection_resolved i s.relay.host s.relay.port)

via_this : Relay → Connection → Connection
via_this relay c = record c { relay = some relay.session_id; via_relay = true }

-- A connection for a peer that came to the relay, if the pool has a free context: the flag says so.
unfoldable pub accept : Net → Client → Option ℕ × Core → Bool × Client
unfolding open_to via_this
accept net s (none, core) = (false, record s { core = core })
accept net s (some i, core) = (
  true,
  open_to net
      (record s {
        core = record core {
          connection_pool = update_at i (via_this s.relay) core.connection_pool;
        };
      })
      i (parse_transport_ip net.atoi s.relay.host),
)

-- What one byte from the server means; the flag is `goto again`.
unfoldable pub on_byte : Net → Client → List ℕ → Bool × Client
unfolding null_id
on_byte net s [] = (false, s)
on_byte net s (byte ∷ rest) =
    if byte == b'.'
    then (false, s)
    else if byte == b':'
    then accept net s (connection_init net.world s.core null_id null_id)
    else (false, s)

-- A round in WAIT.
unfoldable pub wait_round : Net → Client → Bool × Client
wait_round net s =
    if leb 1 (data_length s.relay.rx_ringbuf)
    then (let r = read s.relay.rx_ringbuf 1 in
        on_byte net (record s { relay = record (s.relay) { rx_ringbuf = r.2 } }) r.1)
    else (false, s)

-- `goto again`, on fuel: the state is still WAIT then.
unfoldable pub wait_again : ℕ → Net → Client → Client
wait_again zero net s = s
wait_again (suc fuel) net s =
    let rest = wait_again fuel net (wait_round net s).1 in
    if (wait_round net s).0 then rest else (wait_round net s).1

-- `wish_relay_client_periodic`, by the state. Each round takes a byte.
unfoldable pub periodic_in : RelayState → Net → Client → Client
unfolding send_handshake take_session_id
periodic_in opened net s = send_handshake s
periodic_in read_session_id net s = take_session_id s
periodic_in wait net s = wait_again (data_length s.relay.rx_ringbuf) net s
periodic_in initial net s = s
periodic_in resolving net s = s
periodic_in connecting net s = s
periodic_in closing net s = s
periodic_in wait_reconnect net s = s

unfoldable pub client_periodic : Net → Client → Client
client_periodic net s = periodic_in s.relay.curr_state net s

-- `wish_relay_client_feed`
unfoldable pub client_feed : Net → Client → List ℕ → Client
client_feed net s bytes = record s {
  relay = record (s.relay) {
    rx_ringbuf = (write s.relay.rx_ringbuf bytes).1;
    last_input_timestamp = net.world.now;
  };
}

-- The time is past so many seconds after the last input.
unfoldable pub overdue : Net → Relay → ℕ → Bool
overdue net relay seconds = ltb ((relay.last_input_timestamp + seconds) % 2 ^ 32) net.world.now

unfoldable pub open_first : Net → Client → List (List ℕ) → Client
open_first net s [] = s
open_first net s (uid ∷ uids) = client_open net s uid

-- A round of the loop of `wish_core_relay_periodic`, by the state; `uid_list` is the core's.
unfoldable pub tick_in : RelayState → Net → List (List ℕ) → Client → Client
unfolding open_first
tick_in connecting net uid_list s =
    if overdue net s.relay connect_timeout then client_close net s else s
tick_in initial net uid_list s = open_first net s uid_list
tick_in wait_reconnect net uid_list s =
    if overdue net s.relay reconnect_timeout then in_state s initial else s
tick_in wait net uid_list s =
    if overdue net s.relay server_timeout then client_close net s else client_periodic net s
tick_in resolving net uid_list s = s
tick_in opened net uid_list s = s
tick_in read_session_id net uid_list s = s
tick_in closing net uid_list s = s

unfoldable pub tick : Net → List (List ℕ) → Client → Client
tick net uid_list s = tick_in s.relay.curr_state net uid_list s

-- `wish_core_relay_periodic`: the clients share the pool.
unfoldable pub relay_periodic :
    Net → List (List ℕ) → List Relay → Core → List Relay × Core × List Action
relay_periodic net uid_list [] core = ([], core, [])
relay_periodic net uid_list (relay ∷ relays) core =
    let s = tick net uid_list (record { relay = relay; core = core; actions = [] }) in
    let rest = relay_periodic net uid_list relays s.core in
    (s.relay ∷ rest.0, rest.1, s.actions ++ rest.2)

-- `strncmp` of the hosts, and the ports.
unfoldable pub is_server : List ℕ → ℕ → Relay → Bool
is_server host port relay = same relay.host host && relay.port == port

-- A zeroed client of a server; RELAY_SERVER_HOST_MAX_LEN is the room for the host.
unfoldable pub new_relay : List ℕ → ℕ → Relay
new_relay host port = record {
  sockfd = some 0;
  uid = replicate wish_id_len 0;
  session_id = replicate session_id_len 0;
  curr_state = initial;
  rx_ringbuf = record {
    read_at = 0;
    write_at = 0;
    data_len = 0;
    max_len = 0;
    state = 0;
    memory = replicate rx_rb_len 0;
  };
  host = host;
  port = port;
  last_input_timestamp = 0;
}

unfoldable pub is_known : List ℕ → ℕ → List Relay → Bool
is_known host port [] = false
is_known host port (relay ∷ relays) = is_server host port relay || is_known host port relays

unfoldable pub add_parsed : List Relay → HostPort → List Relay
add_parsed relays no_colon = relays
add_parsed relays negative_length = relays
add_parsed relays (host_port host none) = relays
add_parsed relays (host_port host (some port)) =
    if is_known host port relays then relays else relays ++ new_relay host port ∷ []

-- `wish_relay_client_add`, where there is memory, for a host that has room.
unfoldable pub client_add : (List ℕ → ℕ) → List Relay → List ℕ → List Relay
client_add atoi relays host = add_parsed relays (parse_transport_host_port atoi host)

-- "193.65.54.131:40000"
abbrev pub server_host : List ℕ
server_host =
    b'1'
    ∷ (b'9'
        ∷ (b'3'
            ∷ (b'.'
                ∷ (b'6'
                    ∷ (b'5'
                        ∷ (b'.'
                            ∷ (b'5'
                                ∷ (b'4'
                                    ∷ (b'.'
                                        ∷ (b'1'
                                            ∷ (b'3'
                                                ∷ (b'1'
                                                    ∷ (b':'
                                                        ∷ (b'4'
                                                            ∷ (b'0'
                                                            ∷ (b'0'
                                                            ∷ (b'0' ∷ (b'0' ∷ []))))))))))))))))))

-- `wish_core_relay_client_init`
unfoldable pub relay_init : (List ℕ → ℕ) → List Relay → List Relay
relay_init atoi relays = if length relays == 0 then client_add atoi relays server_host else relays

-- ===== src/Connection/Transport.antt =====
-- `wish_core_feed`, `wish_core_process_data` and `wish_core_signal_tcp_event` of
-- src/wish_connection.c. The loop of `goto again` takes fuel, and has no
-- result when it runs out.
pub mod Rounds
pub mod Framing
use wish_c.Prelude.{
  ℕ, zero, suc, ◌+◌, ◌*◌, ◌≤◌, Bool, true, false, List, [], ◌∷◌, ◌++◌, Option, none, some, leb, ltb,
  length, get_or, if◌then◌else◌,
}
use wish_c.RingBuffer
use wish_c.Connection.Types.{
  Connection, TransportState, ProtocolState, TcpEvent, Effect, World, Session,
}
use wish_c.Connection.Close.{emit, disconnected, close_connection}
use wish_c.Connection.Handshake.{handle_payload}
use wish_c.Connection.Hello.{preamble, client_hello, wire_type_relay_session, server_wait_initial}

-- `wish_core_register_send`: the socket is the argument of the send function.
pub register_send : Session → ℕ → Session
register_send s fd = record s { conn = record (s.conn) { send = some fd } }

-- `wish_core_get_rx_buffer_free`
pub get_rx_buffer_free : Connection → ℕ
get_rx_buffer_free conn = RingBuffer.space conn.rx_ringbuf

-- The bytes fit, or the connection is closed.
unfoldable pub feed : World → Session → List ℕ → Session
feed w s bytes =
    if leb (length bytes) (RingBuffer.space s.conn.rx_ringbuf)
    then record s {
      conn = record (s.conn) {
        rx_ringbuf = (RingBuffer.write s.conn.rx_ringbuf bytes).1;
        latest_input_timestamp = w.now;
      };
    }
    else (close_connection w s)

abbrev pub set_transport : TransportState → Session → Session
set_transport t s = record s { conn = record (s.conn) { curr_transport_state = t } }

-- The two bytes of a frame's length are read.
expect_payload : Session → Session
expect_payload s =
    let r = RingBuffer.read s.conn.rx_ringbuf 2 in
    record s {
      conn = record (s.conn) {
        rx_ringbuf = r.2;
        expect_bytes = get_or r.1 0 0 * 256 + get_or r.1 1 0;
        curr_transport_state = TransportState.wait_payload;
      };
    }

-- TRANSPORT_STATE_WAIT_FRAME_LEN, before `again`.
wait_frame_len : (Session → Option Session) → Session → Option Session
unfolding expect_payload
wait_frame_len again s =
    let s' = expect_payload s in
    let rest = again s' in
    if leb 2 (RingBuffer.data_length s.conn.rx_ringbuf)
    then (if leb s'.conn.expect_bytes (RingBuffer.data_length s'.conn.rx_ringbuf)
        then rest
        else (some s'))
    else (some s)

-- The payload is taken out and handled, and the next frame is awaited, also when handling it has
-- closed the connection.
take_payload : World → Session → Session
take_payload w s =
    let r = RingBuffer.read s.conn.rx_ringbuf s.conn.expect_bytes in
    set_transport TransportState.wait_frame_len
      (handle_payload w (record s { conn = record (s.conn) { rx_ringbuf = r.2 } }) r.1)

-- TRANSPORT_STATE_WAIT_PAYLOAD, before `again`. Without memory the payload stays where it is.
wait_payload : World → (Session → Option Session) → Session → Option Session
unfolding take_payload
wait_payload w again s =
    let s' = take_payload w s in
    let rest = again s' in
    if leb s.conn.expect_bytes (RingBuffer.data_length s.conn.rx_ringbuf)
    then (if w.alloc_ok s.conn.expect_bytes
        then (if leb 2 (RingBuffer.data_length s'.conn.rx_ringbuf) then rest else (some s'))
        else (some s))
    else (some s)

session_id : Connection → List ℕ
session_id conn = elim conn.relay [ none ↦ [] | some id ↦ id ]

-- TRANSPORT_STATE_RELAY_CLIENT_SEND_SESSION_ID
send_session_id : Session → Session
unfolding session_id
send_session_id s =
    set_transport TransportState.server_wait_initial
      (emit (Effect.sent (preamble wire_type_relay_session ++ session_id s.conn)) s)

step : TransportState → World → (Session → Option Session) → Session → Option Session
step TransportState.wait_frame_len w again s = wait_frame_len again s
step TransportState.wait_payload w again s = wait_payload w again s
step TransportState.server_wait_initial w again s = some (server_wait_initial w s)
step TransportState.relay_client_send_session_id w again s = again (send_session_id s)
step TransportState.initial w again s = some s
step TransportState.connecting w again s = some s
step TransportState.resolving w again s = some s

pub process : ℕ → World → Session → Option Session
process zero w s = none
process (suc fuel) w s = step s.conn.curr_transport_state w (process fuel w) s

-- Each round but those of two states takes bytes out of the buffer.
abbrev pub enough_fuel : Session → ℕ
enough_fuel s = 2 * s.conn.rx_ringbuf.data_len + 4

abbrev pub finished : Session → Option Session → Session
finished s none = s
finished s (some t) = t

unfoldable pub process_data : World → Session → Session
unfolding process step wait_frame_len wait_payload send_session_id
process_data w s = finished s (process (enough_fuel s) w s)

connected : World → Session → Session
connected w s =
    let conn' = record (s.conn) {
      outgoing = true;
      curr_transport_state = TransportState.wait_frame_len;
      curr_protocol_state = ProtocolState.dh;
    } in
    emit (Effect.sent (client_hello s.conn)) (record s { conn = conn' })

client_connected : Session → Session
client_connected s =
    set_transport TransportState.server_wait_initial
      (record s { conn = record (s.conn) { outgoing = false } })

unfoldable pub signal_tcp_event : World → Session → TcpEvent → Session
unfolding connected client_connected
signal_tcp_event w s TcpEvent.tcp_connected = connected w s
signal_tcp_event w s TcpEvent.tcp_client_disconnected = disconnected w s
signal_tcp_event w s TcpEvent.tcp_disconnected = disconnected w s
signal_tcp_event w s TcpEvent.tcp_client_connected = client_connected s
signal_tcp_event w s TcpEvent.tcp_relay_session_connected =
    process_data w (set_transport TransportState.relay_client_send_session_id s)

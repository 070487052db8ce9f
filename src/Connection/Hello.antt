-- ===== src/Connection/Hello.antt =====
-- The client's hello of 67 bytes (src/wish_connection.c): how it is written on TCP_CONNECTED, and
-- TRANSPORT_STATE_SERVER_WAIT_INITIAL, which reads it.
pub mod RoundTrip
use wish_c.Prelude.{
  ℕ, ◌+◌, ◌*◌, ◌/◌, ◌%◌, ◌≤◌, Bool, true, false, List, [], ◌∷◌, ◌++◌, Option, none, some, ◌&&◌, ltb,
  leb, get_or, ◌==◌, if◌then◌else◌,
}
use wish_c.RingBuffer
use wish_c.Connection.Types.{
  Connection, ContextState, TransportState, ProtocolState, Effect, World, Session, wish_id_len,
}
use wish_c.Connection.Close.{emit, close_connection}
use wish_c.Connection.Handshake.Secrets.{or_close, public_frame, slice}

-- WISH_WIRE_VERSION, WISH_WIRE_TYPE_NORMAL, WISH_WIRE_TYPE_FRIEND_REQ, WISH_WIRE_TYPE_RELAY_SESSION
abbrev pub wire_version : ℕ
wire_version = 1

abbrev pub wire_type_normal : ℕ
wire_type_normal = 1

abbrev pub wire_type_friend_req : ℕ
wire_type_friend_req = 3

abbrev pub wire_type_relay_session : ℕ
wire_type_relay_session = 7

-- WISH_CLIENT_HELLO_LEN
abbrev pub client_hello_len : ℕ
client_hello_len = 67

-- The start of a connection of the given type: 'W', '.', version and type.
abbrev pub preamble : ℕ → List ℕ
preamble wire_type = b'W' ∷ b'.' ∷ (wire_version * 16 + wire_type) ∷ []

-- What TCP_CONNECTED sends: the destination's id, then the source's.
unfoldable pub client_hello : Connection → List ℕ
client_hello conn =
    preamble (if conn.friend_req_connection then wire_type_friend_req else wire_type_normal)
    ++ (conn.ruid ++ conn.luid)

abbrev is_some : {A : Type 0} → Option A → Bool
is_some none = false
is_some (some a) = true

-- `wish_core_check_wsid`: both ends are known, and we hold our own private key.
unfoldable pub check_wsid : World → List ℕ → List ℕ → Bool
check_wsid w dst_id src_id = w.knows src_id && (w.knows dst_id && is_some (w.load_privkey dst_id))

-- The public value is sent, and the client's is awaited.
send_public : World → Session → List ℕ × List ℕ → Session
send_public w s (ctx, public_value) =
    let s' = emit (Effect.sent (public_frame public_value)) s in
    record s' {
      conn = record (s'.conn) {
        server_dhm_ctx = some ctx;
        curr_transport_state = TransportState.wait_frame_len;
        curr_protocol_state = ProtocolState.server_dh;
      };
    }

-- Step 4 of the server: the Diffie-Hellman exchange is started.
pub start_exchange : World → Session → Session
unfolding send_public
start_exchange w s =
    if w.alloc_ok w.dhm_ctx_len
    then (let s' = record s { conn = record (s.conn) { server_dhm_ctx = some w.dhm_init } } in
        or_close w s' (w.mpi_read_p w.dhm_init) λ ctx.
          or_close w s' (w.mpi_read_g ctx)
            λ group. or_close w s' (w.dhm_make_public group) (send_public w s'))
    else (close_connection w s)

-- Step 3 of the server: the ids of a normal connection are checked, and stored.
accept_ids : World → Session → List ℕ → List ℕ → Session
unfolding start_exchange
accept_ids w s dst_id src_id =
    let s' = record s { conn = record (s.conn) { luid = dst_id; ruid = src_id } } in
    if s.conn.friend_req_connection
    then start_exchange w s'
    else (if check_wsid w dst_id src_id then start_exchange w s' else (close_connection w s))

-- Step 2 of the server: the preamble decides.
read_hello : World → Session → List ℕ → Session
unfolding accept_ids
read_hello w s buf =
    let kind = get_or buf 2 0 % 16 in
    let dst_id = slice buf 3 wish_id_len in
    let src_id = slice buf 35 wish_id_len in
    if (get_or buf 0 0 == b'W')
      && ((get_or buf 1 0 == b'.') && (get_or buf 2 0 / 16 % 16 == wire_version))
    then (if kind == wire_type_normal
        then (accept_ids w s dst_id src_id)
        else (if kind == wire_type_friend_req
            then (accept_ids w
                (record s { conn = record (s.conn) { friend_req_connection = true } }) dst_id
                src_id)
            else (close_connection w s)))
    else (close_connection w s)

-- TRANSPORT_STATE_SERVER_WAIT_INITIAL
unfoldable pub server_wait_initial : World → Session → Session
unfolding read_hello
server_wait_initial w s =
    if leb client_hello_len (RingBuffer.data_length s.conn.rx_ringbuf)
    then (let r = RingBuffer.read s.conn.rx_ringbuf client_hello_len in
        read_hello w (record s { conn = record (s.conn) { rx_ringbuf = r.2 } }) r.1)
    else s

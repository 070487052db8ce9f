-- ===== src/Connection/Close.antt =====
-- The end of a connection: TCP_DISCONNECTED of `wish_core_signal_tcp_event`
-- (src/wish_connection.c) and `wish_close_connection` (port/unix/app.c).
use wish_c.Prelude.{
  Bool, true, false, List, [], ◌∷◌, ◌++◌, none, some, ◌&&◌, ◌||◌, same, if◌then◌else◌,
}
use wish_c.Connection.Types.{
  Connection, ContextState, TransportState, ProtocolState, Effect, World, Session, zero_connection,
}

abbrev pub emit : Effect → Session → Session
emit e s = record s { log = s.log ++ e ∷ [] }

abbrev pub is_connected : ContextState → Bool
is_connected ContextState.connected = true
is_connected _ = false

abbrev pub is_server_dh : ProtocolState → Bool
is_server_dh ProtocolState.server_dh = true
is_server_dh _ = false

abbrev pub is_resolving : TransportState → Bool
is_resolving TransportState.resolving = true
is_resolving _ = false

-- Another connected context has the same local and remote identity.
pub other_connection_found : Connection → List Connection → Bool
other_connection_found conn [] = false
other_connection_found conn (other ∷ others) =
    (same other.luid conn.luid && same other.ruid conn.ruid && is_connected other.context_state)
    || other_connection_found conn others

-- Our own friend request was not answered while its connection stood.
unfoldable pub friend_request_ended : World → Session → Session
friend_request_ended w s =
    if s.conn.friend_req_connection
      && s.conn.outgoing
      && w.knows s.conn.ruid
      && w.unconfirmed_friend_request s.conn.ruid
    then emit (Effect.meta_connect_removed s.conn.ruid) s
    else s

unfoldable pub free_dhm : Session → Session
free_dhm s =
    if is_server_dh s.conn.curr_protocol_state
    then (elim s.conn.server_dhm_ctx [ none ↦ s | some ctx ↦ emit (Effect.dhm_freed ctx) s ])
    else s

-- TCP_DISCONNECTED. The list of apps and the friend request's metadata are freed with the rest; the
-- transport state is the one field that is not zero in the end.
unfoldable pub disconnected : World → Session → Session
unfolding friend_request_ended free_dhm
disconnected w s =
    let offline =
      if other_connection_found s.conn w.others
      then s
      else (emit (Effect.offline_signal_to_apps s.conn) s) in
    let cleaned = free_dhm (emit Effect.rpc_requests_dropped (friend_request_ended w offline)) in
    emit (Effect.signal "connections") (record cleaned {
      conn = record (zero_connection w.rx_ringbuf_len) {
        curr_transport_state = TransportState.wait_frame_len;
      };
    })

unfoldable pub close_socket : Session → Session
close_socket s =
    if is_resolving s.conn.curr_transport_state
    then (emit Effect.resolver_cancelled s)
    else (elim s.conn.send [ none ↦ s | some fd ↦ emit (Effect.socket_closed fd) s ])

unfoldable pub close_connection : World → Session → Session
unfolding close_socket disconnected
close_connection w s =
    let shut = close_socket s in
    disconnected w
      (record shut { conn = record (shut.conn) { context_state = ContextState.closing } })

-- ===== src/Connection/Handshake/Moves.antt =====
-- `wish_core_handle_payload` (src/wish_connection.c) as a state machine.
use wish_c.Prelude.{ℕ, ◌≡◌, refl, List}
use wish_c.Connection.Types.{ProtocolState, World, Session}
use wish_c.Connection.Handshake.{dispatch, handle_payload}
use wish_c.Connection.Handshake.Outcome.{Outcome, left_kept, Keeps-refl}
use wish_c.Connection.Handshake.Client.Moves.{
  handle_dh-Outcome, handle_id_verify-Outcome, handle_wish_handshake-Outcome,
}
use wish_c.Connection.Handshake.Server.Moves.{
  handle_server_dh-Outcome, handle_verify_client-Outcome, handle_send_handshake-Outcome,
  handle_read_reply-Outcome, handle_running-Outcome,
}

module _ (w : World) (s : Session) (p : List ℕ) where
  dispatch-Outcome :
      (q : ProtocolState) → s.conn.curr_protocol_state ≡ q → Outcome w s.conn (dispatch q w s p)
  unfolding dispatch
  dispatch-Outcome ProtocolState.dh e = handle_dh-Outcome w s p e
  dispatch-Outcome ProtocolState.id_verify_send_client_hash e = handle_id_verify-Outcome w s p e
  dispatch-Outcome ProtocolState.wish_handshake e = handle_wish_handshake-Outcome w s p e
  dispatch-Outcome ProtocolState.wish_running e = handle_running-Outcome w s p e
  dispatch-Outcome ProtocolState.server_dh e = handle_server_dh-Outcome w s p e
  dispatch-Outcome ProtocolState.server_verify_client_hash e = handle_verify_client-Outcome w s p e
  dispatch-Outcome ProtocolState.server_wish_send_handshake e = handle_send_handshake-Outcome w s e
  dispatch-Outcome ProtocolState.server_wish_handshake_read_reply e =
      handle_read_reply-Outcome w s p e
  dispatch-Outcome ProtocolState.initial e = left_kept w s.conn s (Keeps-refl s)
  dispatch-Outcome ProtocolState.id_verify_server_hash e = left_kept w s.conn s (Keeps-refl s)

  -- Handling a payload, in any state of the protocol and whatever the peer sent, either leaves the
  -- context closed (zeroes, with the transport waiting for a frame), or makes at most one move of
  -- the protocol and keeps the unread input, the kind of the connection and the peer's identity; only
  -- a friend request connection in the running state may get another peer, from the request on it.
  pub handle_payload-Outcome : Outcome w s.conn (handle_payload w s p)
  unfolding handle_payload
  handle_payload-Outcome = dispatch-Outcome s.conn.curr_protocol_state refl

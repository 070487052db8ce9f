-- ===== src/Connection/Handshake.antt =====
-- `wish_core_handle_payload` of src/wish_connection.c: the case of each protocol state is a function
-- of a child.
pub mod Secrets
pub mod Outcome
pub mod Client
pub mod Server
pub mod Moves
pub mod Authentication
use wish_c.Prelude.{ℕ, List}
use wish_c.Connection.Types.{ProtocolState, World, Session}
use Client.{handle_dh, handle_id_verify, handle_wish_handshake}
use Server.{
  handle_server_dh, handle_verify_client, handle_send_handshake, handle_read_reply, handle_running,
}

dispatch : ProtocolState → World → Session → List ℕ → Session
dispatch ProtocolState.dh w s payload = handle_dh w s payload
dispatch ProtocolState.id_verify_send_client_hash w s payload = handle_id_verify w s payload
dispatch ProtocolState.wish_handshake w s payload = handle_wish_handshake w s payload
dispatch ProtocolState.wish_running w s payload = handle_running w s payload
dispatch ProtocolState.server_dh w s payload = handle_server_dh w s payload
dispatch ProtocolState.server_verify_client_hash w s payload = handle_verify_client w s payload
dispatch ProtocolState.server_wish_send_handshake w s payload = handle_send_handshake w s
dispatch ProtocolState.server_wish_handshake_read_reply w s payload = handle_read_reply w s payload
dispatch ProtocolState.initial w s payload = s
dispatch ProtocolState.id_verify_server_hash w s payload = s

unfoldable pub handle_payload : World → Session → List ℕ → Session
unfolding dispatch
handle_payload w s payload = dispatch s.conn.curr_protocol_state w s payload

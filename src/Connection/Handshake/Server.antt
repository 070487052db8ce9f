-- ===== src/Connection/Handshake/Server.antt =====
-- The states of `wish_core_handle_payload` (src/wish_connection.c) in which the end that accepted
-- the connection may be, and PROTO_STATE_WISH_RUNNING, which both reach.
pub mod Moves
use wish_c.Prelude.{
  ℕ, ◌+◌, ◌-◌, ◌%◌, Bool, true, false, List, [], ◌∷◌, ◌++◌, Option, none, some, length, ◌==◌,
  if◌then◌else◌,
}
use wish_c.Connection.Types.{
  Connection, ContextState, ProtocolState, Effect, Request, reply, close, identify, World, Session,
  signature_len, wish_id_len, auth_tag_len,
}
use wish_c.Connection.Close.{emit, close_connection}
use wish_c.Connection.Cipher.{send_message, decrypt, size_mod}
use wish_c.Connection.Handshake.Secrets.{
  or_close, build_client_and_server_hashes, server_keys, set_protocol,
}
use wish_c.Connection.Handshake.Client.{check_peer}

abbrev set_dhm : Option (List ℕ) → Session → Session
set_dhm ctx s = record s { conn = record (s.conn) { server_dhm_ctx = ctx } }

-- The secret is there: take the keys, drop the context, and prove who we are.
server_secret : World → Session → List ℕ → List ℕ → Session
server_secret w s ctx secret =
    let s' = emit (Effect.dhm_freed ctx) (
      set_dhm none (record s {
        conn = build_client_and_server_hashes w (server_keys s.conn secret) secret;
      })) in
    or_close w s' (w.load_privkey s'.conn.luid) λ privkey.
      set_protocol ProtocolState.server_verify_client_hash
        (send_message w s' (w.sign s'.conn.server_hash privkey)).1

-- A public value that cannot be read is only logged: the secret is derived all the same.
server_exchange : World → Session → Bool × List ℕ → Session
unfolding server_secret
server_exchange w s (ok, ctx) =
    or_close w (set_dhm (some ctx) s) (w.dhm_calc_secret ctx) (server_secret w s ctx)

-- PROTO_SERVER_STATE_DH. The context was made when the client's hello was read.
unfoldable pub handle_server_dh : World → Session → List ℕ → Session
unfolding server_exchange
handle_server_dh w s payload = elim s.conn.server_dhm_ctx [
  | none ↦ s
  | some ctx ↦ server_exchange w s (w.dhm_read_public ctx payload)
]

-- PROTO_SERVER_STATE_WISH_SEND_HANDSHAKE: an error of the send leaves the state as it is.
unfoldable pub handle_send_handshake : World → Session → Session
handle_send_handshake w s =
    let m = send_message w s (w.handshake_msg s.conn.ruid s.conn.friend_req_connection) in
    if m.0 then set_protocol ProtocolState.server_wish_handshake_read_reply m.1 else m.1

-- PROTO_SERVER_STATE_VERIFY_CLIENT_HASH, which falls through to the next state.
unfoldable pub handle_verify_client : World → Session → List ℕ → Session
unfolding handle_send_handshake check_peer
handle_verify_client w s payload =
    let d = decrypt w s payload signature_len in
    or_close w d.1 d.0 λ plain.
      check_peer w d.1 plain d.1.conn.client_hash
        λ s'. handle_send_handshake w (set_protocol ProtocolState.server_wish_send_handshake s')

-- The connection is up. A normal one is announced, and may be opened by us again.
announce : Session → Session
announce s =
    if s.conn.friend_req_connection
    then s
    else (emit (Effect.meta_connect_removed s.conn.ruid) (emit Effect.new_core_connection s))

-- The field "banned" alone counts here, not its value.
read_banned : World → Session → Option Bool → Session
unfolding announce
read_banned w s (some banned) =
    close_connection w (emit (Effect.meta_connect_added s.conn.ruid false) s)
read_banned w s none = announce (set_protocol ProtocolState.wish_running s)

take_host : World → Session → List ℕ → List ℕ → Session
unfolding read_banned
take_host w s doc host =
    if length host == wish_id_len
    then (let s' = record s { conn = record (s.conn) { rhid = host } } in
        let s'' =
          if s'.conn.friend_req_connection
          then s'
          else (emit (Effect.transports_updated s'.conn.ruid doc) s') in
        read_banned w s'' (w.find_bool doc "banned"))
    else s

-- PROTO_SERVER_STATE_WISH_HANDSHAKE_READ_REPLY. A document with no good host id is dropped.
unfoldable pub handle_read_reply : World → Session → List ℕ → Session
unfolding take_host
handle_read_reply w s payload =
    if w.alloc_ok (length payload)
    then (let d = decrypt w s payload (length payload) in
        or_close w d.1 d.0 λ plain. elim (w.find_bin plain "host") [
          | none ↦ d.1
          | some host ↦ take_host w d.1 plain host
        ])
    else (close_connection w s)

-- The sender of a friend request is taken as the peer of the connection (`core_friend_req`).
unfoldable pub take_peer : List ℕ → Session → Session
take_peer uid s =
    if s.conn.friend_req_connection then record s { conn = record (s.conn) { ruid = uid } } else s

-- What a handler does, in order. A message on a closed connection is refused by `send_message`.
unfoldable pub run_requests : World → Session → List Request → Session
run_requests w s [] = s
run_requests w s (reply bytes ∷ rest) = run_requests w (send_message w s bytes).1 rest
run_requests w s (close ∷ rest) = run_requests w (close_connection w s) rest
run_requests w s (identify uid ∷ rest) = run_requests w (take_peer uid s) rest

unfoldable pub answer_ping : World → Session → Option Bool → Session
answer_ping w s none = s
answer_ping w s (some ping) = (send_message w s w.pong_msg).1

unfoldable pub process_response : World → Session → List ℕ → Option (List ℕ) → Session
unfolding run_requests answer_ping
process_response w s msg none = answer_ping w s (w.find_bool msg "ping")
process_response w s msg (some res) = run_requests w s (w.responses s.conn res)

unfoldable pub process_request : World → Session → List ℕ → Option (List ℕ) → Session
unfolding run_requests process_response
process_request w s msg none = process_response w s msg (w.find_doc msg "res")
process_request w s msg (some req) = run_requests w s (w.requests s.conn req)

-- `wish_core_process_message`: a request, a response, or a ping, that is answered.
unfoldable pub process_message : World → Session → List ℕ → Session
unfolding process_request
process_message w s msg = process_request w s msg (w.find_doc msg "req")

-- PROTO_STATE_WISH_RUNNING
unfoldable pub handle_running : World → Session → List ℕ → Session
unfolding process_message
handle_running w s payload =
    let plaintxt_len = (size_mod + length payload - auth_tag_len) % size_mod in
    if w.alloc_ok plaintxt_len
    then (let d = decrypt w s payload plaintxt_len in
        or_close w d.1 d.0
          λ plain. process_message w (emit (Effect.message_processed plain) d.1) plain)
    else (close_connection w s)

-- ===== src/Connection/Handshake/Client.antt =====
-- The states of `wish_core_handle_payload` (src/wish_connection.c) in which the end that opened the
-- connection may be: the key exchange, the check of the server, the handshake.
pub mod Moves
use wish_c.Prelude.{
  ℕ, Bool, true, false, List, [], ◌∷◌, ◌++◌, Option, none, some, length, not, ◌==◌, if◌then◌else◌,
}
use wish_c.Connection.Types.{
  Connection, ContextState, ProtocolState, Effect, World, Session, signature_len, wish_id_len,
}
use wish_c.Connection.Close.{emit, close_connection}
use wish_c.Connection.Cipher.{send_message, decrypt}
use wish_c.Connection.Handshake.Secrets.{
  or_close, public_frame, build_client_and_server_hashes, client_keys, stack_buffer, set_protocol,
}

-- The secret is there: take the keys, and go on to the identities.
client_secret : World → Session → List ℕ → Session
client_secret w s secret =
    set_protocol ProtocolState.id_verify_send_client_hash
      (record s { conn = build_client_and_server_hashes w (client_keys s.conn secret) secret })

-- PROTO_STATE_DH from `mbedtls_dhm_read_public` on: our public value is sent before the secret is
-- derived.
client_exchange : World → Session → List ℕ → Bool × List ℕ → Session
unfolding client_secret
client_exchange w s payload (ok, ctx) =
    if ok
    then (or_close w s (w.dhm_make_public ctx) λ made.
        let s' = emit (Effect.sent (public_frame made.1)) s in
        or_close w s' (w.dhm_calc_secret made.0) (client_secret w s'))
    else (close_connection w s)

-- PROTO_STATE_DH
unfoldable pub handle_dh : World → Session → List ℕ → Session
unfolding client_exchange
handle_dh w s payload = or_close w s (w.mpi_read_p w.dhm_init) λ ctx.
    or_close w s (w.mpi_read_g ctx)
      λ group. client_exchange w s payload (w.dhm_read_public group payload)

-- The peer proves who it is, by a signature of `hash`; on a friend request connection it need not.
unfoldable pub check_peer : World → Session → List ℕ → List ℕ → (Session → Session) → Session
check_peer w s plain hash k =
    if s.conn.friend_req_connection
    then k s
    else (or_close w s (w.load_pubkey s.conn.ruid) λ pubkey.
        if w.verify (stack_buffer w signature_len plain) hash pubkey
        then k s
        else (close_connection w s))

-- PROTO_STATE_ID_VERIFY_SEND_CLIENT_HASH
unfoldable pub handle_id_verify : World → Session → List ℕ → Session
unfolding check_peer
handle_id_verify w s payload = or_close w s (w.load_privkey s.conn.luid) λ privkey.
    let s' = (send_message w s (w.sign s.conn.client_hash privkey)).1 in
    let d = decrypt w s' payload signature_len in
    or_close w d.1 d.0 λ plain.
      check_peer w d.1 plain d.1.conn.server_hash (set_protocol ProtocolState.wish_handshake)

update_transports : Session → List ℕ → Session
update_transports s doc =
    if s.conn.friend_req_connection then s else (emit (Effect.transports_updated s.conn.ruid doc) s)

-- The host id of the peer, if it has the right length.
greet : World → Session → List ℕ → List ℕ → Session
unfolding update_transports
greet w s doc host =
    if length host == wish_id_len
    then (let s' = update_transports (record s { conn = record (s.conn) { rhid = host } }) doc in
        (send_message w s' (w.handshake_msg s'.conn.ruid s'.conn.friend_req_connection)).1)
    else s

-- `wish_core_process_handshake`: our own handshake is the answer.
unfoldable pub process_handshake : World → Session → List ℕ → Session
unfolding greet
process_handshake w s doc = elim (w.find_bin doc "host") [
  | none ↦ s
  | some host ↦ greet w s doc host
]

-- A remote end that bans us is left alone from then on.
finish_handshake : World → Session → Option Bool → Session
finish_handshake w s (some true) =
    close_connection w (emit (Effect.meta_connect_added s.conn.ruid false) s)
finish_handshake w s (some false) = emit Effect.new_core_connection s
finish_handshake w s none = emit Effect.new_core_connection s

-- PROTO_STATE_WISH_HANDSHAKE
unfoldable pub handle_wish_handshake : World → Session → List ℕ → Session
unfolding finish_handshake
handle_wish_handshake w s payload =
    let d = decrypt w s payload 256 in
    or_close w d.1 d.0 λ plain.
      let doc = stack_buffer w 256 plain in
      let s' = set_protocol ProtocolState.wish_running (process_handshake w d.1 doc) in
      if s'.conn.friend_req_connection
      then (let s'' = emit Effect.friend_req_sent s' in
          record s'' { conn = record (s''.conn) { context_state = ContextState.connected } })
      else finish_handshake w s' (w.find_bool doc "banned")

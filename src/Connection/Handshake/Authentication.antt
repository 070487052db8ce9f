-- ===== src/Connection/Handshake/Authentication.antt =====
-- Who is at the other end: the two states of `wish_core_handle_payload` (src/wish_connection.c) that
-- check a signature.
use wish_c.Prelude.{ℕ, ◌≡◌, sym, ap, ◌∙◌, true, false, List, some, arith}
use wish_c.Connection.Types.{Connection, ProtocolState, World, Session, signature_len}
use wish_c.Connection.Cipher.{send_message, decrypt, check_tag}
use wish_c.Connection.Handshake.{dispatch, handle_payload}
use wish_c.Connection.Handshake.Secrets.{stack_buffer, set_protocol}
use wish_c.Connection.Handshake.Outcome.{
  closed_conn, close_connection-conn, decrypt-Keeps, decrypt-conn, send_message-conn,
  send_message-Keeps, or_close_cases, Keeps-trans,
}
use wish_c.Connection.Handshake.Client.{check_peer, handle_id_verify}
use wish_c.Connection.Handshake.Client.Moves.{check_peer_cases}
use wish_c.Connection.Handshake.Server.{handle_verify_client, handle_send_handshake}

-- The message decrypts, under the keys of the session, to a signature of `hash` that verifies under
-- the public key which the identity database holds for `ruid`.
pub data Signed (w : World) (s : Session) (p hash ruid : List ℕ) : Type 0 where
  signed :
      (plain pubkey : List ℕ)
      → (decrypt w s p signature_len).0 ≡ some plain
      → w.load_pubkey ruid ≡ some pubkey
      → w.verify (stack_buffer w signature_len plain) hash pubkey ≡ true
      → Signed w s p hash ruid

-- The connection is closed, unless A holds.
pub data ClosedOr (w : World) (A : Type 0) (s : Session) : Type 0 where
  shut : s.conn ≡ closed_conn w → ClosedOr w A s
  holds : A → ClosedOr w A s

-- What a decryption finds depends on the incoming key and vector alone.
decrypt_found :
    (w : World) (s t : Session) (p : List ℕ) (n : ℕ)
    → t.conn.aes_gcm_key_in ≡ s.conn.aes_gcm_key_in
    → t.conn.aes_gcm_iv_in ≡ s.conn.aes_gcm_iv_in
    → (decrypt w t p n).0 ≡ (decrypt w s p n).0
unfolding decrypt check_tag
decrypt_found w s t p n key iv = rw key (rw iv (ground arith))

module _ (w : World) (s : Session) (p : List ℕ) where
  check_peer-Signed :
      {hash hash' ruid : List ℕ} (plain : List ℕ) (t : Session) (k : Session → Session)
      → (decrypt w s p signature_len).0 ≡ some plain
      → t.conn.friend_req_connection ≡ false
      → t.conn.ruid ≡ ruid
      → hash' ≡ hash
      → ClosedOr w (Signed w s p hash ruid) (check_peer w t plain hash' k)
  check_peer-Signed plain t k found friend remote same_hash =
      check_peer_cases (ClosedOr w (Signed w s p _ _)) w t plain _ k
        (shut (close_connection-conn w t)) (λ e. absurd (ground arith))
        (λ pubkey loaded ok.
          holds (signed plain pubkey found (rw (sym remote) loaded) (rw (sym same_hash) ok)))

  verify_client-Signed :
      s.conn.friend_req_connection ≡ false
      → ClosedOr w (Signed w s p s.conn.client_hash s.conn.ruid) (handle_verify_client w s p)
  unfolding handle_verify_client
  verify_client-Signed friend =
      let A = Signed w s p s.conn.client_hash s.conn.ruid in
      let d = decrypt w s p signature_len in
      or_close_cases (ClosedOr w A) w d.1 d.0 _ (shut (close_connection-conn w d.1)) λ plain found.
        let kept = decrypt-Keeps w s p signature_len found in
        check_peer-Signed plain d.1
          (λ s'. handle_send_handshake w (set_protocol ProtocolState.server_wish_send_handshake s'))
          found (kept.friend_req ∙ friend) kept.remote
          (ap (λ (x : Connection). x.client_hash) (decrypt-conn w s p signature_len found))

  dispatched :
      {q : ProtocolState} → s.conn.curr_protocol_state ≡ q → handle_payload w s p ≡ dispatch q w s p
  unfolding handle_payload
  dispatched e = ap (λ q. dispatch q w s p) e

  -- On the end that accepted a connection which is no friend request, a payload in the state
  -- PROTO_SERVER_STATE_VERIFY_CLIENT_HASH closes the connection, unless it decrypts to a signature
  -- of the client's hash that verifies under the public key stored for the claimed remote identity.
  pub server_authenticates :
      s.conn.curr_protocol_state ≡ ProtocolState.server_verify_client_hash
      → s.conn.friend_req_connection ≡ false
      → ClosedOr w (Signed w s p s.conn.client_hash s.conn.ruid) (handle_payload w s p)
  unfolding dispatch
  server_authenticates e friend = rw (dispatched e) (verify_client-Signed friend)

  id_verify-Signed :
      s.conn.friend_req_connection ≡ false
      → ClosedOr w (Signed w s p s.conn.server_hash s.conn.ruid) (handle_id_verify w s p)
  unfolding handle_id_verify
  id_verify-Signed friend =
      let A = Signed w s p s.conn.server_hash s.conn.ruid in
      or_close_cases (ClosedOr w A) w s _ _ (shut (close_connection-conn w s)) λ privkey _.
        let proof = w.sign s.conn.client_hash privkey in
        let s' = (send_message w s proof).1 in
        let sent = send_message-conn w s proof in
        let d = decrypt w s' p signature_len in
        or_close_cases (ClosedOr w A) w d.1 d.0 _ (shut (close_connection-conn w d.1))
          λ plain found.
            let kept =
              Keeps-trans s.conn s' d.1 (send_message-Keeps w s proof)
                (decrypt-Keeps w s' p signature_len found) in
            let hash =
              ap (λ (x : Connection). x.server_hash) (decrypt-conn w s' p signature_len found)
              ∙ ap (λ (x : Connection). x.server_hash) sent in
            let same =
              decrypt_found w s s' p signature_len (ap (λ (x : Connection). x.aes_gcm_key_in) sent)
                (ap (λ (x : Connection). x.aes_gcm_iv_in) sent) in
            check_peer-Signed plain d.1 (set_protocol ProtocolState.wish_handshake)
              (sym same ∙ found) (kept.friend_req ∙ friend) kept.remote hash

  -- On the end that opened a connection which is no friend request, a payload in the state
  -- PROTO_STATE_ID_VERIFY_SEND_CLIENT_HASH closes the connection, unless it decrypts to a signature
  -- of the server's hash that verifies under the public key stored for the remote identity that the
  -- connection was opened to.
  pub client_authenticates :
      s.conn.curr_protocol_state ≡ ProtocolState.id_verify_send_client_hash
      → s.conn.friend_req_connection ≡ false
      → ClosedOr w (Signed w s p s.conn.server_hash s.conn.ruid) (handle_payload w s p)
  unfolding dispatch
  client_authenticates e friend = rw (dispatched e) (id_verify-Signed friend)

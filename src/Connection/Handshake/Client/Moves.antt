-- ===== src/Connection/Handshake/Client/Moves.antt =====
-- The client's states of `wish_core_handle_payload` (src/wish_connection.c) move as the protocol
-- says.
use wish_c.Prelude.{ℕ, ◌≡◌, refl, Bool, true, false, List, Option, none, some, length, ◌==◌}
use wish_c.Connection.Types.{Connection, ProtocolState, World, Session, signature_len, wish_id_len}
use wish_c.Connection.Close.{close_connection}
use wish_c.Connection.Cipher.{send_message, decrypt}
use wish_c.Connection.Handshake.Secrets.{
  set_protocol, stack_buffer, build_client_and_server_hashes, client_keys,
}
use wish_c.Connection.Handshake.Outcome.{
  Keeps, Keeps-refl, Keeps-trans, send_message-Keeps, decrypt-Keeps, client_keyed, client_checked,
  client_up, Next-from, Outcome, closed, moved, renamed, left_closed, left_moved, or_close_cases,
  if_cases,
}
use wish_c.Connection.Handshake.Client.{
  check_peer, handle_dh, handle_id_verify, update_transports, greet, process_handshake,
  finish_handshake, handle_wish_handshake,
}

pub check_peer_cases {ℓ} :
    (P : Session → Type ℓ) (w : World) (s : Session) (plain hash : List ℕ) (k : Session → Session)
    → P (close_connection w s)
    → (s.conn.friend_req_connection ≡ true → P (k s))
    → ((pubkey : List ℕ)
        → w.load_pubkey s.conn.ruid ≡ some pubkey
        → w.verify (stack_buffer w signature_len plain) hash pubkey ≡ true
        → P (k s))
    → P (check_peer w s plain hash k)
unfolding check_peer
check_peer_cases P w s plain hash k shut friend proved =
    if_cases P s.conn.friend_req_connection friend λ _.
      or_close_cases P w s (w.load_pubkey s.conn.ruid) _ shut
        λ pubkey e. if_cases P _ (proved pubkey e) (λ _. shut)

module _ (w : World) (s : Session) (p : List ℕ) where
  pub handle_dh-Outcome :
      s.conn.curr_protocol_state ≡ ProtocolState.dh → Outcome w s.conn (handle_dh w s p)
  unfolding handle_dh client_keys build_client_and_server_hashes
  handle_dh-Outcome e = or_close_cases (Outcome w s.conn) w s _ _ (left_closed w s.conn s) λ ctx _.
      or_close_cases (Outcome w s.conn) w s _ _ (left_closed w s.conn s) λ group _.
        if_cases (Outcome w s.conn) (w.dhm_read_public group p).0
          (λ _. or_close_cases (Outcome w s.conn) w s _ _ (left_closed w s.conn s) λ made _.
            or_close_cases (Outcome w s.conn) w _ _ _ (left_closed w s.conn _)
              λ secret _. moved refl (Next-from e client_keyed) refl refl)
          (λ _. left_closed w s.conn s)

  pub handle_id_verify-Outcome :
      s.conn.curr_protocol_state ≡ ProtocolState.id_verify_send_client_hash
      → Outcome w s.conn (handle_id_verify w s p)
  unfolding handle_id_verify
  handle_id_verify-Outcome e =
      or_close_cases (Outcome w s.conn) w s _ _ (left_closed w s.conn s) λ privkey _.
        let s' = (send_message w s (w.sign s.conn.client_hash privkey)).1 in
        let d = decrypt w s' p signature_len in
        or_close_cases (Outcome w s.conn) w d.1 d.0 _ (left_closed w s.conn d.1) λ plain found.
          let kept =
            Keeps-trans s.conn s' d.1 (send_message-Keeps w s (w.sign s.conn.client_hash privkey))
              (decrypt-Keeps w s' p signature_len found) in
          check_peer_cases (Outcome w s.conn) w d.1 plain d.1.conn.server_hash
            (set_protocol ProtocolState.wish_handshake) (left_closed w s.conn d.1)
            (λ _. left_moved w s.conn d.1 kept e client_checked)
            (λ _ _ _. left_moved w s.conn d.1 kept e client_checked)

module _ (w : World) where
  update_transports-Keeps : (s : Session) (doc : List ℕ) → Keeps s.conn (update_transports s doc)
  unfolding update_transports
  update_transports-Keeps s doc =
      if_cases (Keeps s.conn) s.conn.friend_req_connection (λ _. Keeps-refl s)
        (λ _. record { rx = refl; protocol = refl; friend_req = refl; remote = refl })

  greet-Keeps : (s : Session) (doc host : List ℕ) → Keeps s.conn (greet w s doc host)
  unfolding greet
  greet-Keeps s doc host =
      let s' = record s { conn = record (s.conn) { rhid = host } } in
      let s'' = update_transports s' doc in
      let answer = w.handshake_msg s''.conn.ruid s''.conn.friend_req_connection in
      if_cases (Keeps s.conn) (length host == wish_id_len)
        (λ _.
          let u = update_transports-Keeps s' doc in
          Keeps-trans s.conn s'' (send_message w s'' answer).1
            (record {
              rx = u.rx;
              protocol = u.protocol;
              friend_req = u.friend_req;
              remote = u.remote;
            })
            (send_message-Keeps w s'' answer))
        (λ _. Keeps-refl s)

  process_handshake-Keeps : (s : Session) (doc : List ℕ) → Keeps s.conn (process_handshake w s doc)
  unfolding process_handshake
  process_handshake-Keeps s doc =
      elim (w.find_bin doc "host")
        as (λ o. Keeps s.conn (elim o [ none ↦ s | some host ↦ greet w s doc host ])) [
          | none ↦ Keeps-refl s
          | some host ↦ greet-Keeps s doc host
        ]

  finish_handshake-Outcome :
      (c : Connection) (s : Session) (banned : Option Bool)
      → Outcome w c s
      → Outcome w c (finish_handshake w s banned)
  unfolding finish_handshake
  finish_handshake-Outcome c s (some true) o = left_closed w c _
  finish_handshake-Outcome c s (some false) (closed e) = closed e
  finish_handshake-Outcome c s (some false) (moved r n f i) = moved r n f i
  finish_handshake-Outcome c s (some false) (renamed k q r n f) = renamed k q r n f
  finish_handshake-Outcome c s none (closed e) = closed e
  finish_handshake-Outcome c s none (moved r n f i) = moved r n f i
  finish_handshake-Outcome c s none (renamed k q r n f) = renamed k q r n f

  pub handle_wish_handshake-Outcome :
      (s : Session) (p : List ℕ)
      → s.conn.curr_protocol_state ≡ ProtocolState.wish_handshake
      → Outcome w s.conn (handle_wish_handshake w s p)
  unfolding handle_wish_handshake
  handle_wish_handshake-Outcome s p e =
      let d = decrypt w s p 256 in
      or_close_cases (Outcome w s.conn) w d.1 d.0 _ (left_closed w s.conn d.1) λ plain found.
        let doc = stack_buffer w 256 plain in
        let s' = process_handshake w d.1 doc in
        let kept =
          Keeps-trans s.conn d.1 s' (decrypt-Keeps w s p 256 found)
            (process_handshake-Keeps d.1 doc) in
        if_cases (Outcome w s.conn) s'.conn.friend_req_connection
          (λ _. moved kept.rx (Next-from e client_up) kept.friend_req kept.remote)
          (λ _.
            finish_handshake-Outcome s.conn _ (w.find_bool doc "banned")
              (left_moved w s.conn s' kept e client_up))

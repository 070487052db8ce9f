-- ===== src/Connection/Handshake/Server/Moves.antt =====
-- The server's states of `wish_core_handle_payload` (src/wish_connection.c) move as the protocol
-- says.
use wish_c.Prelude.{
  ℕ, ◌≡◌, refl, sym, ap, ◌∙◌, Bool, true, List, [], ◌∷◌, Option, none, some, length, ◌==◌,
  if◌then◌else◌, ◌%◌, ◌+◌, ◌-◌,
}
use wish_c.Connection.Types.{
  Connection, ProtocolState, Effect, Request, reply, close, identify, World, Session, signature_len,
  wish_id_len, auth_tag_len,
}
use wish_c.Connection.Close.{emit}
use wish_c.Connection.Cipher.{send_message, decrypt, size_mod}
use wish_c.Connection.Handshake.Secrets.{set_protocol, build_client_and_server_hashes, server_keys}
use wish_c.Connection.Handshake.Outcome.{
  closed_conn, Keeps, Keeps-refl, left_kept, Keeps-trans, send_message-Keeps, decrypt-Keeps, stay,
  server_keyed, server_checked, server_checked_sent, server_sent, server_up, Next-from, Outcome,
  closed, moved, renamed, left_closed, left_moved, or_close_cases, if_cases,
}
use wish_c.Connection.Handshake.Client.Moves.{check_peer_cases}
use wish_c.Connection.Handshake.Server.{
  server_secret, server_exchange, handle_server_dh, handle_send_handshake, handle_verify_client,
  announce, read_banned, take_host, handle_read_reply, set_dhm, run_requests, handle_running,
  take_peer, answer_ping, process_response, process_request, process_message,
}

module _ (w : World) where
  pub handle_send_handshake-Outcome :
      (s : Session)
      → s.conn.curr_protocol_state ≡ ProtocolState.server_wish_send_handshake
      → Outcome w s.conn (handle_send_handshake w s)
  unfolding handle_send_handshake
  handle_send_handshake-Outcome s e =
      let doc = w.handshake_msg s.conn.ruid s.conn.friend_req_connection in
      let k = send_message-Keeps w s doc in
      if_cases (Outcome w s.conn) (send_message w s doc).0
        (λ _. left_moved w s.conn (send_message w s doc).1 k e server_sent)
        (λ _. moved k.rx (rw k.protocol (stay _)) k.friend_req k.remote)

  -- Nothing is written to a context that is free.
  send_refused :
      (t : Session) (bytes : List ℕ)
      → t.conn ≡ closed_conn w
      → (send_message w t bytes).1.conn ≡ t.conn
  unfolding send_message
  send_refused t bytes h = rw (ap (λ (x : Connection). x.context_state) h)

  -- The log does not matter.
  Outcome-conn :
      (c : Connection) (t t' : Session) → Outcome w c t → t'.conn ≡ t.conn → Outcome w c t'
  Outcome-conn c t t' (closed h) e = closed (e ∙ h)
  Outcome-conn c t t' (moved r n f i) e =
      moved (ap (λ (x : Connection). x.rx_ringbuf) e ∙ r)
        (rw (ap (λ (x : Connection). x.curr_protocol_state) e) n)
        (ap (λ (x : Connection). x.friend_req_connection) e ∙ f)
        (ap (λ (x : Connection). x.ruid) e ∙ i)
  Outcome-conn c t t' (renamed k q r n f) e =
      renamed k q (ap (λ (x : Connection). x.rx_ringbuf) e ∙ r)
        (rw (ap (λ (x : Connection). x.curr_protocol_state) e) n)
        (ap (λ (x : Connection). x.friend_req_connection) e ∙ f)

  send_message-Outcome :
      (c : Connection) (t : Session) (bytes : List ℕ)
      → Outcome w c t
      → Outcome w c (send_message w t bytes).1
  send_message-Outcome c t bytes (closed h) = Outcome-conn c t _ (closed h) (send_refused t bytes h)
  send_message-Outcome c t bytes (moved r n f i) =
      let k = send_message-Keeps w t bytes in
      moved (k.rx ∙ r) (rw k.protocol n) (k.friend_req ∙ f) (k.remote ∙ i)
  send_message-Outcome c t bytes (renamed q e r n f) =
      let k = send_message-Keeps w t bytes in
      renamed q e (k.rx ∙ r) (rw k.protocol n) (k.friend_req ∙ f)

  -- On a running connection, a friend request may give another peer.
  take_peer_lem :
      (c : Connection) (uid : List ℕ) (t : Session)
      → c.curr_protocol_state ≡ ProtocolState.wish_running
      → t.conn.friend_req_connection ≡ true
      → Outcome w c t
      → Outcome w c (record t { conn = record (t.conn) { ruid = uid } })
  take_peer_lem c uid t q e (closed h) = cc (ap (λ (x : Connection). x.friend_req_connection) h)
  take_peer_lem c uid t q e (moved r n f i) = renamed (sym f ∙ e) q r n f
  take_peer_lem c uid t q e (renamed k q' r n f) = renamed k q r n f

  take_peer-Outcome :
      (c : Connection) (uid : List ℕ) (t : Session)
      → c.curr_protocol_state ≡ ProtocolState.wish_running
      → Outcome w c t
      → Outcome w c (take_peer uid t)
  unfolding take_peer
  take_peer-Outcome c uid t q o =
      if_cases (Outcome w c) t.conn.friend_req_connection
        {x = record t { conn = record (t.conn) { ruid = uid } }} {y = t}
        (λ e. take_peer_lem c uid t q e o) (λ e. o)

  run_requests-Outcome :
      (c : Connection) (l : List Request) (t : Session)
      → c.curr_protocol_state ≡ ProtocolState.wish_running
      → Outcome w c t
      → Outcome w c (run_requests w t l)
  unfolding run_requests
  run_requests-Outcome c [] t q o = o
  run_requests-Outcome c (reply bytes ∷ l) t q o =
      run_requests-Outcome c l _ q (send_message-Outcome c t bytes o)
  run_requests-Outcome c (close ∷ l) t q o = run_requests-Outcome c l _ q (left_closed w c t)
  run_requests-Outcome c (identify uid ∷ l) t q o =
      run_requests-Outcome c l _ q (take_peer-Outcome c uid t q o)

  answer_ping-Outcome :
      (c : Connection) (t : Session) (ping : Option Bool)
      → Outcome w c t
      → Outcome w c (answer_ping w t ping)
  unfolding answer_ping
  answer_ping-Outcome c t none o = o
  answer_ping-Outcome c t (some ping) o = send_message-Outcome c t w.pong_msg o

  process_response-Outcome :
      (c : Connection) (t : Session) (msg : List ℕ) (res : Option (List ℕ))
      → c.curr_protocol_state ≡ ProtocolState.wish_running
      → Outcome w c t
      → Outcome w c (process_response w t msg res)
  unfolding process_response
  process_response-Outcome c t msg none q o = answer_ping-Outcome c t (w.find_bool msg "ping") o
  process_response-Outcome c t msg (some res) q o =
      run_requests-Outcome c (w.responses t.conn res) t q o

  process_request-Outcome :
      (c : Connection) (t : Session) (msg : List ℕ) (req : Option (List ℕ))
      → c.curr_protocol_state ≡ ProtocolState.wish_running
      → Outcome w c t
      → Outcome w c (process_request w t msg req)
  unfolding process_request
  process_request-Outcome c t msg none q o =
      process_response-Outcome c t msg (w.find_doc msg "res") q o
  process_request-Outcome c t msg (some req) q o =
      run_requests-Outcome c (w.requests t.conn req) t q o

  server_secret-Outcome :
      (c : Connection) (t : Session) (ctx secret : List ℕ)
      → Keeps c t
      → c.curr_protocol_state ≡ ProtocolState.server_dh
      → Outcome w c (server_secret w t ctx secret)
  unfolding server_secret server_keys build_client_and_server_hashes
  server_secret-Outcome c t ctx secret k e =
      or_close_cases (Outcome w c) w _ _ _ (left_closed w c _) λ privkey _.
        let t' = emit (Effect.dhm_freed ctx) (
          set_dhm none (record t {
            conn = build_client_and_server_hashes w (server_keys t.conn secret) secret;
          })) in
        let m = send_message w t' (w.sign t'.conn.server_hash privkey) in
        left_moved w c m.1
          (Keeps-trans c t' m.1
            (record {
              rx = k.rx;
              protocol = k.protocol;
              friend_req = k.friend_req;
              remote = k.remote;
            })
            (send_message-Keeps w t' (w.sign t'.conn.server_hash privkey)))
          e server_keyed

  pub handle_server_dh-Outcome :
      (s : Session) (p : List ℕ)
      → s.conn.curr_protocol_state ≡ ProtocolState.server_dh
      → Outcome w s.conn (handle_server_dh w s p)
  unfolding handle_server_dh
  handle_server_dh-Outcome s p e =
      elim s.conn.server_dhm_ctx
        as (λ o.
          Outcome w s.conn
            (elim o [ none ↦ s | some ctx ↦ server_exchange w s (w.dhm_read_public ctx p) ])) [
              | none ↦ left_kept w s.conn s (Keeps-refl s)
              | some ctx ↦
                  let r = w.dhm_read_public ctx p in
                  or_close_cases (Outcome w s.conn) w (set_dhm (some r.1) s) (w.dhm_calc_secret r.1)
                    _ (left_closed w s.conn _)
                    λ secret _. server_secret-Outcome s.conn s r.1 secret (Keeps-refl s) e
            ]

  -- Behind the check the handshake is sent at once.
  checked_sent :
      (c : Connection) (t : Session)
      → Keeps c t
      → c.curr_protocol_state ≡ ProtocolState.server_verify_client_hash
      → Outcome w c
          (handle_send_handshake w (set_protocol ProtocolState.server_wish_send_handshake t))
  unfolding handle_send_handshake
  checked_sent c t k e =
      let t' = set_protocol ProtocolState.server_wish_send_handshake t in
      let doc = w.handshake_msg t'.conn.ruid t'.conn.friend_req_connection in
      let m = send_message-Keeps w t' doc in
      if_cases (Outcome w c) (send_message w t' doc).0
        (λ _.
          moved (m.rx ∙ k.rx) (Next-from e server_checked_sent) (m.friend_req ∙ k.friend_req)
            (m.remote ∙ k.remote))
        (λ _.
          moved (m.rx ∙ k.rx) (rw m.protocol (Next-from e server_checked))
            (m.friend_req ∙ k.friend_req) (m.remote ∙ k.remote))

  pub handle_verify_client-Outcome :
      (s : Session) (p : List ℕ)
      → s.conn.curr_protocol_state ≡ ProtocolState.server_verify_client_hash
      → Outcome w s.conn (handle_verify_client w s p)
  unfolding handle_verify_client
  handle_verify_client-Outcome s p e =
      let d = decrypt w s p signature_len in
      or_close_cases (Outcome w s.conn) w d.1 d.0 _ (left_closed w s.conn d.1) λ plain found.
        let kept = decrypt-Keeps w s p signature_len found in
        check_peer_cases (Outcome w s.conn) w d.1 plain d.1.conn.client_hash
          (λ s'. handle_send_handshake w (set_protocol ProtocolState.server_wish_send_handshake s'))
          (left_closed w s.conn d.1) (λ _. checked_sent s.conn d.1 kept e)
          (λ _ _ _. checked_sent s.conn d.1 kept e)

  announce-Outcome : (c : Connection) (t : Session) → Outcome w c t → Outcome w c (announce t)
  unfolding announce
  announce-Outcome c t o =
      if_cases (Outcome w c) t.conn.friend_req_connection (λ _. o) (λ _. Outcome-conn c _ _ o refl)

  read_banned-Outcome :
      (c : Connection) (t : Session) (banned : Option Bool)
      → Keeps c t
      → c.curr_protocol_state ≡ ProtocolState.server_wish_handshake_read_reply
      → Outcome w c (read_banned w t banned)
  unfolding read_banned
  read_banned-Outcome c t (some b) k e = left_closed w c _
  read_banned-Outcome c t none k e = announce-Outcome c _ (left_moved w c t k e server_up)

  update-Keeps :
      (c : Connection) (t : Session) (doc : List ℕ)
      → Keeps c t
      → Keeps c (
          if t.conn.friend_req_connection
          then t
          else (emit (Effect.transports_updated t.conn.ruid doc) t))
  update-Keeps c t doc k =
      if_cases (Keeps c) t.conn.friend_req_connection (λ _. k)
        (λ _. record {
          rx = k.rx;
          protocol = k.protocol;
          friend_req = k.friend_req;
          remote = k.remote;
        })

  take_host-Outcome :
      (c : Connection) (t : Session) (doc host : List ℕ)
      → Keeps c t
      → c.curr_protocol_state ≡ ProtocolState.server_wish_handshake_read_reply
      → Outcome w c (take_host w t doc host)
  unfolding take_host
  take_host-Outcome c t doc host k e =
      let t' = record t { conn = record (t.conn) { rhid = host } } in
      if_cases (Outcome w c) (length host == wish_id_len)
        (λ _.
          read_banned-Outcome c _ (w.find_bool doc "banned")
            (update-Keeps c t' doc (record {
              rx = k.rx;
              protocol = k.protocol;
              friend_req = k.friend_req;
              remote = k.remote;
            }))
            e)
        (λ _. left_kept w c t k)

  pub handle_read_reply-Outcome :
      (s : Session) (p : List ℕ)
      → s.conn.curr_protocol_state ≡ ProtocolState.server_wish_handshake_read_reply
      → Outcome w s.conn (handle_read_reply w s p)
  unfolding handle_read_reply
  handle_read_reply-Outcome s p e =
      let d = decrypt w s p (length p) in
      if_cases (Outcome w s.conn) (w.alloc_ok (length p))
        (λ _.
          or_close_cases (Outcome w s.conn) w d.1 d.0 _ (left_closed w s.conn d.1) λ plain found.
            let kept = decrypt-Keeps w s p (length p) found in
            elim (w.find_bin plain "host")
              as (λ o.
                Outcome w s.conn (elim o [ none ↦ d.1 | some host ↦ take_host w d.1 plain host ])) [
                  | none ↦ left_kept w s.conn d.1 kept
                  | some host ↦ take_host-Outcome s.conn d.1 plain host kept e
                ])
        (λ _. left_closed w s.conn s)

  pub handle_running-Outcome :
      (s : Session) (p : List ℕ)
      → s.conn.curr_protocol_state ≡ ProtocolState.wish_running
      → Outcome w s.conn (handle_running w s p)
  unfolding handle_running process_message
  handle_running-Outcome s p e =
      let n = (size_mod + length p - auth_tag_len) % size_mod in
      let d = decrypt w s p n in
      if_cases (Outcome w s.conn) (w.alloc_ok n)
        (λ _.
          or_close_cases (Outcome w s.conn) w d.1 d.0 _ (left_closed w s.conn d.1) λ plain found.
            process_request-Outcome s.conn _ plain (w.find_doc plain "req") e (
              Outcome-conn s.conn d.1 _ (left_kept w s.conn d.1 (decrypt-Keeps w s p n found))
                refl))
        (λ _. left_closed w s.conn s)

-- ===== src/Connection/Handshake/Outcome.antt =====
-- What a send, a decryption and the handling of a payload leave of a connection
-- (src/wish_connection.c), and the moves of the protocol.
use wish_c.Prelude.{
  ℕ, ◌≡◌, refl, ap, ◌∙◌, Bool, true, false, List, Option, none, some, arith, if◌then◌else◌,
}
use wish_c.Connection.Types.{
  Connection, TransportState, ProtocolState, World, Session, zero_connection,
}
use wish_c.Connection.Close.{disconnected, close_connection}
use wish_c.Connection.Cipher.{send_message, decrypt}
use wish_c.Connection.Handshake.Secrets.{or_close, set_protocol}

-- A context that is free again: zeroes, but for the transport state.
abbrev pub closed_conn : World → Connection
closed_conn w = record (zero_connection w.rx_ringbuf_len) {
  curr_transport_state = TransportState.wait_frame_len;
}

pub close_connection-conn : (w : World) (s : Session) → (close_connection w s).conn ≡ closed_conn w
unfolding close_connection disconnected
close_connection-conn w s = refl

-- A send changes the outgoing vector only.
pub send_message-conn :
    (w : World) (s : Session) (p : List ℕ)
    → (send_message w s p).1.conn
      ≡ record (s.conn) { aes_gcm_iv_out = (send_message w s p).1.conn.aes_gcm_iv_out }
unfolding send_message
send_message-conn w s p = ground arith

-- A decryption that succeeds changes the incoming vector only.
pub decrypt-conn :
    (w : World) (s : Session) (p : List ℕ) (n : ℕ) {plain : List ℕ}
    → (decrypt w s p n).0 ≡ some plain
    → (decrypt w s p n).1.conn
      ≡ record (s.conn) { aes_gcm_iv_in = (decrypt w s p n).1.conn.aes_gcm_iv_in }
unfolding decrypt
decrypt-conn w s p n e = ground arith

pub or_close_cases {ℓ} :
    {A : Type 0} (P : Session → Type ℓ) (w : World) (s : Session) (o : Option A) (k : A → Session)
    → P (close_connection w s)
    → ((a : A) → o ≡ some a → P (k a))
    → P (or_close w s o k)
unfolding or_close
or_close_cases P w s none k shut go = shut
or_close_cases P w s (some a) k shut go = go a refl

pub if_cases {ℓ} :
    {A : Type 0} (P : A → Type ℓ) (b : Bool) {x y : A}
    → (b ≡ true → P x)
    → (b ≡ false → P y)
    → P (if b then x else y)
if_cases P true f g = f refl
if_cases P false f g = g refl

-- The moves of the protocol that handling one payload may make on a connection that stays.
pub data Next : ProtocolState → ProtocolState → Type 0 where
  stay : (p : ProtocolState) → Next p p
  client_keyed : Next ProtocolState.dh ProtocolState.id_verify_send_client_hash
  client_checked : Next ProtocolState.id_verify_send_client_hash ProtocolState.wish_handshake
  client_up : Next ProtocolState.wish_handshake ProtocolState.wish_running
  server_keyed : Next ProtocolState.server_dh ProtocolState.server_verify_client_hash
  server_checked :
      Next ProtocolState.server_verify_client_hash ProtocolState.server_wish_send_handshake
  server_checked_sent :
      Next ProtocolState.server_verify_client_hash ProtocolState.server_wish_handshake_read_reply
  server_sent :
      Next ProtocolState.server_wish_send_handshake ProtocolState.server_wish_handshake_read_reply
  server_up : Next ProtocolState.server_wish_handshake_read_reply ProtocolState.wish_running

-- What neither a send nor a decryption touches.
pub record Keeps (c : Connection) (s' : Session) : Type 0 where
  pub rx : s'.conn.rx_ringbuf ≡ c.rx_ringbuf
  pub protocol : s'.conn.curr_protocol_state ≡ c.curr_protocol_state
  pub friend_req : s'.conn.friend_req_connection ≡ c.friend_req_connection
  pub remote : s'.conn.ruid ≡ c.ruid

pub Keeps-refl : (s : Session) → Keeps s.conn s
Keeps-refl s = record { rx = refl; protocol = refl; friend_req = refl; remote = refl }

pub Keeps-trans : (c : Connection) (s t : Session) → Keeps c s → Keeps s.conn t → Keeps c t
Keeps-trans c s t h k = record {
  rx = k.rx ∙ h.rx;
  protocol = k.protocol ∙ h.protocol;
  friend_req = k.friend_req ∙ h.friend_req;
  remote = k.remote ∙ h.remote;
}

Keeps-eq :
    (c d : Connection) (s' : Session) → Keeps c (record s' { conn = d }) → s'.conn ≡ d → Keeps c s'
Keeps-eq c d s' k e = record {
  rx = ap (λ (x : Connection). x.rx_ringbuf) e ∙ k.rx;
  protocol = ap (λ (x : Connection). x.curr_protocol_state) e ∙ k.protocol;
  friend_req = ap (λ (x : Connection). x.friend_req_connection) e ∙ k.friend_req;
  remote = ap (λ (x : Connection). x.ruid) e ∙ k.remote;
}

pub send_message-Keeps :
    (w : World) (s : Session) (p : List ℕ) → Keeps s.conn (send_message w s p).1
send_message-Keeps w s p =
    Keeps-eq s.conn _ _ (record { rx = refl; protocol = refl; friend_req = refl; remote = refl })
      (send_message-conn w s p)

pub decrypt-Keeps :
    (w : World) (s : Session) (p : List ℕ) (n : ℕ) {plain : List ℕ}
    → (decrypt w s p n).0 ≡ some plain
    → Keeps s.conn (decrypt w s p n).1
decrypt-Keeps w s p n e =
    Keeps-eq s.conn _ _ (record { rx = refl; protocol = refl; friend_req = refl; remote = refl })
      (decrypt-conn w s p n e)

-- What handling a payload leaves: a closed context, or one that keeps the rest of its input, its
-- peer and its kind, and has made a move of the protocol. A running friend request connection may
-- have another peer.
pub data Outcome (w : World) (c : Connection) (s' : Session) : Type 0 where
  closed : s'.conn ≡ closed_conn w → Outcome w c s'
  moved :
      s'.conn.rx_ringbuf ≡ c.rx_ringbuf
      → Next c.curr_protocol_state s'.conn.curr_protocol_state
      → s'.conn.friend_req_connection ≡ c.friend_req_connection
      → s'.conn.ruid ≡ c.ruid
      → Outcome w c s'
  renamed :
      c.friend_req_connection ≡ true
      → c.curr_protocol_state ≡ ProtocolState.wish_running
      → s'.conn.rx_ringbuf ≡ c.rx_ringbuf
      → Next c.curr_protocol_state s'.conn.curr_protocol_state
      → s'.conn.friend_req_connection ≡ c.friend_req_connection
      → Outcome w c s'

pub Next-from : {r p q : ProtocolState} → r ≡ p → Next p q → Next r q
Next-from e n = rw e n

module _ (w : World) (c : Connection) where
  -- A session that kept what it had.
  pub left_kept : (s : Session) → Keeps c s → Outcome w c s
  left_kept s k = moved k.rx (rw k.protocol (stay _)) k.friend_req k.remote

  pub left_closed : (s : Session) → Outcome w c (close_connection w s)
  left_closed s = closed (close_connection-conn w s)

  -- A session that kept what it had, and made a move.
  pub left_moved :
      (s : Session) {p q : ProtocolState}
      → Keeps c s
      → c.curr_protocol_state ≡ p
      → Next p q
      → Outcome w c (set_protocol q s)
  left_moved s k e n = moved k.rx (Next-from e n) k.friend_req k.remote

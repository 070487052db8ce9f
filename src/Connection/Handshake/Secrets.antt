-- ===== src/Connection/Handshake/Secrets.antt =====
-- What both ends of a handshake share (src/wish_connection.c): keys and hashes out of the
-- Diffie-Hellman secret, and buffers on the stack.
use wish_c.Prelude.{ℕ, ◌/◌, ◌%◌, ◌^◌, List, [], ◌∷◌, ◌++◌, Option, none, some, take, drop}
use wish_c.Connection.Types.{Connection, ProtocolState, World, Session}
use wish_c.Connection.Close.{close_connection}

abbrev pub set_protocol : ProtocolState → Session → Session
set_protocol p s = record s { conn = record (s.conn) { curr_protocol_state = p } }

-- The length of a public value and of the secret.
abbrev pub dhm_len : ℕ
dhm_len = 384

-- `memcpy(dst, p + offset, n)`
abbrev pub slice : List ℕ → ℕ → ℕ → List ℕ
slice p offset n = take n (drop offset p)

-- A buffer of n bytes on the stack, after these were written to its start.
abbrev pub stack_buffer : World → ℕ → List ℕ → List ℕ
stack_buffer w n written = take n (written ++ w.stack)

-- A call that failed closes the connection.
unfoldable pub or_close : {A : Type 0} → World → Session → Option A → (A → Session) → Session
or_close w s none k = close_connection w s
or_close w s (some a) k = k a

-- A public value behind its length, whose two bytes are swapped in place.
unfoldable pub public_frame : List ℕ → List ℕ
public_frame public_value = dhm_len / 2 ^ 8 % 2 ^ 8 ∷ dhm_len % 2 ^ 8 ∷ public_value

-- The texts that go before the secret, "client" and "server".
abbrev pub client_str : List ℕ
client_str = b'c' ∷ b'l' ∷ b'i' ∷ b'e' ∷ b'n' ∷ b't' ∷ []

abbrev pub server_str : List ℕ
server_str = b's' ∷ b'e' ∷ b'r' ∷ b'v' ∷ b'e' ∷ b'r' ∷ []

unfoldable pub build_client_and_server_hashes : World → Connection → List ℕ → Connection
build_client_and_server_hashes w conn secret = record conn {
  client_hash = w.sha256 (client_str ++ secret);
  server_hash = w.sha256 (server_str ++ secret);
}

-- The client writes with the first key and vector of the secret, and reads with the second.
unfoldable pub client_keys : Connection → List ℕ → Connection
client_keys conn secret = record conn {
  aes_gcm_key_in = slice secret 32 16;
  aes_gcm_key_out = slice secret 0 16;
  aes_gcm_iv_in = slice secret 48 12;
  aes_gcm_iv_out = slice secret 16 12;
}

-- The server does the opposite.
unfoldable pub server_keys : Connection → List ℕ → Connection
server_keys conn secret = record conn {
  aes_gcm_key_out = slice secret 32 16;
  aes_gcm_key_in = slice secret 0 16;
  aes_gcm_iv_out = slice secret 48 12;
  aes_gcm_iv_in = slice secret 16 12;
}

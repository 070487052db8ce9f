-- ===== src/Connection/Types.antt =====
-- The data of a wish connection (src/wish_connection.h), and what the connection code takes from
-- outside: cryptography, BSON documents, memory, the socket, and the core's other parts.
use Prim.Native.String.{String}
use wish_c.Prelude.{ℕ, Bool, false, List, [], Option, none, replicate}
use wish_c.RingBuffer.{Ring}

-- `enum transport_state`
pub data TransportState : Type 0 where
  initial wait_frame_len wait_payload server_wait_initial : TransportState
  relay_client_send_session_id connecting resolving : TransportState

-- `enum protocol_state`
pub data ProtocolState : Type 0 where
  initial dh id_verify_send_client_hash id_verify_server_hash : ProtocolState
  wish_handshake wish_running server_dh server_verify_client_hash : ProtocolState
  server_wish_send_handshake server_wish_handshake_read_reply : ProtocolState

-- `enum wish_context_state`
pub data ContextState : Type 0 where
  free in_making connected closing : ContextState

-- `enum tcp_event`
pub data TcpEvent : Type 0 where
  tcp_connected tcp_disconnected tcp_client_connected tcp_client_disconnected : TcpEvent
  tcp_relay_session_connected : TcpEvent

-- WISH_ID_LEN, WISH_WHID_LEN, SHA256_HASH_LEN and the lengths of AES_GCM and of the relay.
abbrev pub wish_id_len : ℕ
wish_id_len = 32

abbrev pub auth_tag_len : ℕ
auth_tag_len = 16

abbrev pub signature_len : ℕ
signature_len = 64

-- `struct wish_context`. A pointer that may be NULL is an option. The ring buffer's memory is the
-- array `rx_ringbuf_backing`. `send` is the socket behind `send_arg` once a send function is
-- registered; `relay` is the session id of the relay client; `apps` are the service ids of the list.
pub record Connection : Type 0 where
  pub connection_id : ℕ
  pub context_state : ContextState
  pub send : Option ℕ
  pub curr_transport_state : TransportState
  pub curr_protocol_state : ProtocolState
  pub expect_bytes : ℕ
  pub luid : List ℕ
  pub ruid : List ℕ
  pub rhid : List ℕ
  pub aes_gcm_key_in : List ℕ
  pub aes_gcm_key_out : List ℕ
  pub aes_gcm_iv_in : List ℕ
  pub aes_gcm_iv_out : List ℕ
  pub server_dhm_ctx : Option (List ℕ)
  pub local_port : ℕ
  pub remote_port : ℕ
  pub local_ip_addr : List ℕ
  pub remote_ip_addr : List ℕ
  pub rx_ringbuf : Ring
  pub client_hash : List ℕ
  pub server_hash : List ℕ
  pub latest_input_timestamp : ℕ
  pub ping_sent_timestamp : ℕ
  pub close_timestamp : ℕ
  pub outgoing : Bool
  pub via_relay : Bool
  pub relay : Option (List ℕ)
  pub friend_req_connection : Bool
  pub friend_req_meta : Option (List ℕ)
  pub apps : List (List ℕ)

-- The ring buffer of a zeroed context; RX_RINGBUF_LEN is the port's choice.
abbrev pub zero_ring : ℕ → Ring
zero_ring len = record {
  read_at = 0;
  write_at = 0;
  data_len = 0;
  max_len = 0;
  state = 0;
  memory = replicate len 0;
}

-- `memset(connection, 0, sizeof(wish_connection_t))`
abbrev pub zero_connection : ℕ → Connection
zero_connection len = record {
  connection_id = 0;
  context_state = ContextState.free;
  send = none;
  curr_transport_state = TransportState.initial;
  curr_protocol_state = ProtocolState.initial;
  expect_bytes = 0;
  luid = replicate 32 0;
  ruid = replicate 32 0;
  rhid = replicate 32 0;
  aes_gcm_key_in = replicate 16 0;
  aes_gcm_key_out = replicate 16 0;
  aes_gcm_iv_in = replicate 12 0;
  aes_gcm_iv_out = replicate 12 0;
  server_dhm_ctx = none;
  local_port = 0;
  remote_port = 0;
  local_ip_addr = replicate 4 0;
  remote_ip_addr = replicate 4 0;
  rx_ringbuf = zero_ring len;
  client_hash = replicate 32 0;
  server_hash = replicate 32 0;
  latest_input_timestamp = 0;
  ping_sent_timestamp = 0;
  close_timestamp = 0;
  outgoing = false;
  via_relay = false;
  relay = none;
  friend_req_connection = false;
  friend_req_meta = none;
  apps = [];
}

-- What a connection does to the world, in the order in which it does it: bytes on its socket, and
-- calls into the core's other parts.
pub data Effect : Type 0 where
  sent : List ℕ → Effect
  socket_closed : ℕ → Effect
  resolver_cancelled : Effect
  signal : String → Effect
  offline_signal_to_apps : Connection → Effect
  rpc_requests_dropped : Effect
  dhm_freed : List ℕ → Effect
  friend_req_sent : Effect
  new_core_connection : Effect
  transports_updated : List ℕ → List ℕ → Effect
  meta_connect_added : List ℕ → Bool → Effect
  meta_connect_removed : List ℕ → Effect
  message_processed : List ℕ → Effect

-- What an RPC handler does to the connection on which its message came: a reply, the end of the
-- connection, or the sender of a friend request as its peer (`core_friend_req` of
-- src/wish_core_rpc.c, which only the server for friend request connections has).
pub data Request : Type 0 where
  reply : List ℕ → Request
  close : Request
  identify : List ℕ → Request

-- The world around one connection. mbedtls and ed25519 calls give `none` or `false` on an error;
-- random input to a call is part of the function. A context of mbedtls is a byte string.
pub record World : Type 0 where
  -- the port: RX_RINGBUF_LEN, whether a send of these bytes succeeds, whether malloc gives memory
  pub rx_ringbuf_len : ℕ
  pub send_ok : List ℕ → Bool
  pub alloc_ok : ℕ → Bool
  -- what the stack holds where a buffer is not written
  pub stack : List ℕ
  -- mbedtls
  pub dhm_ctx_len : ℕ
  pub dhm_init : List ℕ
  pub mpi_read_p : List ℕ → Option (List ℕ)
  pub mpi_read_g : List ℕ → Option (List ℕ)
  pub dhm_read_public : List ℕ → List ℕ → Bool × List ℕ
  pub dhm_make_public : List ℕ → Option (List ℕ × List ℕ)
  pub dhm_calc_secret : List ℕ → Option (List ℕ)
  pub sha256 : List ℕ → List ℕ
  pub gcm_setkey : List ℕ → Bool
  pub gcm_encrypt : List ℕ → List ℕ → List ℕ → Option (List ℕ × List ℕ)
  pub gcm_decrypt : List ℕ → List ℕ → List ℕ → Option (List ℕ × List ℕ)
  -- ed25519
  pub sign : List ℕ → List ℕ → List ℕ
  pub verify : List ℕ → List ℕ → List ℕ → Bool
  -- BSON: `bson_find_from_buffer` for a field of the type that the code asks for
  pub find_bin : List ℕ → String → Option (List ℕ)
  pub find_bool : List ℕ → String → Option Bool
  pub find_doc : List ℕ → String → Option (List ℕ)
  -- the identity database
  pub knows : List ℕ → Bool
  pub load_privkey : List ℕ → Option (List ℕ)
  pub load_pubkey : List ℕ → Option (List ℕ)
  pub unconfirmed_friend_request : List ℕ → Bool
  -- the core: its seconds, the contexts of the pool other than this one, the handshake document
  -- for a connection, `{ pong: true }`, and what the RPC server's handlers of a request and the RPC
  -- client's handlers of a response do on it
  pub now : ℕ
  pub others : List Connection
  pub handshake_msg : List ℕ → Bool → List ℕ
  pub pong_msg : List ℕ
  pub requests : Connection → List ℕ → List Request
  pub responses : Connection → List ℕ → List Request

-- A connection with what it has done, oldest first.
pub record Session : Type 0 where
  pub conn : Connection
  pub log : List Effect

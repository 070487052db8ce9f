-- ===== src/Connection/Tests.antt =====
-- Connections in a small world, and runs of the theorems about them.
use wish_c.Prelude.{
  ℕ, ◌-◌, ◌≤◌, ◌<◌, ◌≡◌, refl, true, false, List, [], ◌∷◌, ◌++◌, none, some, ◌⊎◌, arith, length,
  replicate, take, same, if◌then◌else◌,
}
use wish_c.RingBuffer.{Ring, read}
use wish_c.RingBuffer.Inv.{IsValid, contents}
use wish_c.Connection.Types.{
  Connection, TransportState, ProtocolState, ContextState, World, Session, zero_connection,
}
use wish_c.Connection.Close.{close_connection}
use wish_c.Connection.Cipher.{send_message, uint16_native2be}
use wish_c.Connection.Cipher.RoundTrip.{GcmWorks, Carried, message-Carried}
use wish_c.Connection.Handshake.{handle_payload}
use wish_c.Connection.Handshake.Outcome.{Outcome}
use wish_c.Connection.Handshake.Moves.{handle_payload-Outcome}
use wish_c.Connection.Handshake.Authentication.{
  Signed, ClosedOr, server_authenticates, client_authenticates,
}
use wish_c.Connection.Hello.{
  check_wsid, client_hello, client_hello_len, start_exchange, server_wait_initial,
}
use wish_c.Connection.Hello.RoundTrip.{greeted, hello-read}
use wish_c.Connection.Transport.{feed, process, process_data}
use wish_c.Connection.Transport.Rounds.{process_data-rounds}
use wish_c.Connection.Transport.Framing.{Delivered, frame-Delivered, feed_lem}

-- A cipher that leaves the text as it is and tags it with the length, and a signature that is the
-- hash behind the key.
abbrev toy_tag : List ℕ → List ℕ
toy_tag plain = length plain ∷ replicate 15 7

abbrev pub lab : World
lab = record {
  rx_ringbuf_len = 128;
  send_ok = λ bytes. true;
  alloc_ok = λ n. true;
  stack = replicate 256 0;
  dhm_ctx_len = 4;
  dhm_init = [];
  mpi_read_p = λ ctx. some (1 ∷ ctx);
  mpi_read_g = λ ctx. some (2 ∷ ctx);
  dhm_read_public = λ ctx p. (true, ctx ++ p);
  dhm_make_public = λ ctx. some (ctx, replicate 4 9);
  dhm_calc_secret = λ ctx. some (replicate 64 5);
  sha256 = λ bytes. take 32 (bytes ++ replicate 32 0);
  gcm_setkey = λ key. true;
  gcm_encrypt = λ key iv plain. some (plain, toy_tag plain);
  gcm_decrypt = λ key iv cipher. some (cipher, toy_tag cipher);
  sign = λ hash key. hash ++ key;
  verify = λ signature hash key. same signature (hash ++ key);
  find_bin = λ doc name. none;
  find_bool = λ doc name. none;
  find_doc = λ doc name. none;
  knows = λ id. true;
  load_privkey = λ id. some (replicate 32 1);
  load_pubkey = λ id. some (replicate 32 1);
  unconfirmed_friend_request = λ id. false;
  now = 5;
  others = [];
  handshake_msg = λ ruid friend. 4 ∷ [];
  pong_msg = 12 ∷ [];
  requests = λ conn doc. [];
  responses = λ conn doc. [];
}

lab_gcm : GcmWorks lab
lab_gcm = record {
  opens = λ key iv plain cipher tag e. ground arith;
  same_len = λ key iv plain cipher tag e. ground arith;
  key_ok = λ key. refl;
}

-- A ring buffer of 128 bytes that holds these, from its start on.
abbrev filled : List ℕ → Ring
filled bytes = record {
  read_at = 0;
  write_at = 0;
  data_len = length bytes;
  max_len = 128;
  state = 1;
  memory = bytes ++ replicate 128 0;
}

-- An open connection in a state of the protocol, with its input.
abbrev opened : TransportState → ProtocolState → List ℕ → Session
opened transport protocol bytes = record {
  conn = record (zero_connection 128) {
    context_state = ContextState.in_making;
    send = some 3;
    curr_transport_state = transport;
    curr_protocol_state = protocol;
    rx_ringbuf = filled bytes;
    client_hash = replicate 32 2;
    server_hash = replicate 32 2;
  };
  log = [];
}

abbrev pub server : Session
server = opened TransportState.wait_payload ProtocolState.server_verify_client_hash []

abbrev client : Session
client = opened TransportState.wait_payload ProtocolState.id_verify_send_client_hash []

-- The peer's signature of the hash, sealed.
abbrev proof : List ℕ
proof = replicate 32 2 ++ (replicate 32 1 ++ (64 ∷ replicate 15 7))

handle_payload-Outcome_example : Outcome lab server.conn (handle_payload lab server proof)
handle_payload-Outcome_example = handle_payload-Outcome lab server proof

server_authenticates_example :
    ClosedOr lab
      (Signed lab server proof server.conn.client_hash server.conn.ruid)
      (handle_payload lab server proof)
server_authenticates_example = server_authenticates lab server proof refl refl

client_authenticates_example :
    ClosedOr lab
      (Signed lab client proof client.conn.server_hash client.conn.ruid)
      (handle_payload lab client proof)
client_authenticates_example = client_authenticates lab client proof refl refl

message-Carried_example : Carried lab server client (1 ∷ 2 ∷ [])
unfolding send_message
message-Carried_example =
    message-Carried lab server client (1 ∷ 2 ∷ []) lab_gcm refl refl (omega arith) refl

-- Two frames, of which the second is not complete.
abbrev two_frames : Session
two_frames =
    opened TransportState.wait_frame_len ProtocolState.wish_running
      (0 ∷ 3 ∷ 7 ∷ 8 ∷ 9 ∷ 0 ∷ 5 ∷ 1 ∷ [])

two_frames-IsValid : IsValid two_frames.conn.rx_ringbuf
two_frames-IsValid = record {
  some_room = omega arith;
  in_memory = omega arith;
  word = omega arith;
  read_in = omega arith;
  len_in = omega arith;
}

frame-Delivered_example : Delivered lab two_frames (7 ∷ 8 ∷ 9 ∷ []) (0 ∷ 5 ∷ 1 ∷ [])
unfolding uint16_native2be
frame-Delivered_example =
    frame-Delivered lab two_frames (7 ∷ 8 ∷ 9 ∷ []) (0 ∷ 5 ∷ 1 ∷ []) two_frames-IsValid refl refl
      refl

process_data-rounds_example : process 20 lab two_frames ≡ some (process_data lab two_frames)
process_data-rounds_example = process_data-rounds lab 20 two_frames (omega arith)

abbrev more : List ℕ
more = 4 ∷ 6 ∷ []

feed_lem_example :
    ((length more ≤ two_frames.conn.rx_ringbuf.max_len - two_frames.conn.rx_ringbuf.data_len)
      × (contents (feed lab two_frames more).conn.rx_ringbuf
          ≡ contents two_frames.conn.rx_ringbuf ++ more)
      × IsValid (feed lab two_frames more).conn.rx_ringbuf)
    ⊎ ((two_frames.conn.rx_ringbuf.max_len - two_frames.conn.rx_ringbuf.data_len < length more)
        × (feed lab two_frames more ≡ close_connection lab two_frames))
feed_lem_example = feed_lem lab two_frames more two_frames-IsValid

-- The other end of a normal connection, and the end that got its hello.
abbrev peer : Connection
peer = record (zero_connection 128) { ruid = replicate 32 3; luid = replicate 32 4 }

abbrev incoming : Session
incoming =
    opened TransportState.server_wait_initial ProtocolState.initial
      (b'W' ∷ b'.' ∷ 17 ∷ (replicate 32 3 ++ replicate 32 4))

incoming-IsValid : IsValid incoming.conn.rx_ringbuf
incoming-IsValid = record {
  some_room = omega arith;
  in_memory = omega arith;
  word = omega arith;
  read_in = omega arith;
  len_in = omega arith;
}

abbrev incoming_rest : Session
incoming_rest = record incoming {
  conn = record (incoming.conn) { rx_ringbuf = (read incoming.conn.rx_ringbuf client_hello_len).2 };
}

hello-read_example : server_wait_initial lab incoming ≡ (
    if peer.friend_req_connection
    then (start_exchange lab (greeted incoming_rest true peer.ruid peer.luid))
    else (if check_wsid lab peer.ruid peer.luid
        then (start_exchange lab
            (greeted incoming_rest incoming.conn.friend_req_connection peer.ruid peer.luid))
        else (close_connection lab incoming_rest)))
unfolding client_hello
hello-read_example = hello-read lab incoming peer incoming-IsValid refl refl refl refl

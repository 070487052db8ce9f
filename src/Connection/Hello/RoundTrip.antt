-- ===== src/Connection/Hello/RoundTrip.antt =====
-- The hello that one end sends on TCP_CONNECTED, as TRANSPORT_STATE_SERVER_WAIT_INITIAL of the other
-- end reads it (src/wish_connection.c).
use wish_c.Prelude.{
  ℕ, ◌≡◌, refl, sym, ap, ap₂, ◌∙◌, append_assoc, Bool, true, false, List, ◌++◌, arith, leb, length,
  length-append, take, drop, take-append, drop-append, if◌then◌else◌,
}
use wish_c.RingBuffer.{read, data_length}
use wish_c.RingBuffer.Inv.{IsValid, contents, length-contents}
use wish_c.RingBuffer.Fifo.{read_lem}
use wish_c.RingBuffer.Views.{take-length}
use wish_c.Connection.Transport.Framing.{if_true}
use wish_c.Connection.Types.{Connection, World, Session, wish_id_len}
use wish_c.Connection.Close.{close_connection}
use wish_c.Connection.Hello.{
  preamble, wire_type_normal, wire_type_friend_req, client_hello, client_hello_len, check_wsid,
  start_exchange, server_wait_initial, read_hello, accept_ids,
}
use wish_c.Connection.Handshake.Secrets.{slice}

-- The session whose ids are those of a hello: its destination is the local one.
abbrev pub greeted : Session → Bool → List ℕ → List ℕ → Session
greeted s friend dst src = record s {
  conn = record (s.conn) { friend_req_connection = friend; luid = dst; ruid = src };
}

ids_read :
    (start dst src : List ℕ)
    → 3 ≡ length start
    → length dst ≡ wish_id_len
    → length src ≡ wish_id_len
    → (slice (start ++ (dst ++ src)) 3 wish_id_len ≡ dst)
      × (slice (start ++ (dst ++ src)) 35 wish_id_len ≡ src)
ids_read start dst src a b c =
    let first = ap (take wish_id_len) (drop-append start (dst ++ src) a) in
    let second =
      ap (drop 35) (sym (append_assoc start dst src))
      ∙ drop-append (start ++ dst) src {n = 35} (omega (arith, length-append start dst)) in
    (
      first ∙ take-append dst src (sym b),
      ap (take wish_id_len) second ∙ take-length wish_id_len src (omega arith),
    )

if_false {ℓ} : {A : Type ℓ} {b : Bool} (x : A) {y : A} → b ≡ false → (if b then x else y) ≡ y
if_false x e = rw e refl

module _ (w : World) (s : Session) (dst src : List ℕ) (dst_len : length dst ≡ wish_id_len)
    (src_len : length src ≡ wish_id_len) (fresh : s.conn.friend_req_connection ≡ false) where
  hello_read :
      (friend : Bool)
      → read_hello w s
          (preamble (if friend then wire_type_friend_req else wire_type_normal) ++ (dst ++ src))
        ≡ (if friend
            then (start_exchange w (greeted s true dst src))
            else (if check_wsid w dst src
                then (start_exchange w (greeted s s.conn.friend_req_connection dst src))
                else (close_connection w s)))
  unfolding read_hello accept_ids
  hello_read true =
      let ids = ids_read (preamble wire_type_friend_req) dst src refl dst_len src_len in
      ap₂ (λ d e. start_exchange w (greeted s true d e)) ids.0 ids.1
  hello_read false =
      let ids = ids_read (preamble wire_type_normal) dst src refl dst_len src_len in
      ap₂ (accept_ids w s) ids.0 ids.1 ∙ if_false _ fresh

module _ (w : World) where
  -- A hello of a connection whose ids have 32 bytes, alone in the ring buffer of a fresh incoming
  -- connection, is read back: a friend request starts the key exchange with the peer's remote id as
  -- the local one and the other way round; a normal connection does so if both ids are known and we
  -- hold the private key of the local one, and is closed if not.
  pub hello-read :
      (s : Session) (peer : Connection)
      → IsValid s.conn.rx_ringbuf
      → contents s.conn.rx_ringbuf ≡ client_hello peer
      → length peer.ruid ≡ wish_id_len
      → length peer.luid ≡ wish_id_len
      → s.conn.friend_req_connection ≡ false
      → let t = record s {
        conn = record (s.conn) { rx_ringbuf = (read s.conn.rx_ringbuf client_hello_len).2 };
      } in
        server_wait_initial w s ≡ (
          if peer.friend_req_connection
          then (start_exchange w (greeted t true peer.ruid peer.luid))
          else (if check_wsid w peer.ruid peer.luid
              then (start_exchange w (greeted t s.conn.friend_req_connection peer.ruid peer.luid))
              else (close_connection w t)))
  unfolding server_wait_initial client_hello data_length
  hello-read s peer v e dst src fresh =
      let t = record s {
        conn = record (s.conn) { rx_ringbuf = (read s.conn.rx_ringbuf client_hello_len).2 };
      } in
      let n = length-contents s.conn.rx_ringbuf in
      let len = length-append peer.ruid peer.luid in
      let all : leb client_hello_len s.conn.rx_ringbuf.data_len ≡ true =
        ground (arith, n, ap length e, len) in
      let taken = (read_lem client_hello_len v (omega arith)).1 ∙ ap (take client_hello_len) e in
      let whole = take-length client_hello_len (client_hello peer) (omega (arith, len)) in
      if_true s all
      ∙ ap (read_hello w t) (taken ∙ whole)
      ∙ hello_read w t peer.ruid peer.luid dst src fresh peer.friend_req_connection

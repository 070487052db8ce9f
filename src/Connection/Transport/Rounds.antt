-- ===== src/Connection/Transport/Rounds.antt =====
-- The loop of `wish_core_process_data` (src/wish_connection.c) ends, within the fuel that the model
-- gives it.
use wish_c.Prelude.{
  ℕ, zero, suc, Option, some, ◌+◌, ◌*◌, ◌≤◌, ◌≡◌, refl, sym, ap, ◌∙◌, Bool, true, false, arith, leb,
  if◌then◌else◌,
}
use wish_c.RingBuffer.{Ring, read, data_length}
use wish_c.RingBuffer.Views.{read-left}
use wish_c.Connection.Types.{Connection, TransportState, World, Session}
use wish_c.Connection.Handshake.{handle_payload}
use wish_c.Connection.Hello.{server_wait_initial}
use wish_c.Connection.Handshake.Outcome.{Outcome, closed, moved, renamed}
use wish_c.Connection.Handshake.Moves.{handle_payload-Outcome}
use wish_c.Connection.Transport.{
  step, process, process_data, enough_fuel, wait_frame_len, wait_payload, take_payload,
  send_session_id, expect_payload, finished,
}

-- Two runs of the loop end, with one result.
record BothEnd (x y : Option Session) : Type 0 where
  result : Session
  left : x ≡ some result
  right : y ≡ some result

ended : (s : Session) → BothEnd (some s) (some s)
ended s = record { result = s; left = refl; right = refl }

if_both :
    (b : Bool) {x y : Option Session} (z : Session)
    → (b ≡ true → BothEnd x y)
    → BothEnd (if b then x else (some z)) (if b then y else (some z))
if_both true z h = h refl
if_both false z h = ended z

-- The rounds that a session may still make.
abbrev rounds : TransportState → ℕ → ℕ
rounds TransportState.wait_payload len = 2 * len + 2
rounds TransportState.relay_client_send_session_id len = 2 * len + 2
rounds _ len = 2 * len + 1

left_over :
    {w : World} (c : Connection) (s : Session)
    → Outcome w c s
    → s.conn.rx_ringbuf.data_len ≤ c.rx_ringbuf.data_len
left_over c s (closed e) = rw (ap (λ (x : Connection). x.rx_ringbuf.data_len) e) (omega arith)
left_over c s (moved r n f i) = rw (ap (λ (x : Ring). x.data_len) r) (omega arith)
left_over c s (renamed k q r n f) = rw (ap (λ (x : Ring). x.data_len) r) (omega arith)

take_payload_lem :
    (w : World) (s : Session)
    → (take_payload w s).conn.rx_ringbuf.data_len ≤ s.conn.rx_ringbuf.data_len
unfolding take_payload
take_payload_lem w s =
    let r = read s.conn.rx_ringbuf s.conn.expect_bytes in
    let t = record s { conn = record (s.conn) { rx_ringbuf = r.2 } } in
    let o = left_over t.conn (handle_payload w t r.1) (handle_payload-Outcome w t r.1) in
    omega (arith, o, read-left s.conn.rx_ringbuf s.conn.expect_bytes)

rounds_pos : (q : TransportState) (len : ℕ) → ¬ (rounds q len ≤ 0)
rounds_pos TransportState.wait_payload len h = omega arith
rounds_pos TransportState.relay_client_send_session_id len h = omega arith
rounds_pos TransportState.initial len h = omega arith
rounds_pos TransportState.wait_frame_len len h = omega arith
rounds_pos TransportState.server_wait_initial len h = omega arith
rounds_pos TransportState.connecting len h = omega arith
rounds_pos TransportState.resolving len h = omega arith

rounds_bound : (q : TransportState) (len : ℕ) → rounds q len ≤ 2 * len + 4
rounds_bound TransportState.wait_payload len = omega arith
rounds_bound TransportState.relay_client_send_session_id len = omega arith
rounds_bound TransportState.initial len = omega arith
rounds_bound TransportState.wait_frame_len len = omega arith
rounds_bound TransportState.server_wait_initial len = omega arith
rounds_bound TransportState.connecting len = omega arith
rounds_bound TransportState.resolving len = omega arith

module _ (w : World) (n : ℕ) (again again' : Session → Option Session)
    (same : (s : Session)
      → rounds s.conn.curr_transport_state s.conn.rx_ringbuf.data_len ≤ n
      → BothEnd (again s) (again' s)) where
  wait_frame_len-same :
      (s : Session)
      → 2 * s.conn.rx_ringbuf.data_len + 1 ≤ suc n
      → BothEnd (wait_frame_len again s) (wait_frame_len again' s)
  unfolding wait_frame_len expect_payload data_length
  wait_frame_len-same s h = if_both (leb 2 s.conn.rx_ringbuf.data_len) s λ e.
      let s' = expect_payload s in
      if_both (leb s'.conn.expect_bytes s'.conn.rx_ringbuf.data_len) s'
        λ e'. same s' (ground (arith, read-left s.conn.rx_ringbuf 2))

  wait_payload-same :
      (s : Session)
      → 2 * s.conn.rx_ringbuf.data_len + 2 ≤ suc n
      → BothEnd (wait_payload w again s) (wait_payload w again' s)
  unfolding wait_payload
  wait_payload-same s h = if_both (leb s.conn.expect_bytes (data_length s.conn.rx_ringbuf)) s λ _.
      if_both (w.alloc_ok s.conn.expect_bytes) s λ _.
        if_both (leb 2 (data_length (take_payload w s).conn.rx_ringbuf)) (take_payload w s)
          λ _. same (take_payload w s) (omega (arith, take_payload_lem w s))

  step-same :
      (q : TransportState) (s : Session)
      → rounds q s.conn.rx_ringbuf.data_len ≤ suc n
      → BothEnd (step q w again s) (step q w again' s)
  unfolding step send_session_id
  step-same TransportState.wait_frame_len s h = wait_frame_len-same s h
  step-same TransportState.wait_payload s h = wait_payload-same s h
  step-same TransportState.server_wait_initial s h = ended (server_wait_initial w s)
  step-same TransportState.relay_client_send_session_id s h = same (send_session_id s) (omega arith)
  step-same TransportState.initial s h = ended s
  step-same TransportState.connecting s h = ended s
  step-same TransportState.resolving s h = ended s

module _ (w : World) where
  process-same :
      (n f g : ℕ) (s : Session)
      → rounds s.conn.curr_transport_state s.conn.rx_ringbuf.data_len ≤ n
      → n ≤ f
      → n ≤ g
      → BothEnd (process f w s) (process g w s)
  unfolding process
  process-same zero f g s h hf hg = absurd (rounds_pos s.conn.curr_transport_state _ h)
  process-same (suc n) zero g s h hf hg = absurd (omega arith)
  process-same (suc n) (suc f) zero s h hf hg = absurd (omega arith)
  process-same (suc n) (suc f) (suc g) s h hf hg =
      step-same w n (process f w) (process g w)
        (λ t ht. process-same n f g t ht (omega arith) (omega arith)) s.conn.curr_transport_state s
        h

  -- The loop over the received bytes ends: within twice the bytes in the ring buffer and four rounds
  -- it has a result, and any larger number of rounds gives the same one, in every state of the transport
  -- and of the protocol and for every input, also where the connection is closed under way.
  pub process_data-rounds :
      (fuel : ℕ) (s : Session) → enough_fuel s ≤ fuel → process fuel w s ≡ some (process_data w s)
  unfolding process_data
  process_data-rounds fuel s h =
      let enough = rounds_bound s.conn.curr_transport_state s.conn.rx_ringbuf.data_len in
      let both = process-same (enough_fuel s) fuel (enough_fuel s) s enough h (omega arith) in
      both.left ∙ sym (ap (λ x. some (finished s x)) both.right)

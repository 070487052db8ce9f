-- ===== src/Connection/Transport/Framing.antt =====
-- The received bytes are handled frame by frame (`wish_core_process_data` of src/wish_connection.c),
-- and `wish_core_feed` loses none of them.
use wish_c.Prelude.{
  ℕ, suc, ◌+◌, ◌-◌, ◌*◌, ◌^◌, ◌≤◌, ◌<◌, ◌≡◌, refl, sym, ap, ◌∙◌, Bool, true, false, some, List, [],
  ◌++◌, arith, leb, ◌⊎◌, inl, inr, Bool-cases, if◌then◌else◌, length, length-append, take, drop,
  take-append, drop-append, get_or,
}
use wish_c.RingBuffer.{Ring, read, space, data_length}
use wish_c.RingBuffer.Inv.{IsValid, contents, length-contents, space-eq}
use wish_c.RingBuffer.Fifo.{read_lem, write_lem}
use wish_c.RingBuffer.Views.{take-length}
use wish_c.Connection.Types.{TransportState, World, Session}
use wish_c.Connection.Close.{close_connection}
use wish_c.Connection.Cipher.{store16, uint16_native2be}
use wish_c.Connection.Handshake.{handle_payload}
use wish_c.Connection.Transport.{
  feed, set_transport, expect_payload, take_payload, process, process_data, finished, enough_fuel,
  step, wait_frame_len, wait_payload,
}
use wish_c.Connection.Transport.Rounds.{process_data-rounds}

-- The two bytes of a length, as the other end writes them, are read back.
length_read :
    (n : ℕ) (rest : List ℕ)
    → n < 2 ^ 16
    → get_or (store16 (uint16_native2be n) ++ rest) 0 0 * 256
        + get_or (store16 (uint16_native2be n) ++ rest) 1 0
      ≡ n
unfolding uint16_native2be
length_read n rest h = omega arith

-- A session whose ring buffer holds the rest behind a frame, with the frame's length noted.
abbrev pub at_payload : Session → ℕ → Ring → Session
at_payload s n r = record s {
  conn = record (s.conn) {
    rx_ringbuf = r;
    expect_bytes = n;
    curr_transport_state = TransportState.wait_payload;
  };
}

-- A frame was handed to the protocol, and the bytes behind it are processed as they are.
pub record Delivered (w : World) (s : Session) (body rest : List ℕ) : Type 0 where
  pub left : Ring
  pub left-IsValid : IsValid left
  pub held : contents left ≡ rest
  pub done :
      process_data w s
      ≡ process_data w (
          set_transport TransportState.wait_frame_len
            (handle_payload w (at_payload s (length body) left) body))

pub if_true {ℓ} : {A : Type ℓ} {b : Bool} {x : A} (y : A) → b ≡ true → (if b then x else y) ≡ x
if_true y e = rw e refl

-- With less than two bytes there is nothing to do in front of a frame.
idle :
    (w : World) (f : ℕ) (t : Session)
    → t.conn.curr_transport_state ≡ TransportState.wait_frame_len
    → leb 2 t.conn.rx_ringbuf.data_len ≡ false
    → process (suc f) w t ≡ some t
unfolding process step wait_frame_len data_length
idle w f t q h = ap (λ x. step x w (process f w) t) q ∙ rw h refl

again_or_idle :
    (w : World) (f : ℕ) (t : Session)
    → t.conn.curr_transport_state ≡ TransportState.wait_frame_len
    → (if leb 2 t.conn.rx_ringbuf.data_len then process (suc f) w t else (some t))
      ≡ process (suc f) w t
again_or_idle w f t q = elim (Bool-cases (leb 2 t.conn.rx_ringbuf.data_len)) [
  | inl e ↦ rw e refl
  | inr e ↦ rw e (sym (idle w f t q e))
]

module _ (w : World) where
  -- A feed within the room of the ring buffer puts all bytes behind those that wait there, in order,
  -- and keeps the invariant of the buffer; a longer one closes the connection.
  pub feed_lem :
      (s : Session) (bytes : List ℕ)
      → IsValid s.conn.rx_ringbuf
      → ((length bytes ≤ s.conn.rx_ringbuf.max_len - s.conn.rx_ringbuf.data_len)
          × (contents (feed w s bytes).conn.rx_ringbuf ≡ contents s.conn.rx_ringbuf ++ bytes)
          × IsValid (feed w s bytes).conn.rx_ringbuf)
        ⊎ ((s.conn.rx_ringbuf.max_len - s.conn.rx_ringbuf.data_len < length bytes)
            × (feed w s bytes ≡ close_connection w s))
  unfolding feed
  feed_lem s bytes v = elim (Bool-cases (leb (length bytes) (space s.conn.rx_ringbuf))) [
    | inl e ↦
        let room = space-eq v in
        let fits : length bytes ≤ s.conn.rx_ringbuf.max_len - s.conn.rx_ringbuf.data_len =
          ground arith in
        let l = write_lem bytes v (omega (arith, v.word)) in
        rw e (
          inl
            (fits, l.1 ∙ ap (λ x. contents s.conn.rx_ringbuf ++ x) (take-length _ bytes fits), l.2))
    | inr e ↦ let room = space-eq v in rw e (inr (ground arith, refl))
  ]

  module _ (s : Session) (body rest : List ℕ) (v : IsValid s.conn.rx_ringbuf)
      (e : contents s.conn.rx_ringbuf
        ≡ store16 (uint16_native2be (length body)) ++ (body ++ rest)) where
    frame_len : s.conn.rx_ringbuf.data_len ≡ length body + length rest + 2
    frame_len =
        omega (arith, length-contents s.conn.rx_ringbuf, ap length e, length-append body rest)

    short : length body < 2 ^ 16
    short = omega (arith, frame_len, v.len_in, v.word)

    -- The length of the frame is read, and what stands behind it is left.
    header_read :
        (expect_payload s ≡ at_payload s (length body) (read s.conn.rx_ringbuf 2).2)
        × IsValid (read s.conn.rx_ringbuf 2).2
        × (contents (read s.conn.rx_ringbuf 2).2 ≡ body ++ rest)
    unfolding expect_payload
    header_read =
        let l = read_lem 2 v (omega arith) in
        let n =
          ap (λ x. get_or x 0 0 * 256 + get_or x 1 0) (l.1 ∙ ap (take 2) e)
          ∙ length_read (length body) [] short in
        (ap (λ x. at_payload s x (read s.conn.rx_ringbuf 2).2) n, l.3, l.2 ∙ ap (drop 2) e)

    -- The payload is read, and handled.
    body_read :
        (take_payload w (at_payload s (length body) (read s.conn.rx_ringbuf 2).2)
          ≡ set_transport TransportState.wait_frame_len (
              handle_payload w
                (at_payload s (length body) (read (read s.conn.rx_ringbuf 2).2 (length body)).2)
                body))
        × IsValid (read (read s.conn.rx_ringbuf 2).2 (length body)).2
        × (contents (read (read s.conn.rx_ringbuf 2).2 (length body)).2 ≡ rest)
    unfolding take_payload
    body_read =
        let h = header_read in
        let r = (read s.conn.rx_ringbuf 2).2 in
        let l = read_lem (length body) h.1 short in
        let taken = l.1 ∙ ap (take (length body)) h.2 ∙ take-append body rest refl in
        (
          ap
              (λ x.
                set_transport TransportState.wait_frame_len
                  (handle_payload w (at_payload s (length body) (read r (length body)).2) x))
              taken,
          l.3,
          l.2 ∙ ap (drop (length body)) h.2 ∙ drop-append body rest refl,
        )

    module _ (q : s.conn.curr_transport_state ≡ TransportState.wait_frame_len)
        (memory : w.alloc_ok (length body) ≡ true) where
      to_payload :
          (f : ℕ)
          → process (suc f) w s
            ≡ process f w (at_payload s (length body) (read s.conn.rx_ringbuf 2).2)
      unfolding process step wait_frame_len data_length
      to_payload f =
          let h = header_read in
          let left = length-contents (read s.conn.rx_ringbuf 2).2 in
          let two : leb 2 s.conn.rx_ringbuf.data_len ≡ true = ground (arith, frame_len) in
          let all : leb (length body) (read s.conn.rx_ringbuf 2).2.data_len ≡ true =
            ground (arith, left, ap length h.2, length-append body rest) in
          let all' =
            ap (λ (x : Session). leb x.conn.expect_bytes x.conn.rx_ringbuf.data_len) h.0 ∙ all in
          ap (λ x. step x w (process f w) s) q
          ∙ if_true _ two
          ∙ if_true _ all'
          ∙ ap (process f w) h.0

      past_payload :
          (f : ℕ)
          → process (suc (suc f)) w (at_payload s (length body) (read s.conn.rx_ringbuf 2).2)
            ≡ process
                (suc f)
                w
                (take_payload w (at_payload s (length body) (read s.conn.rx_ringbuf 2).2))
      unfolding process step wait_payload data_length
      past_payload f =
          let h = header_read in
          let left = length-contents (read s.conn.rx_ringbuf 2).2 in
          let all : leb (length body) (read s.conn.rx_ringbuf 2).2.data_len ≡ true =
            ground (arith, left, ap length h.2, length-append body rest) in
          if_true _ all
          ∙ if_true _ memory
          ∙ again_or_idle w f
              (take_payload w (at_payload s (length body) (read s.conn.rx_ringbuf 2).2)) refl

      -- When the transport waits for a frame and the ring buffer starts with one, its length in
      -- network order before its bytes, and memory for it is there, then `wish_core_process_data`
      -- hands exactly these bytes to the protocol and goes on with what stands behind them.
      pub frame-Delivered : Delivered w s body rest
      unfolding take_payload
      frame-Delivered =
          let at = at_payload s (length body) (read s.conn.rx_ringbuf 2).2 in
          let b = body_read in
          let f = suc (enough_fuel s) + enough_fuel (take_payload w at) in
          record {
            left = (read (read s.conn.rx_ringbuf 2).2 (length body)).2;
            left-IsValid = b.1;
            held = b.2;
            done =
                ap (finished s) (
                  sym (process_data-rounds w (suc (suc (suc f))) s (omega arith))
                  ∙ to_payload (suc (suc f))
                  ∙ past_payload f
                  ∙ process_data-rounds w (suc f) (take_payload w at) (omega arith))
                ∙ ap (process_data w) b.0;
          }

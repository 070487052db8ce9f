-- ===== src/Relay/Again.antt =====
-- The loop `goto again` of `wish_relay_client_periodic` ends.
use wish_c.Prelude.{
  ℕ, zero, suc, ◌-◌, ◌≤◌, ◌≡◌, sym, ap, ◌∙◌, subst, Bool, true, false, Bool-cases, inl, inr, arith,
  leb,
}
use wish_c.RingBuffer.{data_length, read}
use wish_c.RingBuffer.Views.{read-left}
use wish_c.Connection.Handshake.Outcome.{if_cases}
use wish_c.Connection.Transport.Framing.{if_true}
use wish_c.Identity.Saving.{if_false}
use wish_c.Relay.{Relay, Net, Client, wait_round, wait_again}
use wish_c.Relay.Edges.{on_byte-relay}

-- What the loop does, however long it runs: it goes on while the flag of a round is set.
pub data Runs (net : Net) : Client → Client → Type 0 where
  stops : {s : Client} → (wait_round net s).0 ≡ false → Runs net s (wait_round net s).1
  goes_again :
      {s s' : Client}
      → (wait_round net s).0 ≡ true
      → Runs net (wait_round net s).1 s'
      → Runs net s s'

-- The bytes that were not read yet.
unfoldable pub waiting : Client → ℕ
waiting s = data_length s.relay.rx_ringbuf

module _ (net : Net) where
  wait_round-waiting : (s : Client) → waiting (wait_round net s).1 ≡ waiting s - 1
  unfolding waiting wait_round data_length
  wait_round-waiting s =
      if_cases
        (λ (r : Bool × Client). r.1.relay.rx_ringbuf.data_len ≡ s.relay.rx_ringbuf.data_len - 1)
        (leb 1 s.relay.rx_ringbuf.data_len)
        (λ e.
          ap (λ (r : Relay). r.rx_ringbuf.data_len)
            (on_byte-relay net
              (record s { relay = record (s.relay) { rx_ringbuf = (read s.relay.rx_ringbuf 1).2 } })
              (read s.relay.rx_ringbuf 1).1)
          ∙ read-left s.relay.rx_ringbuf 1)
        (λ e. nothing s.relay.rx_ringbuf.data_len e)
    where
      nothing : (n : ℕ) → leb 1 n ≡ false → n ≡ n - 1
      nothing n h = ground arith

  nothing_waits : (s : Client) → waiting s ≡ 0 → wait_round net s ≡ (false, s)
  unfolding waiting wait_round
  nothing_waits s h = if_false _ (none_left (data_length s.relay.rx_ringbuf) h)
    where
      none_left : (n : ℕ) → n ≡ 0 → leb 1 n ≡ false
      none_left n e = ground arith

  wait_again-Runs : (fuel : ℕ) (s : Client) → waiting s ≤ fuel → Runs net s (wait_again fuel net s)
  unfolding wait_again
  wait_again-Runs zero s h =
      let e = nothing_waits s (omega arith) in
      subst (Runs net s) (ap (λ r. r.1) e) (stops (ap (λ r. r.0) e))
  wait_again-Runs (suc fuel) s h = elim (Bool-cases (wait_round net s).0) [
    | inl e ↦ subst (Runs net s) (sym (if_true (wait_round net s).1 e)) (
        goes_again e
          (wait_again-Runs fuel (wait_round net s).1 (omega (arith, wait_round-waiting s))))
    | inr e ↦
        subst (Runs net s) (sym (if_false (wait_again fuel net (wait_round net s).1) e)) (stops e)
  ]

  -- The loop `goto again` of a client in WAIT ends: within as many rounds as bytes wait it comes to
  -- what it does when nothing bounds it.
  pub wait_again-ends : (s : Client) → Runs net s (wait_again (waiting s) net s)
  wait_again-ends s = wait_again-Runs (waiting s) s (omega arith)

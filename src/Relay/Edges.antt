-- ===== src/Relay/Edges.antt =====
-- The moves of a relay client's state machine (src/wish_relay_client.c).
use wish_c.Prelude.{
  ℕ, zero, suc, ◌≡◌, refl, sym, ap, ◌∙◌, subst, Bool, List, [], ◌∷◌, Option, none, some, leb, ◌==◌,
}
use wish_c.RingBuffer.{data_length, read}
use wish_c.Connection.Handshake.Outcome.{if_cases}
use wish_c.Pool.{Core}
use wish_c.Relay.{
  RelayState, initial, resolving, connecting, opened, read_session_id, wait, closing,
  wait_reconnect, Relay, Connect, in_progress, connected, failed, Net, Client, after_connect,
  after_socket, port_open, open_host, client_open, client_close, open_first, overdue, tick_in, tick,
  client_periodic, periodic_in, accept, disconnect_cb, in_state, open_to, on_byte, wait_round,
  wait_again,
}
use wish_c.Address.{parse_transport_ip}

-- A move of one round of `wish_core_relay_periodic`.
pub data Edge : RelayState → RelayState → Type 0 where
  stay : (p : RelayState) → Edge p p
  resolve : Edge initial resolving
  connect : Edge initial connecting
  give_up : Edge initial wait_reconnect
  connect_timed_out : Edge connecting wait_reconnect
  server_timed_out : Edge wait wait_reconnect
  retry : Edge wait_reconnect initial

-- A client that was opened tries to connect, or waits to do so.
pub data IsTrying : RelayState → Type 0 where
  asks_resolver : IsTrying resolving
  asks_server : IsTrying connecting
  waits : IsTrying wait_reconnect

module _ (net : Net) where
  open_host-IsTrying :
      (s : Client) (o : Option (List ℕ)) → IsTrying (open_host net s o).relay.curr_state
  unfolding open_host port_open after_socket after_connect
  open_host-IsTrying s none = asks_resolver
  open_host-IsTrying s (some ip) = by_socket net.socket
    where
      by_connect :
          (s : Client) (c : Connect)
          → s.relay.curr_state ≡ connecting
          → IsTrying (after_connect s c).relay.curr_state
      by_connect s in_progress e = subst IsTrying (sym e) asks_server
      by_connect s connected e = subst IsTrying (sym e) asks_server
      by_connect s failed e = waits

      by_socket :
          (o : Option ℕ)
          → IsTrying
              (after_socket net
                (record s {
                  relay = record (s.relay) { curr_state = connecting; sockfd = net.socket };
                })
                ip
                o).relay.curr_state
      by_socket none = waits
      by_socket (some fd) = by_connect _ (net.connect ip s.relay.port) refl

  pub client_open-IsTrying :
      (s : Client) (uid : List ℕ) → IsTrying (client_open net s uid).relay.curr_state
  unfolding client_open
  client_open-IsTrying s uid = open_host-IsTrying _ (parse_transport_ip net.atoi s.relay.host)

  trying-Edge : {p : RelayState} → IsTrying p → Edge initial p
  trying-Edge asks_resolver = resolve
  trying-Edge asks_server = connect
  trying-Edge waits = give_up

  open_to-relay : (s : Client) (i : ℕ) (o : Option (List ℕ)) → (open_to net s i o).relay ≡ s.relay
  unfolding open_to
  open_to-relay s i none = refl
  open_to-relay s i (some ip) = refl

  accept-relay : (s : Client) (r : Option ℕ × Core) → (accept net s r).1.relay ≡ s.relay
  unfolding accept
  accept-relay s (none, core) = refl
  accept-relay s (some i, core) = open_to-relay _ i (parse_transport_ip net.atoi s.relay.host)

  -- A byte changes nothing of the client itself.
  pub on_byte-relay : (s : Client) (bytes : List ℕ) → (on_byte net s bytes).1.relay ≡ s.relay
  unfolding on_byte
  on_byte-relay s [] = refl
  on_byte-relay s (byte ∷ rest) =
      if_cases (λ (r : Bool × Client). r.1.relay ≡ s.relay) (byte == b'.') (λ e. refl)
        (λ e.
          if_cases (λ (r : Bool × Client). r.1.relay ≡ s.relay) (byte == b':')
            (λ f. accept-relay s _) (λ f. refl))

  wait_round-state : (s : Client) → (wait_round net s).1.relay.curr_state ≡ s.relay.curr_state
  unfolding wait_round
  wait_round-state s =
      if_cases (λ (r : Bool × Client). r.1.relay.curr_state ≡ s.relay.curr_state)
        (leb 1 (data_length s.relay.rx_ringbuf))
        (λ e.
          ap (λ (r : Relay). r.curr_state)
            (on_byte-relay
              (record s { relay = record (s.relay) { rx_ringbuf = (read s.relay.rx_ringbuf 1).2 } })
              (read s.relay.rx_ringbuf 1).1))
        (λ e. refl)

  wait_again-state :
      (fuel : ℕ) (s : Client) → (wait_again fuel net s).relay.curr_state ≡ s.relay.curr_state
  unfolding wait_again
  wait_again-state zero s = refl
  wait_again-state (suc fuel) s =
      if_cases (λ (r : Client). r.relay.curr_state ≡ s.relay.curr_state) (wait_round net s).0
        (λ e. wait_again-state fuel (wait_round net s).1 ∙ wait_round-state s)
        (λ e. wait_round-state s)

  tick_in-Edge :
      (p : RelayState) (uid_list : List (List ℕ)) (s : Client)
      → s.relay.curr_state ≡ p
      → Edge p (tick_in p net uid_list s).relay.curr_state
  unfolding tick_in client_close disconnect_cb open_first client_periodic periodic_in
  tick_in-Edge initial [] s e = subst (Edge initial) (sym e) (stay initial)
  tick_in-Edge initial (uid ∷ uids) s e = trying-Edge (client_open-IsTrying s uid)
  tick_in-Edge resolving us s e = subst (Edge resolving) (sym e) (stay resolving)
  tick_in-Edge connecting us s e =
      if_cases (λ (r : Client). Edge connecting r.relay.curr_state) (overdue net s.relay 30)
        {x = client_close net s} {y = s} (λ o. connect_timed_out)
        (λ o. subst (Edge connecting) (sym e) (stay connecting))
  tick_in-Edge opened us s e = subst (Edge opened) (sym e) (stay opened)
  tick_in-Edge read_session_id us s e = subst (Edge read_session_id) (sym e) (stay read_session_id)
  tick_in-Edge wait us s e =
      if_cases (λ (r : Client). Edge wait r.relay.curr_state) (overdue net s.relay 45)
        {x = client_close net s} {y = client_periodic net s} (λ o. server_timed_out)
        (λ o.
          subst (Edge wait)
            (sym (
              ap (λ p. (periodic_in p net s).relay.curr_state) e
              ∙ wait_again-state (data_length s.relay.rx_ringbuf) s
              ∙ e))
            (stay wait))
  tick_in-Edge closing us s e = subst (Edge closing) (sym e) (stay closing)
  tick_in-Edge wait_reconnect us s e =
      if_cases (λ (r : Client). Edge wait_reconnect r.relay.curr_state) (overdue net s.relay 10)
        {x = in_state s initial} {y = s} (λ o. retry)
        (λ o. subst (Edge wait_reconnect) (sym e) (stay wait_reconnect))

  -- A round of `wish_core_relay_periodic` leaves the state of a client or makes one of these moves: an
  -- initial client is opened, so that its host is resolved, its connection is being made or that
  -- failed at once; a client that connects or waits for its server goes on to wait for a new attempt,
  -- and after that it is initial again.
  pub tick-Edge :
      (uid_list : List (List ℕ)) (s : Client)
      → Edge s.relay.curr_state (tick net uid_list s).relay.curr_state
  unfolding tick
  tick-Edge uid_list s = tick_in-Edge s.relay.curr_state uid_list s refl

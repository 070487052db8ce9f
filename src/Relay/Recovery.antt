-- ===== src/Relay/Recovery.antt =====
-- A relay client whose server went silent tries again.
use wish_c.Prelude.{
  ℕ, ◌+◌, ◌%◌, ◌^◌, ◌<◌, ◌≡◌, refl, sym, ap, ◌∙◌, subst, true, Option, none, some, List, ◌∷◌, arith,
  ltb,
}
use wish_c.Connection.Transport.Framing.{if_true}
use wish_c.Address.{parse_transport_ip}
use wish_c.Relay.{
  RelayState, initial, resolving, connecting, wait, Connect, in_progress, connected, failed, Relay,
  after_connect, after_socket, open_host, port_open, client_open, Net, Client, client_close,
  disconnect_cb, in_state, open_first, overdue, tick_in, tick, server_timeout, connect_timeout,
  reconnect_timeout,
}

-- The client heard nothing for too long.
pub data IsSilent (net : Net) (relay : Relay) : Type 0 where
  no_answer :
      relay.curr_state ≡ connecting → overdue net relay connect_timeout ≡ true → IsSilent net relay
  no_keep_alive :
      relay.curr_state ≡ wait → overdue net relay server_timeout ≡ true → IsSilent net relay

-- A name is being resolved, or an address connected to.
pub data IsUnderWay : RelayState → Type 0 where
  asks_resolver : IsUnderWay resolving
  asks_server : IsUnderWay connecting

module _ (net : Net) (works : (ip : List ℕ) (port : ℕ) → ¬ (net.connect ip port ≡ failed)) where
  after_connect-IsUnderWay :
      (s : Client) (c : Connect)
      → s.relay.curr_state ≡ connecting
      → ¬ (c ≡ failed)
      → IsUnderWay (after_connect s c).relay.curr_state
  unfolding after_connect
  after_connect-IsUnderWay s in_progress e n = subst IsUnderWay (sym e) asks_server
  after_connect-IsUnderWay s connected e n = subst IsUnderWay (sym e) asks_server
  after_connect-IsUnderWay s failed e n = absurd (n refl)

  after_socket-IsUnderWay :
      (s : Client) (ip : List ℕ) (o : Option ℕ) {fd : ℕ}
      → s.relay.curr_state ≡ connecting
      → o ≡ some fd
      → IsUnderWay (after_socket net s ip o).relay.curr_state
  unfolding after_socket
  after_socket-IsUnderWay s ip none e h = absurd cc
  after_socket-IsUnderWay s ip (some fd) e h =
      after_connect-IsUnderWay s (net.connect ip s.relay.port) e (works ip s.relay.port)

  open_host-IsUnderWay :
      (s : Client) (o : Option (List ℕ)) {fd : ℕ}
      → net.socket ≡ some fd
      → IsUnderWay (open_host net s o).relay.curr_state
  unfolding open_host port_open
  open_host-IsUnderWay s none h = asks_resolver
  open_host-IsUnderWay s (some ip) h =
      after_socket-IsUnderWay
        (record s { relay = record (s.relay) { curr_state = connecting; sockfd = net.socket } }) ip
        net.socket refl h

  client_open-IsUnderWay :
      (s : Client) (uid : List ℕ) {fd : ℕ}
      → net.socket ≡ some fd
      → IsUnderWay (client_open net s uid).relay.curr_state
  unfolding client_open
  client_open-IsUnderWay s uid h =
      open_host-IsUnderWay _ (parse_transport_ip net.atoi s.relay.host) h

closed-tick :
    (net : Net) (us : List (List ℕ)) (s : Client)
    → IsSilent net s.relay
    → tick net us s ≡ client_close net s
unfolding tick tick_in
closed-tick net us s (no_answer e o) = ap (λ p. tick_in p net us s) e ∙ if_true s o
closed-tick net us s (no_keep_alive e o) = ap (λ p. tick_in p net us s) e ∙ if_true _ o

-- Three rounds of `wish_core_relay_periodic`, one of them when a client that connects or waits for its
-- server has heard nothing for too long, one more than ten seconds later (and before the clock of 32
-- bits is at its end), and one when the core has an identity, gets a socket, and no connect fails at
-- once: then the client connects to its server again, or has its name resolved.
pub silent-IsUnderWay :
    (net later last : Net) (us : List (List ℕ)) (uid : List ℕ) (uids : List (List ℕ)) (s : Client)
    (fd : ℕ)
    → IsSilent net s.relay
    → net.world.now + reconnect_timeout < later.world.now
    → later.world.now < 2 ^ 32
    → last.socket ≡ some fd
    → ((ip : List ℕ) (port : ℕ) → ¬ (last.connect ip port ≡ failed))
    → IsUnderWay (tick last (uid ∷ uids) (tick later us (tick net us s))).relay.curr_state
unfolding tick tick_in open_first client_close disconnect_cb overdue
silent-IsUnderWay net later last us uid uids s fd silent past clock socket works =
    subst (λ (r : Client). IsUnderWay (tick last (uid ∷ uids) (tick later us r)).relay.curr_state)
      (sym (closed-tick net us s silent))
      (subst (λ (r : Client). IsUnderWay (tick last (uid ∷ uids) r).relay.curr_state)
        (sym (if_true (client_close net s) (is_past net.world.now later.world.now past clock)))
        (client_open-IsUnderWay last works (in_state (client_close net s) initial) uid socket))
  where
    is_past : (n m : ℕ) → n + 10 < m → m < 2 ^ 32 → ltb ((n + 10) % 2 ^ 32) m ≡ true
    is_past n m h k = ground arith

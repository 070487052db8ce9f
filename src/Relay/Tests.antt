-- ===== src/Relay/Tests.antt =====
-- Relay clients on small inputs.
use wish_c.Prelude.{ℕ, ◌≡◌, refl, true, List, [], ◌∷◌, some, arith, replicate}
use wish_c.RingBuffer.{Ring}
use wish_c.Connection.Tests.{lab}
use wish_c.Address.Tests.{atoi_one}
use wish_c.Relay.{wait, Relay, in_progress, Net, Client, new_relay, tick, overdue, wait_again}
use wish_c.Relay.Edges.{Edge, tick-Edge}
use wish_c.Relay.Recovery.{no_keep_alive, IsUnderWay, silent-IsUnderWay}
use wish_c.Relay.Again.{Runs, waiting, wait_again-ends}

abbrev net_at : ℕ → Net
net_at t = record {
  world = record lab { now = t };
  atoi = atoi_one;
  socket = some 9;
  connect = λ ip port. in_progress;
}

-- ".:" waits in the buffer.
abbrev two_bytes : Ring
two_bytes = record {
  read_at = 0;
  write_at = 0;
  data_len = 2;
  max_len = 64;
  state = 1;
  memory = b':' ∷ (b'.' ∷ replicate 62 0);
}

abbrev waiting_client : Client
waiting_client = record {
  relay = record {
    sockfd = some 9;
    uid = replicate 32 1;
    session_id = replicate 10 5;
    curr_state = wait;
    rx_ringbuf = two_bytes;
    host = b'h' ∷ [];
    port = 7;
    last_input_timestamp = 100;
  };
  core = record { connection_pool = []; next_conn_id = 1; log = [] };
  actions = [];
}

tick-Edge_example :
    Edge waiting_client.relay.curr_state (tick (net_at 146) [] waiting_client).relay.curr_state
tick-Edge_example = tick-Edge (net_at 146) [] waiting_client

heard_nothing : overdue (net_at 146) waiting_client.relay 45 ≡ true
unfolding overdue
heard_nothing = refl

silent-IsUnderWay_example :
    IsUnderWay
      (tick
        (net_at 200)
        (replicate 32 1 ∷ [])
        (tick (net_at 157) [] (tick (net_at 146) [] waiting_client))).relay.curr_state
silent-IsUnderWay_example =
    silent-IsUnderWay (net_at 146) (net_at 157) (net_at 200) [] (replicate 32 1) [] waiting_client 9
      (no_keep_alive refl heard_nothing) (omega arith) (omega arith) refl (λ ip port e. absurd cc)

wait_again-ends_example :
    Runs
      (net_at 101)
      waiting_client
      (wait_again (waiting waiting_client) (net_at 101) waiting_client)
wait_again-ends_example = wait_again-ends (net_at 101) waiting_client

abbrev one_server : List Relay
one_server = new_relay (b'h' ∷ []) 7 ∷ []

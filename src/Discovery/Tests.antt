-- ===== src/Discovery/Tests.antt =====
-- Local discovery with a table of three places and a pool of one, and the check of connections.
use wish_c.Prelude.{
  same, ◌≡◌, refl, false, List, [], ◌∷◌, none, some, arith, replicate, length, ◌==◌, if◌then◌else◌,
}
use wish_c.Connection.Types.{zero_connection}
use wish_c.Connection.Tests.{lab}
use wish_c.Identity.{Bson, load_fields, get_meta_connect, is_banned}
use wish_c.Identity.Scan.{scan, peek}
use wish_c.Identity.Database.{get_num_uid_entries, load_uid_list, identity_load}
use wish_c.Pool.{Core, is_connected_luid_ruid}
use wish_c.ServiceRegistry.Lookup.{count}
use wish_c.Identity.Tests.{small, small_disk}
use wish_c.Discovery.{nothing, Peer, Announced, feed_table}
use wish_c.Discovery.Table.{is_entry, IsTable, feed_table-IsTable}
use wish_c.Address.Tests.{atoi_one}
use wish_c.Manager.Check.{Checked, check_peers, try_peer, try_transports, connections_check}
use wish_c.Manager.Check.Allowed.{AllAllowed, connections_check-AllAllowed}

abbrev vacant : Peer
vacant = record {
  occupied = false;
  kind = nothing;
  ruid = [];
  rhid = [];
  pubkey = [];
  alias = [];
  claim = false;
  timestamp = 0;
  transport_ip = [];
  transport_port = 0;
  meta = none;
  class = none;
}

abbrev three_places : List Peer
three_places = vacant ∷ (vacant ∷ (vacant ∷ []))

abbrev from_two : Announced
from_two = record {
  ruid = replicate 32 2;
  rhid = replicate 32 8;
  pubkey = replicate 32 6;
  alias = 67 ∷ [];
  claim = false;
  product = none;
  tcp_port = 37008;
}

three_places-IsTable : IsTable three_places
unfolding count is_entry
three_places-IsTable = record { once = λ ruid rhid. omega arith }

abbrev one_context : Core
one_context = record { connection_pool = zero_connection 8 ∷ []; next_conn_id = 1; log = [] }

feed_table-IsTable_example :
    IsTable (feed_table 100 from_two (10 ∷ (0 ∷ (0 ∷ (2 ∷ [])))) three_places).0
feed_table-IsTable_example =
    feed_table-IsTable 100 from_two (10 ∷ (0 ∷ (0 ∷ (2 ∷ [])))) three_places three_places-IsTable

-- Identities with the transport "1.2.3.4:5" each.
abbrev reachable : Bson
reachable = record small {
  find_transport = λ doc i.
      if i == 0
      then some (b'1' ∷ (b'.' ∷ (b'2' ∷ (b'.' ∷ (b'3' ∷ (b'.' ∷ (b'4' ∷ (b':' ∷ (b'5' ∷ [])))))))))
      else none;
}

abbrev checked : Checked
checked = connections_check reachable 100 small_disk atoi_one lab one_context 4

-- The second identity is tried.
one_attempt : length checked.attempts ≡ 1
unfolding connections_check get_num_uid_entries scan peek load_uid_list check_peers
    is_connected_luid_ruid identity_load same load_fields try_peer get_meta_connect is_banned
    try_transports
one_attempt = refl

connections_check-AllAllowed_example :
    AllAllowed reachable 100 small_disk atoi_one
      (connections_check reachable 100 small_disk atoi_one lab one_context 4).attempts
connections_check-AllAllowed_example =
    connections_check-AllAllowed reachable 100 small_disk atoi_one lab one_context 4

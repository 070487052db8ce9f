-- ===== src/Manager/Check.antt =====
-- `wish_connections_check` and `wish_connections_connect_transport` of src/wish_connection_mgr.c: the
-- connections that are attempted to the peers of the identity database.
pub mod Allowed
use wish_c.Prelude.{
  ℕ, Bool, true, false, not, ◌||◌, List, [], ◌∷◌, ◌++◌, Option, none, some, length, get_or, ltb,
  ◌==◌, if◌then◌else◌,
}
use wish_c.Connection.Types.{Connection, World, zero_connection}
use wish_c.Connection.Close.{close_connection}
use wish_c.Pool.{Core, connection_init, is_connected_luid_ruid, sweep}
use wish_c.Address.{
  HostPort, no_colon, negative_length, host_port, parse_transport_ip_port,
  parse_transport_host_port,
}
use wish_c.Identity.{Identity, Bson, is_banned, get_meta_connect}
use wish_c.Identity.Scan.{Disk}
use wish_c.Identity.Database.{identity_load, get_num_uid_entries, load_uid_list}

-- What a call of `wish_connections_connect_transport` came to: it failed, the pool was full, or the
-- connection of this index, as it is handed to the port, is opened to an address or to a host that is
-- resolved.
pub data Opening : Type 0 where
  not_opened no_context : Opening
  by_address : ℕ → Connection → List ℕ → ℕ → Opening
  by_host : ℕ → Connection → List ℕ → ℕ → Opening

pub record Attempt : Type 0 where
  pub ruid : List ℕ
  pub transport : List ℕ
  pub opening : Opening

-- The pool, and the attempts that were made.
pub record Checked : Type 0 where
  pub core : Core
  pub attempts : List Attempt

unfoldable pub context_at : Core → ℕ → Connection
context_at core i = get_or core.connection_pool i (zero_connection 0)

unfoldable pub close_at : World → Core → ℕ → Core
close_at w core i = sweep (λ j w' s. if j == i then close_connection w' s else s) w core

module _ (b : Bson) (peek_len : ℕ) (disk : Disk) (atoi : List ℕ → ℕ) (w : World) where
  unfoldable pub open_host_port : Core → ℕ → HostPort → Opening × Core
  open_host_port core i no_colon = (not_opened, close_at w core i)
  open_host_port core i negative_length = (not_opened, close_at w core i)
  open_host_port core i (host_port host none) = (not_opened, close_at w core i)
  open_host_port core i (host_port host (some port)) =
      (by_host i (context_at core i) host port, core)

  unfoldable pub open_address : Core → ℕ → List ℕ → Option (List ℕ × ℕ) → Opening × Core
  unfolding open_host_port
  open_address core i transport none =
      open_host_port core i (parse_transport_host_port atoi transport)
  open_address core i transport (some (ip, port)) = (by_address i (context_at core i) ip port, core)

  unfoldable pub open_transport : Core → List ℕ → Option ℕ → Opening × Core
  unfolding open_address
  open_transport core transport none = (no_context, core)
  open_transport core transport (some i) =
      open_address core i transport (parse_transport_ip_port atoi transport)

  unfoldable pub connect_loaded :
      Core → List ℕ → List ℕ → List ℕ → Option Identity → Option Identity → Opening × Core
  unfolding open_transport
  connect_loaded core luid ruid transport none ru = (not_opened, core)
  connect_loaded core luid ruid transport (some lu) none = (not_opened, core)
  connect_loaded core luid ruid transport (some lu) (some ru) =
      let r = connection_init w core luid ruid in open_transport r.1 transport r.0

  -- `wish_connections_connect_transport`
  unfoldable pub connect_transport : Core → List ℕ → List ℕ → List ℕ → Opening × Core
  unfolding connect_loaded
  connect_transport core luid ruid transport =
      connect_loaded core luid ruid transport (identity_load b peek_len disk luid)
        (identity_load b peek_len disk ruid)

  -- The loop over the transports of a peer.
  unfoldable pub try_transports : Checked → List ℕ → List ℕ → List (List ℕ) → Checked
  try_transports c luid ruid [] = c
  try_transports c luid ruid (url ∷ rest) =
      if ltb 0 (length url)
      then (let r = connect_transport c.core luid ruid url in
          try_transports
            (record {
              core = r.1;
              attempts = c.attempts ++ record { ruid = ruid; transport = url; opening = r.0 } ∷ [];
            })
            luid ruid rest)
      else try_transports c luid ruid rest

  -- What is done with a peer that was loaded.
  unfoldable pub try_peer : Checked → List ℕ → List ℕ → Identity → Checked
  try_peer c luid ruid id =
      if not (get_meta_connect b id) || is_banned b id
      then c
      else try_transports c luid ruid id.transports

  unfoldable pub after_load :
      (Checked → Checked) → Checked → List ℕ → List ℕ → Option Identity → Checked
  after_load next c luid ruid none = c
  after_load next c luid ruid (some id) = next (try_peer c luid ruid id)

  -- The loop over the peers. It ends at a peer that cannot be loaded.
  unfoldable pub check_peers : Checked → List ℕ → List (List ℕ) → Checked
  unfolding after_load
  check_peers c luid [] = c
  check_peers c luid (ruid ∷ rest) =
      let next = check_peers c luid rest in
      if is_connected_luid_ruid c.core luid ruid
      then next
      else after_load (λ c'. check_peers c' luid rest) c luid ruid
          (identity_load b peek_len disk ruid)

  -- The first identity is the own one.
  unfoldable pub check_list : Checked → Option (List (List ℕ)) → Checked
  check_list c none = c
  check_list c (some []) = c
  check_list c (some (luid ∷ rest)) = check_peers c luid rest

  unfoldable pub check_count : Checked → Option ℕ → Checked
  unfolding check_list
  check_count c none = c
  check_count c (some num_uids) = check_list c (load_uid_list b peek_len disk num_uids)

  -- `wish_connections_check`
  unfoldable pub connections_check : Core → ℕ → Checked
  unfolding check_count
  connections_check core max_uids =
      check_count (record { core = core; attempts = [] })
        (get_num_uid_entries b peek_len disk max_uids)

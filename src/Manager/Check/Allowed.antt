-- ===== src/Manager/Check/Allowed.antt =====
-- Which peers `wish_connections_check` tries to connect to.
use wish_c.Prelude.{
  ℕ, ◌≡◌, refl, sym, Bool, true, false, not, ◌||◌, List, [], ◌∷◌, ◌++◌, Option, none, some, length,
  ltb,
}
use wish_c.Connection.Types.{Connection, World, zero_connection}
use wish_c.Connection.Handshake.Outcome.{if_cases}
use wish_c.Pool.Init.{connection_init-peer}
use wish_c.Address.{
  HostPort, no_colon, negative_length, host_port, parse_transport_ip_port,
  parse_transport_host_port,
}
use wish_c.Pool.{Core, connection_init, is_connected_luid_ruid}
use wish_c.Identity.{Identity, Bson, is_banned, get_meta_connect}
use wish_c.Identity.Scan.{Disk}
use wish_c.Identity.Database.{identity_load, get_num_uid_entries, load_uid_list}
use wish_c.Manager.Check.{
  Opening, not_opened, no_context, by_address, by_host, context_at, open_host_port, open_address,
  open_transport, connect_loaded, connect_transport, Attempt, Checked, try_transports, try_peer,
  after_load, check_peers, check_list, check_count, connections_check,
}

module _ (b : Bson) (peek_len : ℕ) (disk : Disk) where
  -- What is opened is a connection to this peer, at what the transport names.
  pub data Reaches (atoi : List ℕ → ℕ) (ruid transport : List ℕ) : Opening → Type 0 where
    nothing_opened : Reaches atoi ruid transport not_opened
    pool_full : Reaches atoi ruid transport no_context
    to_address :
        {i : ℕ} {c : Connection} {ip : List ℕ} {port : ℕ}
        → c.ruid ≡ ruid
        → parse_transport_ip_port atoi transport ≡ some (ip, port)
        → Reaches atoi ruid transport (by_address i c ip port)
    to_host :
        {i : ℕ} {c : Connection} {host : List ℕ} {port : ℕ}
        → c.ruid ≡ ruid
        → parse_transport_host_port atoi transport ≡ host_port host (some port)
        → Reaches atoi ruid transport (by_host i c host port)

  -- An attempt that the identity of the peer allows.
  pub record IsAllowed (atoi : List ℕ → ℕ) (a : Attempt) : Type 0 where
    pub id : Identity
    pub is_known : identity_load b peek_len disk a.ruid ≡ some id
    pub wanted : get_meta_connect b id ≡ true
    pub not_banned : is_banned b id ≡ false
    pub not_empty : ltb 0 (length a.transport) ≡ true
    pub reaches : Reaches atoi a.ruid a.transport a.opening

  pub data AllAllowed (atoi : List ℕ → ℕ) : List Attempt → Type 0 where
    no_attempts : AllAllowed atoi []
    and_attempt :
        {a : Attempt} {l : List Attempt}
        → IsAllowed atoi a
        → AllAllowed atoi l
        → AllAllowed atoi (a ∷ l)

  AllAllowed-snoc :
      {atoi : List ℕ → ℕ} (l : List Attempt) (a : Attempt)
      → AllAllowed atoi l
      → IsAllowed atoi a
      → AllAllowed atoi (l ++ a ∷ [])
  AllAllowed-snoc [] a no_attempts h = and_attempt h no_attempts
  AllAllowed-snoc (x ∷ l) a (and_attempt k r) h = and_attempt k (AllAllowed-snoc l a r h)

  module _ (atoi : List ℕ → ℕ) (w : World) where
    module _ (core : Core) (ruid url : List ℕ) where
      open_host_port-Reaches :
          (i : ℕ) (p : HostPort)
          → (context_at core i).ruid ≡ ruid
          → parse_transport_host_port atoi url ≡ p
          → Reaches atoi ruid url (open_host_port b peek_len disk atoi w core i p).0
      unfolding open_host_port
      open_host_port-Reaches i no_colon r e = nothing_opened
      open_host_port-Reaches i negative_length r e = nothing_opened
      open_host_port-Reaches i (host_port host none) r e = nothing_opened
      open_host_port-Reaches i (host_port host (some port)) r e = to_host r e

      open_address-Reaches :
          (i : ℕ) (a : Option (List ℕ × ℕ))
          → (context_at core i).ruid ≡ ruid
          → parse_transport_ip_port atoi url ≡ a
          → Reaches atoi ruid url (open_address b peek_len disk atoi w core i url a).0
      unfolding open_address
      open_address-Reaches i none r e = open_host_port-Reaches i _ r refl
      open_address-Reaches i (some (ip, port)) r e = to_address r e

      open_transport-Reaches :
          (o : Option ℕ)
          → ((i : ℕ) → o ≡ some i → (context_at core i).ruid ≡ ruid)
          → Reaches atoi ruid url (open_transport b peek_len disk atoi w core url o).0
      unfolding open_transport
      open_transport-Reaches none r = pool_full
      open_transport-Reaches (some i) r = open_address-Reaches i _ (r i refl) refl

    connect_loaded-Reaches :
        (core : Core) (luid ruid url : List ℕ) (lu ru : Option Identity)
        → Reaches atoi ruid url (connect_loaded b peek_len disk atoi w core luid ruid url lu ru).0
    unfolding connect_loaded context_at
    connect_loaded-Reaches core luid ruid url none ru = nothing_opened
    connect_loaded-Reaches core luid ruid url (some lu) none = nothing_opened
    connect_loaded-Reaches core luid ruid url (some lu) (some ru) =
        let r = connection_init w core luid ruid in
        open_transport-Reaches r.1 ruid url r.0
          (connection_init-peer w core luid ruid (zero_connection 0))

    connect_transport-Reaches :
        (core : Core) (luid ruid url : List ℕ)
        → Reaches atoi ruid url (connect_transport b peek_len disk atoi w core luid ruid url).0
    unfolding connect_transport
    connect_transport-Reaches core luid ruid url = connect_loaded-Reaches core luid ruid url _ _

    transports-AllAllowed :
        (luid ruid : List ℕ) (id : Identity)
        → identity_load b peek_len disk ruid ≡ some id
        → get_meta_connect b id ≡ true
        → is_banned b id ≡ false
        → (urls : List (List ℕ)) (c : Checked) → AllAllowed atoi c.attempts
        → AllAllowed atoi (try_transports b peek_len disk atoi w c luid ruid urls).attempts
    unfolding try_transports
    transports-AllAllowed luid ruid id known wanted banned [] c h = h
    transports-AllAllowed luid ruid id known wanted banned (url ∷ rest) c h =
        if_cases (λ (r : Checked). AllAllowed atoi r.attempts) (ltb 0 (length url))
          (λ e. transports-AllAllowed luid ruid id known wanted banned rest _ (
            AllAllowed-snoc c.attempts _ h (record {
              id = id;
              is_known = known;
              wanted = wanted;
              not_banned = banned;
              not_empty = e;
              reaches = connect_transport-Reaches c.core luid ruid url;
            })))
          (λ e. transports-AllAllowed luid ruid id known wanted banned rest c h)

    or_false : (x y : Bool) → not x || y ≡ false → (x ≡ true) × (y ≡ false)
    or_false true y h = (refl, h)
    or_false false y h = (sym h, cc)

    peer-AllAllowed :
        (luid ruid : List ℕ) (id : Identity) (c : Checked)
        → identity_load b peek_len disk ruid ≡ some id
        → AllAllowed atoi c.attempts
        → AllAllowed atoi (try_peer b peek_len disk atoi w c luid ruid id).attempts
    unfolding try_peer
    peer-AllAllowed luid ruid id c known h =
        if_cases (λ (r : Checked). AllAllowed atoi r.attempts) _ (λ e. h)
          (λ e.
            transports-AllAllowed luid ruid id known (or_false _ _ e).0 (or_false _ _ e).1
              id.transports c h)

    load-AllAllowed :
        (luid ruid : List ℕ) (c : Checked) (o : Option Identity) (next : Checked → Checked)
        → identity_load b peek_len disk ruid ≡ o
        → ((c' : Checked) → AllAllowed atoi c'.attempts → AllAllowed atoi (next c').attempts)
        → AllAllowed atoi c.attempts
        → AllAllowed atoi (after_load b peek_len disk atoi w next c luid ruid o).attempts
    unfolding after_load
    load-AllAllowed luid ruid c none next e k h = h
    load-AllAllowed luid ruid c (some id) next e k h = k _ (peer-AllAllowed luid ruid id c e h)

    peers-AllAllowed :
        (luid : List ℕ) (peers : List (List ℕ)) (c : Checked)
        → AllAllowed atoi c.attempts
        → AllAllowed atoi (check_peers b peek_len disk atoi w c luid peers).attempts
    unfolding check_peers after_load
    peers-AllAllowed luid [] c h = h
    peers-AllAllowed luid (ruid ∷ rest) c h =
        if_cases (λ (r : Checked). AllAllowed atoi r.attempts)
          (is_connected_luid_ruid c.core luid ruid) (λ e. peers-AllAllowed luid rest c h)
          (λ e.
            load-AllAllowed luid ruid c (identity_load b peek_len disk ruid)
              (λ c'. check_peers b peek_len disk atoi w c' luid rest) refl
              (λ c' h'. peers-AllAllowed luid rest c' h') h)

    list-AllAllowed :
        (c : Checked) (l : Option (List (List ℕ)))
        → AllAllowed atoi c.attempts
        → AllAllowed atoi (check_list b peek_len disk atoi w c l).attempts
    unfolding check_list
    list-AllAllowed c none h = h
    list-AllAllowed c (some []) h = h
    list-AllAllowed c (some (luid ∷ rest)) h = peers-AllAllowed luid rest c h

    count-AllAllowed :
        (c : Checked) (n : Option ℕ)
        → AllAllowed atoi c.attempts
        → AllAllowed atoi (check_count b peek_len disk atoi w c n).attempts
    unfolding check_count
    count-AllAllowed c none h = h
    count-AllAllowed c (some n) h = list-AllAllowed c (load_uid_list b peek_len disk n) h

    -- `wish_connections_check` tries to connect only to peers that the identity database knows, that
    -- are not banned and not marked to be left alone, and only by transports that are not empty;
    -- each connection that it opens is to that peer, at the address or the host that the transport
    -- names, whatever the file holds.
    pub connections_check-AllAllowed :
        (core : Core) (max_uids : ℕ)
        → AllAllowed atoi (connections_check b peek_len disk atoi w core max_uids).attempts
    unfolding connections_check
    connections_check-AllAllowed core max_uids =
        count-AllAllowed (record { core = core; attempts = [] })
          (get_num_uid_entries b peek_len disk max_uids) no_attempts

-- ===== src/Discovery.antt =====
-- Local discovery (src/wish_local_discovery.c, src/wish_local_discovery.h): the table of the peers that
-- were heard of, and what is done about an announcement.
pub mod Table
pub mod Connecting
mod Tests
use Prim.Native.String.{String}
use wish_c.Prelude.{
  ℕ, zero, suc, ◌+◌, ◌-◌, ◌%◌, ◌^◌, Bool, true, false, not, ◌&&◌, ◌||◌, List, [], ◌∷◌, ◌++◌, Option,
  none, some, take, drop, length, get_or, replicate, same, ltb, leb, ◌==◌, if◌then◌else◌,
}
use wish_c.Connection.Types.{World, wish_id_len}
use wish_c.Pool.{Core, connection_init, lookup_by_ids, find, update_at}
use wish_c.Address.{parse_transport_port}
use wish_c.Identity.{Identity, Bson, is_banned, get_meta_connect, alias_len, pubkey_len, ◌>>=◌}
use wish_c.Identity.Scan.{Disk}
use wish_c.Identity.Database.{identity_load, load_uid_list}

-- `ldiscover_type`
pub data DiscoverType : Type 0 where
  nothing local remote friend_req directory : DiscoverType

-- `wish_ldiscover_t`, with the fields that the feed uses.
pub record Peer : Type 0 where
  pub occupied : Bool
  pub kind : DiscoverType
  pub ruid : List ℕ
  pub rhid : List ℕ
  pub pubkey : List ℕ
  pub alias : List ℕ
  pub claim : Bool
  pub timestamp : ℕ
  pub transport_ip : List ℕ
  pub transport_port : ℕ
  pub meta : Option (List ℕ)
  pub class : Option (List ℕ)

-- What an announcement says.
pub record Announced : Type 0 where
  pub ruid : List ℕ
  pub rhid : List ℕ
  pub pubkey : List ℕ
  pub alias : List ℕ
  pub claim : Bool
  pub product : Option (List ℕ)
  pub tcp_port : ℕ

-- A binary of this length.
sized : ℕ → Option (List ℕ) → Option (List ℕ)
sized n none = none
sized n (some xs) = if length xs == n then some xs else none

-- The first part of `wish_ldiscover_feed`, with the test of the magic bytes as it is.
unfoldable pub parse_message : Bson → (List ℕ → ℕ) → List ℕ → Option Announced
unfolding sized
parse_message b atoi buffer =
    if ltb (length buffer) 3
    then none
    else if not (get_or buffer 0 0 == b'W') && not (get_or buffer 1 0 == b'.')
    then none
    else (do
      ruid ← sized wish_id_len (b.find_bin (drop 2 buffer) "wuid")
      rhid ← sized wish_id_len (b.find_bin (drop 2 buffer) "whid")
      pubkey ← sized pubkey_len (b.find_bin (drop 2 buffer) "pubkey")
      alias ← b.find_string (drop 2 buffer) "alias"
      url ← b.find_string (drop 2 buffer) "transports.0"
      tcp_port ← parse_transport_port atoi url
      some (record {
        ruid = ruid;
        rhid = rhid;
        pubkey = pubkey;
        alias = alias;
        claim = elim (b.find_bool (drop 2 buffer) "claim") [ none ↦ false | some claim ↦ claim ];
        product = b.find_string (drop 2 buffer) "meta.product";
        tcp_port = tcp_port;
      }))

-- The entry of these two ids.
unfoldable pub is_peer : List ℕ → List ℕ → Peer → Bool
is_peer ruid rhid e = same e.ruid ruid && same e.rhid rhid

is_local : DiscoverType → Bool
is_local local = true
is_local _ = false

-- More than 30 seconds old.
unfoldable pub is_timed_out : ℕ → Peer → Bool
unfolding is_local
is_timed_out now e =
    e.occupied && (is_local e.kind && ltb 30 ((2 ^ 32 + now - e.timestamp) % 2 ^ 32))

unfoldable pub dropped : Peer → Peer
dropped e = record e { occupied = false; class = none; meta = none }

-- `strncmp` and `strncpy` of aliases
unfoldable pub alias_changed : Announced → Peer → Bool
alias_changed a e = not (same (take alias_len e.alias) (take alias_len a.alias))

unfoldable pub refreshed : ℕ → Announced → Peer → Peer
unfolding alias_changed
refreshed now a e = record e {
  timestamp = now;
  alias = if alias_changed a e then take alias_len a.alias else e.alias;
}

same_claim : Bool → Bool → Bool
same_claim true x = x
same_claim false x = not x

-- The loop: the table, whether the peer was found, the last place that was vacant, and how often
-- "localDiscovery" was signalled.
pub record Swept : Type 0 where
  pub peers : List Peer
  pub found : Bool
  pub free : Option ℕ
  pub signals : ℕ

unfoldable pub behind : Peer → ℕ → Swept → Swept
behind e signals r = record r { peers = e ∷ r.peers; signals = signals + r.signals }

unfoldable pub feed_loop : ℕ → Announced → List Peer → ℕ → Option ℕ → Swept
unfolding behind same_claim
feed_loop now a [] i free = record { peers = []; found = false; free = free; signals = 0 }
feed_loop now a (e ∷ rest) i free =
    let skipped = feed_loop now a rest (i + 1) free in
    let vacant = feed_loop now a rest (i + 1) (some i) in
    if is_timed_out now e
    then behind (dropped e) 1 skipped
    else if e.occupied
    then (if is_peer a.ruid a.rhid e
        then record {
          peers = refreshed now a e ∷ rest;
          found = true;
          free = free;
          signals = if alias_changed a e || not (same_claim e.claim a.claim) then 1 else 0;
        }
        else behind e 0 skipped)
    else behind e 0 vacant

unfoldable pub filled : ℕ → Announced → List ℕ → Peer → Peer
filled now a ip e = record e {
  kind = local;
  occupied = true;
  timestamp = now;
  ruid = a.ruid;
  rhid = a.rhid;
  pubkey = a.pubkey;
  alias = take alias_len a.alias;
  class = a.product;
  claim = a.claim;
  transport_ip = ip;
  transport_port = a.tcp_port;
}

unfoldable pub inserted : ℕ → Announced → List ℕ → Swept → Option ℕ → List Peer × ℕ
inserted now a ip r none = (r.peers, r.signals)
inserted now a ip r (some n) =
    if r.found then (r.peers, r.signals) else (update_at n (filled now a ip) r.peers, r.signals + 1)

-- The second part of `wish_ldiscover_feed`: the table, and the number of signals.
unfoldable pub feed_table : ℕ → Announced → List ℕ → List Peer → List Peer × ℕ
feed_table now a ip peers = let r = feed_loop now a peers 0 none in inserted now a ip r r.free

-- `wish_ldiscover_add`
unfoldable pub add_at : Peer → List Peer → Option ℕ → List Peer
add_at entry peers none = peers
add_at entry peers (some n) = update_at n (λ e. record entry { occupied = true }) peers

unfoldable pub discover_add : Peer → List Peer → List Peer
discover_add entry peers = add_at entry peers (find (λ (e : Peer). not e.occupied) peers)

-- `wish_ldiscover_clear`
unfoldable pub discover_clear : List Peer → List Peer
discover_clear [] = []
discover_clear (e ∷ rest) = dropped e ∷ discover_clear rest

-- Whether an id is that of this host, if that can be had.
unfoldable pub is_own_host : Option (List ℕ) → List ℕ → Bool
is_own_host none rhid = false
is_own_host (some id) rhid = same rhid id

-- The third part of `wish_ldiscover_feed`: a connection to a peer that is known. The host id may not
-- be had, and where no list of uids is read, the uid is what the stack holds.
module _ (b : Bson) (peek_len : ℕ) (disk : Disk) (host_id : Option (List ℕ)) (w : World) where
  unfoldable pub own_uid : Option (List (List ℕ)) → Option (List ℕ)
  own_uid none = some (take wish_id_len w.stack)
  own_uid (some []) = none
  own_uid (some (uid ∷ rest)) = some uid

  unfoldable pub try_connect : Core → Announced → Identity → List ℕ → Option ℕ → Option ℕ × Core
  try_connect core a id uid (some existing) = (none, core)
  try_connect core a id uid none =
      if is_own_host host_id a.rhid || (not (get_meta_connect b id) || is_banned b id)
      then (none, core)
      else connection_init w core uid a.ruid

  unfoldable pub connect_from : Core → Announced → Identity → Option (List ℕ) → Option ℕ × Core
  connect_from core a id none = (none, core)
  connect_from core a id (some uid) =
      try_connect core a id uid (lookup_by_ids core uid a.ruid a.rhid)

  unfoldable pub connect_known : Core → Announced → Option Identity → Option ℕ × Core
  unfolding connect_from
  connect_known core a none = (none, core)
  connect_known core a (some id) =
      connect_from core a id (own_uid (load_uid_list b peek_len disk 1))

  -- The context taken, on which `wish_open_connection` is called.
  unfoldable pub discover_connect : Core → Announced → Option ℕ × Core
  unfolding connect_known
  discover_connect core a = connect_known core a (identity_load b peek_len disk a.ruid)

-- ===== src/Api/Accepting.antt =====
-- The handlers of src/wish_api_identity.c that accept and decline a friend request.
pub mod Settled
use wish_c.Prelude.{
  ℕ, ◌-◌, ◌^◌, Bool, false, List, [], ◌∷◌, Option, none, some, length, take, ◌==◌, if◌then◌else◌,
}
use wish_c.Connection.Types.{wish_id_len}
use wish_c.Pool.{find}
use wish_c.Address.{parse_transport_ip_port}
use wish_c.Identity.{alias_len, pubkey_len, ◌>>=◌}
use wish_c.Identity.Database.{save_identity_entry}
use wish_c.Discovery.{Peer, friend_req, discover_add}
use wish_c.Api.{
  Req, FriendRequest, Hub, Platform, document, sent, refused, signal, output, refuse, answer_true,
  find_id,
}
use wish_c.Api.Shared.{listed, is_listed}
use wish_c.Api.Certificates.{build_signed_cert}
use wish_c.Api.Friends.{is_request, delete_first, is_link, close_link}

-- The first request that passes the test.
unfoldable pub first_request : {A : Type 0} → (A → Bool) → List A → Option A
first_request test [] = none
first_request test (r ∷ rest) = if test r then some r else first_request test rest

-- A binary of this length.
unfoldable pub sized_bin : ℕ → Option (List ℕ) → Option (List ℕ)
sized_bin n none = none
sized_bin n (some xs) = if length xs == n then some xs else none

-- `wish_ldiscover_entry_from_bson`, with what the handler writes into the entry; the service id of the
-- entry is not used further.
unfoldable pub ldiscover_entry_from_bson : Platform → List ℕ → Option Peer
unfolding sized_bin
ldiscover_entry_from_bson p signed_meta = do
  data_doc ← p.bson.find_bin signed_meta "data"
  meta_doc ← p.bson.find_bin signed_meta "meta"
  alias ← p.bson.find_string data_doc "alias"
  ruid ← sized_bin wish_id_len (p.bson.find_bin data_doc "uid")
  rhid ← sized_bin wish_id_len (p.bson.find_bin data_doc "hid")
  rsid ← sized_bin wish_id_len (p.bson.find_bin data_doc "sid")
  pubkey ← sized_bin pubkey_len (p.bson.find_bin data_doc "pubkey")
  url ← p.bson.find_string data_doc "transports.0"
  transport ← parse_transport_ip_port p.net.atoi url
  some (record {
    occupied = false;
    kind = friend_req;
    ruid = ruid;
    rhid = rhid;
    pubkey = pubkey;
    alias = take alias_len alias;
    claim = false;
    timestamp = 2 ^ 32 - 1;
    transport_ip = transport.0;
    transport_port = transport.1;
    meta = some signed_meta;
    class = none;
  })

unfoldable pub discover_entry : Option Peer → Hub → Hub
discover_entry none h = h
discover_entry (some entry) h = record h { ldiscover_db = discover_add entry h.ldiscover_db }

unfoldable pub discover_meta : Platform → Option (List ℕ) → Hub → Hub
unfolding discover_entry ldiscover_entry_from_bson
discover_meta p none h = h
discover_meta p (some doc) h = discover_entry (ldiscover_entry_from_bson p doc) h

-- The identity is added, if it is not listed.
unfoldable pub save_unless_listed : Platform → FriendRequest → List ℕ → Hub → Hub
save_unless_listed p r ruid h =
    if is_listed ruid (listed p h.disk)
    then h
    else (let s = save_identity_entry p.bson p.peek_len h.disk p.max_uids r.id in
        output (signal "identity") (record h { disk = s.1 }))

-- The other core is answered on the connection of its request, if that is there still.
unfoldable pub reply_on : Platform → FriendRequest → List ℕ → Option ℕ → Hub → Hub
reply_on p r cert none h = h
reply_on p r cert (some i) h =
    close_link p (some i) (output (sent r.friend_rpc_req (document "data" cert ∷ [])) h)

unfoldable pub accept_cert : Platform → Req → FriendRequest → Option ℕ → Option (List ℕ) → Hub → Hub
unfolding reply_on discover_meta
accept_cert p req r link none h = h
accept_cert p req r link (some cert) h =
    answer_true p req (reply_on p r cert link (discover_meta p r.signed_meta h))

-- The hub without the request, and the signal about it.
unfoldable pub request_taken : List ℕ → List ℕ → Hub → Hub
request_taken luid ruid h =
    output (signal "friendRequest")
      (record h { relationship_req_db = delete_first (is_request luid ruid) h.relationship_req_db })

unfoldable pub accept_request : Platform → Req → List ℕ → List ℕ → Option FriendRequest → Hub → Hub
unfolding accept_cert save_unless_listed request_taken
accept_request p req luid ruid none h = refuse req 356 "No such friend request found." h
accept_request p req luid ruid (some r) h =
    let saved = save_unless_listed p r ruid (request_taken luid ruid h) in
    accept_cert p req r (find (is_link luid ruid) h.core.connection_pool)
      (build_signed_cert p saved.disk r.luid none 1024) saved

-- What a handler of two ids does with them.
unfoldable pub with_ids :
    Req → (List ℕ → List ℕ → Hub → Hub) → Option (List ℕ) → Option (List ℕ) → Hub → Hub
with_ids req f none ruid h = refuse req 345 "Invalid luid." h
with_ids req f (some luid) none h = refuse req 345 "Invalid ruid." h
with_ids req f (some luid) (some ruid) h = f luid ruid h

-- `wish_api_identity_friend_request_accept`
unfoldable pub friend_request_accept : Platform → Req → List ℕ → Hub → Hub
unfolding with_ids accept_request first_request
friend_request_accept p req args h =
    with_ids req
      (λ luid ruid h'.
        accept_request p req luid ruid (first_request (is_request luid ruid) h'.relationship_req_db)
          h')
      (find_id p args "0") (find_id p args "1") h

unfoldable pub decline_on : Platform → FriendRequest → Option ℕ → Hub → Hub
decline_on p r none h = h
decline_on p r (some i) h =
    close_link p (some i) (output (refused r.friend_rpc_req 123 "Declining friend request.") h)

unfoldable pub decline_request : Platform → Req → List ℕ → List ℕ → Option FriendRequest → Hub → Hub
unfolding decline_on request_taken
decline_request p req luid ruid none h = refuse req 356 "No such friend request found." h
decline_request p req luid ruid (some r) h =
    answer_true p req
      (decline_on p r (find (is_link luid ruid) h.core.connection_pool) (request_taken luid ruid h))

-- `wish_api_identity_friend_request_decline`
unfoldable pub friend_request_decline : Platform → Req → List ℕ → Hub → Hub
unfolding with_ids decline_request first_request
friend_request_decline p req args h =
    with_ids req
      (λ luid ruid h'.
        decline_request p req luid ruid
          (first_request (is_request luid ruid) h'.relationship_req_db) h')
      (find_id p args "0") (find_id p args "1") h

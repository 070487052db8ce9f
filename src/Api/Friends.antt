-- ===== src/Api/Friends.antt =====
-- Friend requests on the side that receives them: `core_friend_req` of src/wish_core_rpc.c, and the
-- handlers of src/wish_api_identity.c that list, accept and decline them. src/wish_relationship.c
-- appends to the list of the requests.
pub mod Pending
use wish_c.Prelude.{
  ℕ, ◌+◌, Bool, not, ◌&&◌, List, [], ◌∷◌, ◌++◌, Option, none, some, length, get_or, same, ltb, ◌==◌,
  if◌then◌else◌,
}
use wish_c.Connection.Types.{Connection, wish_id_len, zero_connection}
use wish_c.Pool.{is_free, update_at}
use wish_c.Manager.Check.{close_at}
use wish_c.Identity.{Identity}
use wish_c.Identity.Database.{identity_exists}
use wish_c.Identity.Making.{zero_identity, identity_from_bson}
use wish_c.Api.{
  Req, FriendRequest, Hub, Platform, Item, binary, text, document, start_array, start_at, finish,
  sent, signal, output, refuse, answer, world_of,
}
use wish_c.Api.Certificates.{build_signed_cert}

-- The request is between these two identities.
unfoldable pub is_request : List ℕ → List ℕ → FriendRequest → Bool
is_request luid ruid r = same r.luid luid && same r.id.uid ruid

-- `DL_DELETE` of the first request that passes the test.
unfoldable pub delete_first : {A : Type 0} → (A → Bool) → List A → List A
delete_first test [] = []
delete_first test (r ∷ rest) = if test r then rest else r ∷ delete_first test rest

-- A context in use between the two identities.
unfoldable pub is_link : List ℕ → List ℕ → Connection → Bool
is_link luid ruid c = not (is_free c.context_state) && (same c.luid luid && same c.ruid ruid)

-- The first such context but the one with the index `own`, i being the index of the head.
unfoldable pub other_link : List ℕ → List ℕ → ℕ → List Connection → ℕ → Option ℕ
unfolding is_link
other_link luid ruid own [] i = none
other_link luid ruid own (c ∷ rest) i =
    if not (i == own) && is_link luid ruid c then some i else other_link luid ruid own rest (i + 1)

unfoldable pub close_link : Platform → Option ℕ → Hub → Hub
close_link p none h = h
close_link p (some i) h = record h { core = close_at (world_of p) h.core i }

-- `wish_relationship_req_add`
unfoldable pub relationship_req_add : FriendRequest → Hub → Hub
relationship_req_add r h = record h { relationship_req_db = h.relationship_req_db ++ r ∷ [] }

-- The request takes the place of an older one between the identities, and the context of an older one
-- is closed. The peer of the connection is then the new identity.
unfoldable pub add_request : Platform → ℕ → FriendRequest → Hub → Hub
unfolding is_request delete_first other_link close_link relationship_req_add
add_request p own r h =
    let dropped = record h {
      relationship_req_db = delete_first (is_request r.luid r.id.uid) h.relationship_req_db;
    } in
    let closed =
      close_link p (other_link r.luid r.id.uid own dropped.core.connection_pool 0) dropped in
    let added = relationship_req_add r closed in
    let pool = update_at own (λ c. record c { ruid = r.id.uid }) added.core.connection_pool in
    output (signal "friendRequest")
      (record added { core = record (added.core) { connection_pool = pool } })

unfoldable pub send_cert : Platform → Req → ℕ → Option (List ℕ) → Hub → Hub
unfolding close_link
send_cert p req own none h = h
send_cert p req own (some cert) h =
    close_link p (some own) (output (sent req (document "data" cert ∷ [])) h)

-- A friend gets our certificate at once; another's request is kept.
unfoldable pub friend_or_request : Platform → Req → ℕ → FriendRequest → Hub → Hub
unfolding add_request send_cert
friend_or_request p req own r h =
    if identity_exists p.bson p.peek_len h.disk r.id.uid
    then send_cert p req own (build_signed_cert p h.disk r.luid none 1024) h
    else add_request p own r h

-- A certificate that cannot be read leaves the identity zeroed.
unfoldable pub cert_identity : Option Identity → Identity
cert_identity none = zero_identity
cert_identity (some id) = id

-- The metadata that came with the request; it is too big, it has no memory, or it is kept.
unfoldable pub meta_of : Platform → Option (List ℕ) → Option (Option (List ℕ))
meta_of p none = some none
meta_of p (some doc) =
    if ltb 512 (p.bson.size doc)
    then none
    else if p.bson.alloc_ok (p.bson.size doc)
    then some (some doc)
    else none

-- What is wrong with the arguments, or the request. `luid` and `ruid` are those of the connection.
pub data Parsed : Type 0 where
  wrong : ℕ → Parsed
  parsed : FriendRequest → Parsed

unfoldable pub parse_signed :
    Platform → Req → List ℕ → List ℕ → List ℕ → Option (Option (List ℕ)) → Parsed
unfolding cert_identity
parse_signed p req args luid cert none = wrong 340
parse_signed p req args luid cert (some meta) = elim (p.bson.find_bin args "0.meta") [
  | none ↦ wrong 502
  | some m ↦
      if p.has_array args "0.signatures"
      then parsed (record {
        luid = luid;
        id = cert_identity (identity_from_bson (world_of p) p.bson cert);
        signed_meta = meta;
        friend_rpc_req = req;
      })
      else wrong 503
]

unfoldable pub parse_uid :
    Platform → Req → List ℕ → List ℕ → List ℕ → List ℕ → Option (List ℕ) → Parsed
unfolding parse_signed meta_of
parse_uid p req args luid ruid cert none = wrong 503
parse_uid p req args luid ruid cert (some uid) =
    if length uid == wish_id_len
    then (if same ruid uid
        then parse_signed p req args luid cert (meta_of p (p.find_object cert "meta"))
        else wrong 505)
    else wrong 504

unfoldable pub parse_cert : Platform → Req → List ℕ → List ℕ → List ℕ → Option (List ℕ) → Parsed
unfolding parse_uid
parse_cert p req args luid ruid none = wrong 502
parse_cert p req args luid ruid (some cert) =
    parse_uid p req args luid ruid cert (p.bson.find_bin cert "uid")

unfoldable pub parse_request : Platform → Req → List ℕ → List ℕ → List ℕ → Option (List ℕ) → Parsed
unfolding parse_cert
parse_request p req args luid ruid none = wrong 501
parse_request p req args luid ruid (some object) =
    parse_cert p req args luid ruid (p.bson.find_bin args "0.data")

unfoldable pub on_parsed : Platform → Req → ℕ → Parsed → Hub → Hub
unfolding friend_or_request
on_parsed p req own (wrong code) h = refuse req code "friend request" h
on_parsed p req own (parsed r) h = friend_or_request p req own r h

-- `core_friend_req`, for a request that came on the connection with the index `own`. The texts of the
-- errors are not told apart.
unfoldable pub core_friend_req : Platform → Req → ℕ → List ℕ → Hub → Hub
unfolding on_parsed parse_request
core_friend_req p req own args h =
    let c = get_or h.core.connection_pool own (zero_connection 0) in
    on_parsed p req own (parse_request p req args c.luid c.ruid (p.find_object args "0")) h

-- What `identity.friendRequestList` says of a request. The index is that of the source, which is not
-- counted up.
unfoldable pub request_items : List FriendRequest → List Item
request_items [] = []
request_items (r ∷ rest) =
    start_at 0
    ∷ (binary "luid" r.luid
        ∷ (binary "ruid" r.id.uid
            ∷ (text "alias" r.id.alias
                ∷ (binary "pubkey" r.id.pubkey
                    ∷ (elim r.signed_meta [ none ↦ [] | some doc ↦ document "meta" doc ∷ [] ]
                        ++ finish ∷ request_items rest)))))

-- `wish_api_identity_friend_request_list`
unfoldable pub friend_request_list : Platform → Req → List ℕ → Hub → Hub
unfolding request_items
friend_request_list p req args h =
    let items = start_array "data" ∷ (request_items h.relationship_req_db ++ finish ∷ []) in
    answer req 344 "Failed writing reponse." items (p.build (some p.rpc_buffer_sz) items) h

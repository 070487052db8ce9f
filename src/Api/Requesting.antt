-- ===== src/Api/Requesting.antt =====
-- Friend requests on the side that makes them: `wish_api_identity_friend_request` of
-- src/wish_api_identity.c, and `wish_core_send_friend_req` and `friend_req_callback` of
-- src/wish_core_rpc.c.
pub mod Answered
use wish_c.Prelude.{
  ℕ, true, false, List, [], ◌∷◌, ◌++◌, Option, none, some, take, drop, get_or, same, ◌==◌,
  if◌then◌else◌,
}
use wish_c.Connection.Types.{Connection, zero_connection}
use wish_c.Pool.{connection_init, update_at}
use wish_c.Address.{
  HostPort, no_colon, negative_length, host_port, scheme, parse_transport_ip_port,
  parse_transport_host_port,
}
use wish_c.Identity.{Identity, alias_len, max_transport_len}
use wish_c.Identity.Removal.{identity_remove}
use wish_c.Identity.Database.{identity_load, identity_exists, save_identity_entry}
use wish_c.Identity.Making.{zero_identity, identity_from_bson}
use wish_c.Identity.Meta.{
  add_meta_connect, remove_meta_connect, add_meta_unconfirmed_friend_request,
  remove_meta_unconfirmed_friend_request,
}
use wish_c.Api.{
  Req, Hub, Platform, words, integer, document, start_array, start_object, finish, message,
  requested, opened, resolving, signal, output, refuse, answer_true, find_id, world_of,
}
use wish_c.Api.Shared.{listed, is_listed}
use wish_c.Api.Certificates.{build_signed_cert}
use wish_c.Api.Friends.{close_link, meta_of, cert_identity}

-- What the arguments of `identity.friendRequest` say.
pub record Wanted : Type 0 where
  pub luid : List ℕ
  pub ruid : List ℕ
  pub pubkey : List ℕ
  pub alias : List ℕ
  pub transport : List ℕ
  pub request_meta : Option (List ℕ)

-- The contact as it is known so far.
unfoldable pub wanted_identity : Wanted → Identity
wanted_identity v = record zero_identity {
  uid = v.ruid;
  pubkey = v.pubkey;
  alias = take alias_len v.alias;
  transports = take max_transport_len v.transport ∷ ([] ∷ ([] ∷ ([] ∷ [])));
}

-- Unknown contacts are saved, marked as not to be connected to and as not confirmed.
unfoldable pub save_wanted : Platform → Wanted → Hub → Hub
unfolding wanted_identity
save_wanted p v h =
    if identity_exists p.bson p.peek_len h.disk v.ruid
    then h
    else (let s = save_identity_entry p.bson p.peek_len h.disk p.max_uids (wanted_identity v) in
        output (signal "identity") (record h {
          disk =
              add_meta_unconfirmed_friend_request p.bson p.peek_len
                (add_meta_connect p.bson p.peek_len s.1 v.ruid false) v.ruid;
        }))

unfoldable pub for_request : Option (List ℕ) → Connection → Connection
for_request meta c = record c { friend_req_connection = true; friend_req_meta = meta }

unfoldable pub request_by_host : Platform → Req → Wanted → ℕ → HostPort → Hub → Hub
unfolding save_wanted
request_by_host p req v i no_colon h = refuse req 341 "no transport" (close_link p (some i) h)
request_by_host p req v i negative_length h =
    refuse req 341 "no transport" (close_link p (some i) h)
request_by_host p req v i (host_port host none) h =
    refuse req 341 "no transport" (close_link p (some i) h)
request_by_host p req v i (host_port host (some port)) h =
    answer_true p req (save_wanted p v (output (resolving i host port) h))

unfoldable pub request_by : Platform → Req → Wanted → ℕ → Option (List ℕ × ℕ) → Hub → Hub
unfolding request_by_host save_wanted
request_by p req v i none h =
    request_by_host p req v i (parse_transport_host_port p.net.atoi v.transport) h
request_by p req v i (some (ip, port)) h =
    answer_true p req (save_wanted p v (output (opened i ip port) h))

-- The connection of the request; the address is parsed from 32 characters at most.
unfoldable pub request_on : Platform → Req → Wanted → Option ℕ → Hub → Hub
unfolding request_by for_request
request_on p req v none h = refuse req 341 "no vacant wish connection available" h
request_on p req v (some i) h =
    request_by p req v i (parse_transport_ip_port p.net.atoi (take 32 v.transport)) (record h {
      core = record (h.core) {
        connection_pool = update_at i (for_request v.request_meta) h.core.connection_pool;
      };
    })

unfoldable pub request_wanted : Platform → Req → Wanted → Hub → Hub
unfolding request_on
request_wanted p req v h =
    let r = connection_init (world_of p) h.core v.luid v.ruid in
    request_on p req v r.0 (record h { core = r.1 })

-- Seven characters are cut off where the address does not start with the scheme.
unfoldable pub bare_transport : List ℕ → List ℕ
bare_transport url = if same (take 7 url) scheme then url else drop 7 url

-- The arguments are right, or the code of the error.
pub data Asked : Type 0 where
  bad : ℕ → Asked
  wanted : Wanted → Asked

unfoldable pub asked_meta :
    List ℕ → List ℕ → List ℕ → List ℕ → List ℕ → Option (Option (List ℕ)) → Asked
unfolding bare_transport
asked_meta luid ruid pubkey alias url none = bad 340
asked_meta luid ruid pubkey alias url (some meta) = wanted (record {
  luid = luid;
  ruid = ruid;
  pubkey = pubkey;
  alias = alias;
  transport = bare_transport url;
  request_meta = meta;
})

unfoldable pub asked_cert :
    Platform
    → List ℕ
    → List ℕ
    → Option (List ℕ)
    → Option (List ℕ)
    → Option (List ℕ)
    → Option (List ℕ)
    → Asked
unfolding asked_meta
asked_cert p args luid none pubkey alias url = bad 351
asked_cert p args luid (some ruid) none alias url = bad 351
asked_cert p args luid (some ruid) (some pubkey) none url = bad 351
asked_cert p args luid (some ruid) (some pubkey) (some alias) none = bad 351
asked_cert p args luid (some ruid) (some pubkey) (some alias) (some url) =
    asked_meta luid ruid pubkey alias url (meta_of p (p.find_object args "2"))

unfoldable pub asked_data : Platform → List ℕ → List ℕ → Option (List ℕ) → Asked
unfolding asked_cert
asked_data p args luid none = bad 345
asked_data p args luid (some cert) =
    asked_cert p args luid (find_id p cert "uid") (find_id p cert "pubkey")
      (p.bson.find_string cert "alias") (p.bson.find_string cert "transports.0")

unfoldable pub asked_object : Platform → List ℕ → List ℕ → Option (List ℕ) → Asked
unfolding asked_data
asked_object p args luid none = bad 345
asked_object p args luid (some object) = asked_data p args luid (p.bson.find_bin args "1.data")

unfoldable pub asked_from : Platform → List ℕ → Option (List ℕ) → Asked
unfolding asked_object
asked_from p args none = bad 345
asked_from p args (some luid) = asked_object p args luid (p.find_object args "1")

unfoldable pub on_asked : Platform → Req → Asked → Hub → Hub
unfolding request_wanted
on_asked p req (bad code) h = refuse req code "friend request" h
on_asked p req (wanted v) h = request_wanted p req v h

-- `wish_api_identity_friend_request`. The texts of the errors are not told apart.
unfoldable pub api_friend_request : Platform → Req → List ℕ → Hub → Hub
unfolding on_asked asked_from
api_friend_request p req args h = on_asked p req (asked_from p args (find_id p args "0")) h

unfoldable pub send_request : Platform → ℕ → Option (List ℕ) → Hub → Hub
send_request p i none h = h
send_request p i (some cert) h =
    let call =
      words "op" "friendRequest"
      ∷ (start_array "args" ∷ (document "0" cert ∷ (finish ∷ (integer "id" 0 ∷ [])))) in
    output (message i (start_object "req" ∷ (call ++ finish ∷ [])))
      (output (requested i "friendRequest") h)

-- `wish_core_send_friend_req`, where the RPC client takes the request.
unfoldable pub send_friend_req : Platform → ℕ → Hub → Hub
unfolding send_request
send_friend_req p i h =
    let c = get_or h.core.connection_pool i (zero_connection 0) in
    send_request p i (build_signed_cert p h.disk c.luid c.friend_req_meta 1024) h

-- The answer of the other core declines the request: the contact is removed.
unfoldable pub request_declined : Platform → List ℕ → Option ℕ → Hub → Hub
request_declined p ruid none h = h
request_declined p ruid (some code) h =
    if code == 123
    then (let r = identity_remove p.bson p.peek_len (world_of p) h.disk h.core ruid in
        output (signal "friendRequesteeDeclined")
          (output (signal "identity") (record h { disk = r.1; core = r.2 })))
    else h

unfoldable pub save_friend : Platform → Identity → Hub → Hub
save_friend p id h =
    if is_listed id.uid (listed p h.disk)
    then h
    else (let s = save_identity_entry p.bson p.peek_len h.disk p.max_uids id in
        output (signal "identity") (record h { disk = s.1 }))

-- The flags of a request that waits are taken back.
unfoldable pub confirmed : Platform → List ℕ → Hub → Hub
confirmed p uid h = record h {
  disk =
      remove_meta_connect p.bson p.peek_len
        (remove_meta_unconfirmed_friend_request p.bson p.peek_len h.disk uid) uid;
}

unfoldable pub request_accepted : Platform → ℕ → Identity → Hub → Hub
unfolding confirmed save_friend
request_accepted p i id h =
    close_link p (some i)
      (output (signal "friendRequesteeAccepted") (confirmed p id.uid (save_friend p id h)))

-- The public key has to be the one of the contact that is known. Signatures are verified, but the
-- result is only logged.
unfoldable pub check_friend : Platform → ℕ → Identity → Option Identity → Hub → Hub
unfolding request_accepted
check_friend p i id none h = h
check_friend p i id (some known) h =
    if same known.pubkey id.pubkey then request_accepted p i id h else h

unfoldable pub on_cert : Platform → ℕ → List ℕ → Option (List ℕ) → Option (List ℕ) → Hub → Hub
unfolding check_friend
on_cert p i ruid none meta h = h
on_cert p i ruid (some cert) none h = h
on_cert p i ruid (some cert) (some meta) h =
    check_friend p i (cert_identity (identity_from_bson (world_of p) p.bson cert))
      (identity_load p.bson p.peek_len h.disk ruid) h

-- `friend_req_callback`, for the connection with the index i.
unfoldable pub friend_req_callback : Platform → ℕ → List ℕ → Hub → Hub
unfolding on_cert request_declined
friend_req_callback p i payload h =
    let c = get_or h.core.connection_pool i (zero_connection 0) in
    elim (p.find_int payload "err") [
      | some id ↦ request_declined p c.ruid (p.find_int payload "data.code") h
      | none ↦
          if p.has_field payload "err"
          then h
          else on_cert p i c.ruid (p.bson.find_bin payload "data.data")
              (p.bson.find_bin payload "data.meta") h
    ]

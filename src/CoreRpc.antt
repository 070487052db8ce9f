-- ===== src/CoreRpc.antt =====
-- The RPC between cores (src/wish_core_rpc.c): who may call what, the methods that this file answers
-- itself, and the remote services of a connection.
pub mod Access
pub mod Apps
mod Tests
use Prim.Native.String.{String}
use wish_c.Prelude.{
  ℕ, ◌+◌, Bool, true, false, not, ◌&&◌, List, [], ◌∷◌, ◌++◌, Option, none, some, length, take,
  get_or, same, ltb, ◌==◌, if◌then◌else◌,
}
use wish_c.Connection.Types.{Connection, wish_id_len, zero_connection}
use wish_c.ServiceRegistry.{
  AppEntry, entry_is_valid, first_protocol, app_name_max_len, protocol_name_max_len,
}
use wish_c.Identity.{Identity, flag}
use wish_c.Identity.Database.{identity_load}
use wish_c.Api.{
  Caller, from_app, from_connection, Req, Hub, Platform, Item, binary, text, words, boolean,
  integer, start_array, start_object, finish, sent, emitted, to_app, message, requested, broadcast,
  output, refuse, answer, find_id, world_of,
}
use wish_c.Api.Identities.{api_identity_get, api_identity_list}
use wish_c.Api.Changes.{api_identity_update, api_identity_permissions, api_identity_remove}
use wish_c.Api.Certificates.{api_identity_export}
use wish_c.Api.Signatures.{api_identity_sign}
use wish_c.Api.Friends.{core_friend_req, friend_request_list}
use wish_c.Api.Accepting.{friend_request_accept, friend_request_decline}
use package.text.Mathlib.Text

-- The connection of a request between cores.
unfoldable pub connection_of : Caller → ℕ
connection_of (from_app i) = i
connection_of (from_connection i) = i

unfoldable pub peer_of : Req → Hub → Connection
unfolding connection_of
peer_of req h = get_or h.core.connection_pool (connection_of req.caller) (zero_connection 0)

-- The service has a protocol.
unfoldable pub has_protocol : AppEntry → Bool
has_protocol e = entry_is_valid e && ltb 0 (length (first_protocol e))

unfoldable pub peer_items : Req → AppEntry → List Item
peer_items req e =
    start_object "res"
    ∷ (integer "sig" req.id
        ∷ (start_object "data"
            ∷ (binary "rsid" e.wsid
                ∷ (text "name" e.name
                    ∷ (text "protocol" (first_protocol e)
                        ∷ (boolean "online" true ∷ (finish ∷ (finish ∷ []))))))))

unfoldable pub peers_loop : Req → List AppEntry → Hub → Hub
unfolding has_protocol peer_items connection_of
peers_loop req [] h = h
peers_loop req (e ∷ rest) h =
    peers_loop req rest (
      if has_protocol e
      then output (message (connection_of req.caller) (peer_items req e)) h
      else h)

-- `peers_op_handler`
unfoldable pub peers_op_handler : Platform → Req → List ℕ → Hub → Hub
unfolding peers_loop
peers_op_handler p req args h = peers_loop req h.registry h

-- `wish_core_signals` of src/wish_core_signals.c
unfoldable pub core_signals : Platform → Req → List ℕ → Hub → Hub
core_signals p req args h =
    output (emitted req (start_array "data" ∷ (words "0" "ok" ∷ (finish ∷ [])))) h

-- `core_directory`
unfoldable pub core_directory : Platform → Req → List ℕ → Hub → Hub
core_directory p req args h = refuse req 500 "Not implemented." h

unfoldable pub frame_items : Connection → List ℕ → List ℕ → List ℕ → List Item
frame_items c rsid protocol payload =
    words "type" "frame"
    ∷ (start_object "peer"
        ∷ (binary "luid" c.luid
            ∷ (binary "ruid" c.ruid
                ∷ (binary "rhid" c.rhid
                    ∷ (binary "rsid" rsid
                        ∷ (text "protocol" protocol ∷ (finish ∷ (binary "data" payload ∷ []))))))))

unfoldable pub forward_frame :
    Req → Option (List ℕ) → Option (List ℕ) → Option (List ℕ) → Option (List ℕ) → Hub → Hub
unfolding frame_items peer_of
forward_frame req none lsid protocol payload h = refuse req 41 "rsid not Buffer(32)." h
forward_frame req (some rsid) none protocol payload h = refuse req 41 "lsid not Buffer(32)." h
forward_frame req (some rsid) (some lsid) none payload h = refuse req 41 "Protocol not string." h
forward_frame req (some rsid) (some lsid) (some protocol) none h =
    refuse req 41 "payload not Buffer." h
forward_frame req (some rsid) (some lsid) (some protocol) (some payload) h =
    output (sent req [])
      (output (to_app lsid (frame_items (peer_of req h) rsid protocol payload)) h)

-- `send_op_handler`
unfoldable pub send_op_handler : Platform → Req → List ℕ → Hub → Hub
unfolding forward_frame
send_op_handler p req args h =
    forward_frame req (find_id p args "0") (find_id p args "1") (p.bson.find_string args "2")
      (p.bson.find_bin args "3") h

-- `struct wish_rpc_server_handler`
pub record Method : Type 0 where
  pub op : String
  pub handler : Platform → Req → List ℕ → Hub → Hub

-- The methods of the server between cores, in the order of `wish_core_init_rpc`.
unfoldable pub core_api : List Method
core_api =
    record { op = "peers"; handler = peers_op_handler }
    ∷ (record { op = "signals"; handler = core_signals }
        ∷ (record { op = "send"; handler = send_op_handler }
            ∷ (record { op = "directory"; handler = core_directory }
                ∷ (record { op = "identity.get"; handler = api_identity_get }
                    ∷ (record { op = "identity.list"; handler = api_identity_list }
                        ∷ (record { op = "identity.update"; handler = api_identity_update }
                            ∷ (record {
                              op = "identity.permissions";
                              handler = api_identity_permissions;
                            }
                                ∷ (record { op = "identity.remove"; handler = api_identity_remove }
                                    ∷ (record {
                                      op = "identity.export";
                                      handler = api_identity_export;
                                    }
                                        ∷ (record {
                                          op = "identity.sign";
                                          handler = api_identity_sign;
                                        }
                                            ∷ (record {
                                              op = "identity.friendRequestList";
                                              handler = friend_request_list;
                                            }
                                                ∷ (record {
                                                  op = "identity.friendRequestAccept";
                                                  handler = friend_request_accept;
                                                }
                                                    ∷ (record {
                                                      op = "identity.friendRequestDecline";
                                                      handler = friend_request_decline;
                                                    }
                                                        ∷ [])))))))))))))

-- The methods of the server for friend requests.
unfoldable pub friend_req_api : List Method
unfolding connection_of
friend_req_api =
    record {
      op = "friendRequest";
      handler = λ p req args h. core_friend_req p req (connection_of req.caller) args h;
    }
    ∷ []

-- The server that `wish_core_feed_to_rpc_server` takes for a connection.
unfoldable pub server_of : Connection → List Method
unfolding core_api friend_req_api
server_of c = if c.friend_req_connection then friend_req_api else core_api

-- The contact is an owner of this core. Where it cannot be loaded, it has no permissions.
unfoldable pub is_owner : Platform → Option Identity → Bool
unfolding flag
is_owner p none = false
is_owner p (some id) = flag p.bson false id.permissions "core.owner"

-- `acl_check`, without WISH_REMOTE_MANAGEMENT.
unfoldable pub acl_check : Platform → Hub → Req → String → String → Bool
unfolding is_owner peer_of
acl_check p h req op permission =
    if not (Text.◌==◌ permission "call")
    then false
    else if Text.◌==◌ op "send"
    then true
    else if Text.◌==◌ op "directory"
    then true
    else if Text.◌==◌ op "peers"
    then true
    else if Text.◌==◌ op "signals"
    then true
    else is_owner p (identity_load p.bson p.peek_len h.disk (peer_of req h).ruid)

-- ===== src/Api/Connections.antt =====
-- The handlers of src/wish_api_connections.c.
use wish_c.Prelude.{
  ℕ, ◌+◌, Bool, true, false, not, ◌&&◌, List, [], ◌∷◌, ◌++◌, Option, none, some, if◌then◌else◌,
}
use wish_c.Connection.Types.{Connection, ProtocolState}
use wish_c.Pool.{is_free, lookup_connected, connections_close_all}
use wish_c.Manager.Check.{connections_check}
use wish_c.Api.{
  Req, Hub, Platform, Item, binary, boolean, integer, start_array, start_at, finish, sent, message,
  requested, copied, text, document, output, refuse, answer, answer_true, find_id, world_of,
}
use wish_c.Api.Friends.{close_link}

unfoldable pub is_running : ProtocolState → Bool
is_running ProtocolState.wish_running = true
is_running _ = false

-- What `connections.list` says of a context, with its index and its place in the list.
unfoldable pub connection_items : ℕ → ℕ → Connection → List Item
connection_items i place c =
    start_at place
    ∷ (integer "cid" i
        ∷ (integer "internalCid" c.connection_id
            ∷ (binary "luid" c.luid
                ∷ (binary "ruid" c.ruid
                    ∷ (binary "rhid" c.rhid
                        ∷ (boolean "outgoing" c.outgoing
                            ∷ (boolean "relay" c.via_relay
                                ∷ ((if c.friend_req_connection
                                      then boolean "friendRequest" true ∷ []
                                      else [])
                                    ++ finish ∷ []))))))))

unfoldable pub list_pool : List Connection → ℕ → ℕ → List Item
unfolding connection_items is_running
list_pool [] i place = []
list_pool (c ∷ pool) i place =
    if not (is_free c.context_state) && is_running c.curr_protocol_state
    then connection_items i place c ++ list_pool pool (i + 1) (place + 1)
    else list_pool pool (i + 1) place

-- `wish_api_connections_list`
unfoldable pub api_connections_list : Platform → Req → List ℕ → Hub → Hub
unfolding list_pool
api_connections_list p req args h =
    let items = start_array "data" ∷ (list_pool h.core.connection_pool 0 0 ++ finish ∷ []) in
    answer req 303 "Failed writing bson." items (p.build (some p.rpc_buffer_sz) items) h

unfoldable pub disconnect_at : Platform → Req → Option ℕ → Hub → Hub
disconnect_at p req none h = refuse req 343 "Invalid argument. Int index." h
disconnect_at p req (some i) h = answer_true p req (close_link p (some i) h)

-- `wish_api_connections_disconnect`, for an index of the pool; the source does not check that it is one.
unfoldable pub api_connections_disconnect : Platform → Req → List ℕ → Hub → Hub
unfolding disconnect_at
api_connections_disconnect p req args h = disconnect_at p req (p.find_int args "0") h

-- `wish_api_connections_disconnect_all`
unfoldable pub api_connections_disconnect_all : Platform → Req → List ℕ → Hub → Hub
api_connections_disconnect_all p req args h =
    output (sent req (boolean "data" true ∷ []))
      (record h { core = connections_close_all (world_of p) h.core })

-- `wish_api_connections_check_connections`
unfoldable pub api_connections_check : Platform → Req → List ℕ → Hub → Hub
api_connections_check p req args h = answer_true p req (record h {
  core =
      (connections_check p.bson p.peek_len h.disk p.net.atoi (world_of p) h.core p.max_uids).core;
})

-- The call that is passed on to the other core, and the answer when it cannot be.
unfoldable pub pass_on : Platform → Req → List Item → Option (List ℕ) → Option ℕ → Hub → Hub
pass_on p req call doc none h = refuse req 39 "Connection not found." h
pass_on p req call none (some i) h = refuse req 39 "Args copy failed." h
pass_on p req call (some doc) (some i) h = elim (p.build (some 1280) (document "req" doc ∷ [])) [
  | none ↦ refuse req 39 "Building req failed." h
  | some all ↦ output (message i (document "req" doc ∷ [])) (output (requested i "request") h)
]

unfoldable pub request_from :
    Platform
    → Req
    → List ℕ
    → Option (List ℕ)
    → Option (List ℕ)
    → Option (List ℕ)
    → Option (List ℕ)
    → Hub
    → Hub
unfolding pass_on
request_from p req args none ruid rhid op h = refuse req 307 "Argument 1 not Buffer(32)." h
request_from p req args (some luid) none rhid op h = refuse req 307 "Argument 2 not Buffer(32)." h
request_from p req args (some luid) (some ruid) none op h =
    refuse req 307 "Argument 3 not Buffer(32)." h
request_from p req args (some luid) (some ruid) (some rhid) none h =
    refuse req 307 "Argument 2 not String." h
request_from p req args (some luid) (some ruid) (some rhid) (some op) h =
    let call = text "op" op ∷ (copied args "2" ∷ (integer "id" 0 ∷ [])) in
    if p.has_array args "2"
    then pass_on p req call (p.build (some 1024) call) (lookup_connected h.core luid ruid rhid) h
    else refuse req 307 "Argument 3, args not Array." h

-- `wish_api_connections_request`, where the RPC client takes the request.
unfoldable pub api_connections_request : Platform → Req → List ℕ → Hub → Hub
unfolding request_from
api_connections_request p req args h =
    request_from p req args (find_id p args "0.luid") (find_id p args "0.ruid")
      (find_id p args "0.rhid") (p.bson.find_string args "1") h

-- ===== src/Api/Relays.antt =====
-- The handlers of src/wish_api_relay.c.
use wish_c.Prelude.{
  ℕ, Bool, true, false, List, [], ◌∷◌, ◌++◌, Option, none, some, take, if◌then◌else◌,
}
use wish_c.Address.{
  HostPort, no_colon, negative_length, host_port, colon, parse_transport_host_port,
}
use wish_c.Relay.{Relay, RelayState, is_server, client_add, client_close}
use wish_c.Api.{
  Req, Hub, Platform, Item, text, boolean, start_array, start_at, finish, sent, relay_did,
  config_saved, output, refuse,
}

unfoldable pub is_waiting : RelayState → Bool
is_waiting RelayState.wait = true
is_waiting _ = false

-- What `relay.list` says of the relays. The index is that of the source, which is not counted up; a
-- text of the buffer ends with a terminator.
unfoldable pub relay_items : Platform → List Relay → List Item
unfolding is_waiting
relay_items p [] = []
relay_items p (relay ∷ relays) =
    start_at 0
    ∷ (text "host" (take 63 (relay.host ++ colon ∷ p.decimal relay.port))
        ∷ (boolean "connected" (is_waiting relay.curr_state) ∷ (finish ∷ relay_items p relays)))

-- An answer, and the configuration that is saved with it.
unfoldable pub relay_answer : Req → List Item → Bool → Option (List ℕ) → Hub → Hub
relay_answer req items save none h = refuse req 305 "Failed writing bson." h
relay_answer req items true (some doc) h = output config_saved (output (sent req items) h)
relay_answer req items false (some doc) h = output (sent req items) h

-- `wish_api_relay_list`
unfoldable pub api_relay_list : Platform → Req → List ℕ → Hub → Hub
unfolding relay_items relay_answer
api_relay_list p req args h =
    let items = start_array "data" ∷ (relay_items p h.relay_db ++ finish ∷ []) in
    relay_answer req items false (p.build (some p.rpc_buffer_sz) items) h

unfoldable pub add_host : Platform → Req → Option (List ℕ) → Hub → Hub
unfolding relay_answer
add_host p req none h =
    refuse req 306 "Could not add relay. Expecting string parameter host: 92.12.33.221:40000." h
add_host p req (some addr) h =
    let items = boolean "data" true ∷ (finish ∷ []) in
    relay_answer req items true (p.build (some p.rpc_buffer_sz) items)
      (record h { relay_db = client_add p.net.atoi h.relay_db addr })

-- `wish_api_relay_add`
unfoldable pub api_relay_add : Platform → Req → List ℕ → Hub → Hub
unfolding add_host
api_relay_add p req args h = add_host p req (p.bson.find_string args "0") h

-- The loop that closes and deletes the relays of a server: those left, and whether there was one.
unfoldable pub remove_relays : Platform → List ℕ → ℕ → List Relay → Hub → List Relay × Bool × Hub
remove_relays p host port [] h = ([], false, h)
remove_relays p host port (relay ∷ relays) h =
    if is_server host port relay
    then (let s = client_close p.net (record { relay = relay; core = h.core; actions = [] }) in
        let r =
          remove_relays p host port relays
            (output (relay_did s.actions) (record h { core = s.core })) in
        (r.0, true, r.2))
    else (let r = remove_relays p host port relays h in (relay ∷ r.0, r.1, r.2))

unfoldable pub remove_server : Platform → Req → HostPort → Hub → Hub
unfolding remove_relays relay_answer
remove_server p req no_colon h = refuse req 307 "Could not remove relay." h
remove_server p req negative_length h = refuse req 307 "Could not remove relay." h
remove_server p req (host_port host none) h = refuse req 307 "Could not remove relay." h
remove_server p req (host_port host (some port)) h =
    let r = remove_relays p host port h.relay_db h in
    let items = boolean "data" r.1 ∷ (finish ∷ []) in
    relay_answer req items true (p.build (some p.rpc_buffer_sz) items)
      (record (r.2) { relay_db = r.0 })

unfoldable pub remove_host : Platform → Req → Option (List ℕ) → Hub → Hub
unfolding remove_server
remove_host p req none h =
    refuse req 306 "Could not remove relay. Expecting string parameter host: 92.12.33.221:40000." h
remove_host p req (some addr) h = remove_server p req (parse_transport_host_port p.net.atoi addr) h

-- `wish_api_relay_remove`
unfoldable pub api_relay_remove : Platform → Req → List ℕ → Hub → Hub
unfolding remove_host
api_relay_remove p req args h = remove_host p req (p.bson.find_string args "0") h

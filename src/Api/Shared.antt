-- ===== src/Api/Shared.antt =====
-- What several RPC handlers do: `wish_core_update_identities` of src/wish_core.c,
-- `wish_report_identity_to_local_services` of src/wish_api_identity.c, and the loops over the relays.
use wish_c.Prelude.{
  ℕ, Bool, true, false, not, ◌&&◌, List, [], ◌∷◌, Option, none, some, same, if◌then◌else◌,
}
use wish_c.ServiceRegistry.{AppEntry, entry_is_valid, first_protocol}
use wish_c.Relay.{Relay, Client, client_open, client_close}
use wish_c.Identity.{Identity}
use wish_c.Identity.Scan.{Disk}
use wish_c.Identity.Database.{get_num_uid_entries, load_uid_list}
use wish_c.Api.{
  Hub, Platform, Output, Item, text, words, binary, boolean, start_object, finish, to_app,
  relay_did, output,
}

-- The list that is asked for a number of uids. A negative number loads none.
unfoldable pub uids_of : Platform → Disk → Option ℕ → List (List ℕ)
uids_of p disk none = []
uids_of p disk (some num) = elim (load_uid_list p.bson p.peek_len disk num) [
  | none ↦ []
  | some l ↦ l
]

-- `wish_core_update_identities`: the identities that it loads are forgotten.
unfoldable pub update_identities : Platform → Hub → Hub
unfolding uids_of
update_identities p h =
    let num = get_num_uid_entries p.bson p.peek_len h.disk p.max_uids in
    record h { num_ids = num; uid_list = uids_of p h.disk num }

-- The list that a handler loads into an array of its own, with as many places as were counted.
unfoldable pub listed : Platform → Disk → List (List ℕ)
unfolding uids_of
listed p disk = elim (get_num_uid_entries p.bson p.peek_len disk p.max_uids) [
  | none ↦ []
  | some num ↦ uids_of p disk (some num)
]

unfoldable pub is_listed : List ℕ → List (List ℕ) → Bool
is_listed uid [] = false
is_listed uid (u ∷ rest) = if same u uid then true else is_listed uid rest

-- The message to a service that the identity is there, or gone, at another.
unfoldable pub identity_report : Hub → List ℕ → Bool → AppEntry → List Item
identity_report h uid online other =
    words "type" "peer"
    ∷ (start_object "peer"
        ∷ (binary "luid" uid
            ∷ (binary "ruid" uid
                ∷ (binary "rsid" other.wsid
                    ∷ (binary "rhid" h.host_id
                        ∷ (text "protocol" (first_protocol other)
                            ∷ (words "type" "N" ∷ (boolean "online" online ∷ (finish ∷ [])))))))))

-- What is sent if its document could be written.
unfoldable pub send_if : Option (List ℕ) → Output → Hub → Hub
send_if none o h = h
send_if (some doc) o h = output o h

-- The inner loop, for one service. The buffer has the size that the code computes.
unfoldable pub report_to : Platform → List ℕ → Bool → AppEntry → List AppEntry → Hub → Hub
unfolding identity_report send_if
report_to p uid online service [] h = h
report_to p uid online service (other ∷ others) h =
    let items = identity_report h uid online other in
    let told =
      if entry_is_valid other && not (same service.wsid other.wsid)
      then send_if (p.build (some 338) items) (to_app service.wsid items) h
      else h in
    report_to p uid online service others told

unfoldable pub report_all : Platform → List ℕ → Bool → List AppEntry → Hub → Hub
unfolding report_to
report_all p uid online [] h = h
report_all p uid online (service ∷ services) h =
    let told = if entry_is_valid service then report_to p uid online service h.registry h else h in
    report_all p uid online services told

-- `wish_report_identity_to_local_services`
unfoldable pub report_identity : Platform → Identity → Bool → Hub → Hub
unfolding report_all
report_identity p id online h = report_all p id.uid online h.registry h

-- A loop over the relays that does this to each.
unfoldable pub each_relay : (Client → Client) → List Relay → Hub → List Relay × Hub
each_relay f [] h = ([], h)
each_relay f (relay ∷ relays) h =
    let s = f (record { relay = relay; core = h.core; actions = [] }) in
    let r = each_relay f relays (output (relay_did s.actions) (record h { core = s.core })) in
    (s.relay ∷ r.0, r.1)

unfoldable pub with_relays : List Relay × Hub → Hub
with_relays (relays, h) = record h { relay_db = relays }

-- The relays are opened for a new identity.
unfoldable pub open_relays : Platform → List ℕ → Hub → Hub
unfolding each_relay with_relays
open_relays p uid h = with_relays (each_relay (λ s. client_open p.net s uid) h.relay_db h)

unfoldable pub close_if_of : Platform → List ℕ → Client → Client
close_if_of p uid s = if same s.relay.uid uid then client_close p.net s else s

-- The relays of an identity that is removed are closed.
unfoldable pub close_relays : Platform → List ℕ → Hub → Hub
unfolding each_relay with_relays close_if_of
close_relays p uid h = with_relays (each_relay (close_if_of p uid) h.relay_db h)

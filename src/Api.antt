-- ===== src/Api.antt =====
-- The RPC handlers of a core (src/wish_api_identity.c, src/wish_api_connections.c, src/wish_api_relay.c,
-- src/wish_core_rpc.c): the state that they share, and what they answer. The RPC library and BSON are
-- not under this repository: a request is a value, an answer is the list of the calls that append to
-- its document, and the sends of the library are written down.
pub mod Shared
pub mod Identities
pub mod Certificates
pub mod Changes
pub mod Friends
pub mod Accepting
pub mod Requesting
pub mod Signatures
pub mod Verifying
pub mod Connections
pub mod Relays
pub mod Tests
use Prim.Native.String.{String}
use wish_c.Prelude.{
  ℕ, Bool, true, List, [], ◌∷◌, ◌++◌, Option, none, some, length, ◌==◌, if◌then◌else◌,
}
use wish_c.Connection.Types.{World, wish_id_len}
use wish_c.Pool.{Core}
use wish_c.ServiceRegistry.{AppEntry}
use wish_c.Relay.{Net, Relay, Action}
use wish_c.Discovery.{Peer}
use wish_c.Identity.{Identity, Bson}
use wish_c.Identity.Scan.{Disk}

-- Who sent a request: the app with this index in the registry (`req->context`), or the connection with
-- this index of the pool (`req->ctx`).
pub data Caller : Type 0 where
  from_app from_connection : ℕ → Caller

-- A value of a document, as far as the handlers tell them apart.
pub data Value : Type 0 where
  bin_value string_value : List ℕ → Value
  other_value : Value

-- `rpc_server_req`
pub record Req : Type 0 where
  pub id : ℕ
  pub caller : Caller

-- A call that appends to a document. The names "0", "1", … made by BSON_NUMSTR are numbers; `copied` is
-- an element that is copied with its name from the document at the path, `copied_at` the element of an
-- array that is copied under this number.
pub data Item : Type 0 where
  binary text document : String → List ℕ → Item
  words : String → String → Item
  boolean : String → Bool → Item
  integer : String → ℕ → Item
  null start_object start_array : String → Item
  start_at : ℕ → Item
  text_at : ℕ → List ℕ → Item
  copied : List ℕ → String → Item
  copied_at : ℕ → List ℕ → String → Item
  finish : Item

-- `wish_relationship_req_t`
pub record FriendRequest : Type 0 where
  pub luid : List ℕ
  pub id : Identity
  pub signed_meta : Option (List ℕ)
  pub friend_rpc_req : Req

-- What is sent, in order: `rpc_server_send`, `rpc_server_error_msg`, `rpc_server_emit`, the signal
-- with this name to all subscribers, `rpc_server_emit_broadcast`, `send_core_to_app`,
-- `wish_core_send_message` on the connection with the index, `rpc_client_request` for it,
-- `wish_ldiscover_advertize`, the opening of a connection, what relay clients did, and
-- `wish_core_config_save`.
pub data Output : Type 0 where
  sent emitted : Req → List Item → Output
  refused : Req → ℕ → String → Output
  signal : String → Output
  broadcast : String → List Item → Output
  to_app : List ℕ → List Item → Output
  message : ℕ → List Item → Output
  requested : ℕ → String → Output
  advertized : List ℕ → Output
  opened : ℕ → List ℕ → ℕ → Output
  resolving : ℕ → List ℕ → ℕ → Output
  relay_did : List Action → Output
  config_saved : Output

-- The part of `wish_core_t` that the handlers use, with the file of the identities and what was sent.
-- `num_ids` is `none` where it is negative.
pub record Hub : Type 0 where
  pub core : Core
  pub disk : Disk
  pub num_ids : Option ℕ
  pub uid_list : List (List ℕ)
  pub relay_db : List Relay
  pub relationship_req_db : List FriendRequest
  pub ldiscover_db : List Peer
  pub registry : List AppEntry
  pub host_id : List ℕ
  pub outputs : List Output

-- What the handlers take from outside: the BSON library, the port and the world. `as_update` is the
-- query that `bson_append_iterator` makes of an object; `find_host_transport` is the search for
-- "1.hosts.0.transports.i" from where the search for the one before ended; `count_of` is the number of
-- elements of the array at the path; `signatures_of` has the fields of the objects in the array
-- "0.signatures", and is empty where the first is no object. `build` is the document that the calls
-- make in a buffer of this size, or in memory that grows, if there is room. `decimal` is what `%d`
-- prints, `keypair` what ed25519 makes of random bytes.
pub record Platform : Type 0 where
  pub bson : Bson
  pub find_int : List ℕ → String → Option ℕ
  pub find_object : List ℕ → String → Option (List ℕ)
  pub has_array : List ℕ → String → Bool
  pub has_field : List ℕ → String → Bool
  pub as_update : List ℕ → List ℕ
  pub find_host_transport : List ℕ → ℕ → Option (List ℕ)
  pub count_of : List ℕ → String → ℕ
  pub signatures_of : List ℕ → List (List (String × Value))
  pub build : Option ℕ → List Item → Option (List ℕ)
  pub net : Net
  pub peek_len : ℕ
  pub max_uids : ℕ
  pub rpc_buffer_sz : ℕ
  pub decimal : ℕ → List ℕ
  pub keypair : List ℕ × List ℕ

abbrev pub output : Output → Hub → Hub
output o h = record h { outputs = h.outputs ++ o ∷ [] }

abbrev pub refuse : Req → ℕ → String → Hub → Hub
refuse req code msg h = output (refused req code msg) h

-- An answer that was written, or the error of the handler for one that was not.
unfoldable pub answer : Req → ℕ → String → List Item → Option (List ℕ) → Hub → Hub
answer req code msg items none h = refuse req code msg h
answer req code msg items (some doc) h = output (sent req items) h

-- The answer `{ data: true }` in the buffer of an RPC.
unfoldable pub answer_true : Platform → Req → Hub → Hub
unfolding answer
answer_true p req h =
    answer req 344 "Failed writing reponse." (boolean "data" true ∷ [])
      (p.build (some p.rpc_buffer_sz) (boolean "data" true ∷ [])) h

-- A binary of 32 bytes.
unfoldable pub id_arg : Option (List ℕ) → Option (List ℕ)
id_arg none = none
id_arg (some uid) = if length uid == wish_id_len then some uid else none

abbrev pub find_id : Platform → List ℕ → String → Option (List ℕ)
find_id p args path = id_arg (p.bson.find_bin args path)

abbrev pub world_of : Platform → World
world_of p = p.net.world

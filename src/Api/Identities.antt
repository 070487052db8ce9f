-- ===== src/Api/Identities.antt =====
-- The handlers of src/wish_api_identity.c that read and change the identity database.
use Prim.Native.String.{String}
use wish_c.Prelude.{
  ℕ, ◌+◌, Bool, true, false, List, [], ◌∷◌, ◌++◌, Option, none, some, length, ◌==◌, if◌then◌else◌,
}
use wish_c.Connection.Types.{wish_id_len}
use wish_c.Identity.{Identity, used_transports}
use wish_c.Identity.Scan.{Disk}
use wish_c.Identity.Database.{identity_load, save_identity_entry}
use wish_c.Identity.Making.{create_local_identity}
use wish_c.Api.{
  Req, Hub, Platform, Item, binary, text, document, boolean, start_object, start_array, start_at,
  text_at, finish, signal, advertized, output, refuse, answer, world_of,
}
use wish_c.Api.Shared.{update_identities, listed, report_identity, open_relays}

-- What `identity.list` says of one identity.
unfoldable pub list_entry : ℕ → Identity → List Item
list_entry i id =
    start_at i
    ∷ (binary "uid" id.uid
        ∷ (text "alias" id.alias ∷ (boolean "privkey" id.has_privkey ∷ (finish ∷ []))))

-- The loop of `identity.list`; it ends with the first identity that cannot be loaded.
unfoldable pub list_items : Platform → Disk → ℕ → List (List ℕ) → Option (List Item)
unfolding list_entry
list_items p disk i [] = some []
list_items p disk i (uid ∷ uids) = elim (identity_load p.bson p.peek_len disk uid) [
  | none ↦ none
  | some id ↦ elim (list_items p disk (i + 1) uids) [
    | none ↦ none
    | some items ↦ some (list_entry i id ++ items)
  ]
]

unfoldable pub list_answer : Platform → Req → Option (List Item) → Hub → Hub
list_answer p req none h = refuse req 997 "Could not load identity" h
list_answer p req (some items) h =
    let all = start_array "data" ∷ (items ++ finish ∷ []) in
    answer req 997 "BSON error in identity_list_handler" all (p.build none all) h

-- `wish_api_identity_list`
unfoldable pub api_identity_list : Platform → Req → List ℕ → Hub → Hub
unfolding list_answer list_items
api_identity_list p req args h = list_answer p req (list_items p h.disk 0 (listed p h.disk)) h

unfoldable pub transport_items : List (ℕ × List ℕ) → List Item
transport_items [] = []
transport_items ((i, t) ∷ rest) = text_at i t ∷ transport_items rest

unfoldable pub document_item : String → Option (List ℕ) → List Item
document_item name none = []
document_item name (some doc) = document name doc ∷ []

unfoldable pub host_items : Identity → List Item
unfolding transport_items
host_items id =
    start_array "hosts"
    ∷ (start_at 0
        ∷ (start_array "transports"
            ∷ (transport_items (used_transports 0 id.transports)
                ++ finish ∷ (finish ∷ (finish ∷ [])))))

-- What `identity.get` says.
unfoldable pub get_items : Identity → List Item
unfolding host_items document_item
get_items id =
    start_object "data"
    ∷ (binary "uid" id.uid
        ∷ (text "alias" id.alias
            ∷ (boolean "privkey" id.has_privkey
                ∷ (binary "pubkey" id.pubkey
                    ∷ (host_items id
                        ++ (document_item "meta" id.meta
                            ++ (document_item "permissions" id.permissions ++ finish ∷ [])))))))

unfoldable pub get_loaded : Platform → Req → Option Identity → Hub → Hub
unfolding get_items
get_loaded p req none h = refuse req 997 "Could not load identity" h
get_loaded p req (some id) h =
    answer req 997 "BSON error in identity_get_handler" (get_items id) (p.build none (get_items id))
      h

unfoldable pub get_found : Platform → Req → Option (List ℕ) → Hub → Hub
unfolding get_loaded
get_found p req none h = refuse req 308 "Argument 1 must be Buffer" h
get_found p req (some uid) h =
    if length uid == wish_id_len
    then get_loaded p req (identity_load p.bson p.peek_len h.disk uid) h
    else refuse req 308 "Argument 1 must be Buffer(32)" h

-- `wish_api_identity_get`
unfoldable pub api_identity_get : Platform → Req → List ℕ → Hub → Hub
unfolding get_found
api_identity_get p req args h = get_found p req (p.bson.find_bin args "0") h

-- The answer of a handler that ends with `identity.get`: the argument is a document of the uid, in a
-- buffer of 128 bytes.
unfoldable pub get_of : Platform → Req → List ℕ → Hub → Hub
unfolding api_identity_get
get_of p req uid h = elim (p.build (some 128) (binary "0" uid ∷ [])) [
  | none ↦ api_identity_get p req [] h
  | some args ↦ api_identity_get p req args h
]

-- The loop of `wish_identity_local_exists`.
unfoldable pub local_exists_loop : Platform → Disk → List (List ℕ) → Bool
local_exists_loop p disk [] = false
local_exists_loop p disk (uid ∷ uids) =
    let rest = local_exists_loop p disk uids in
    elim (identity_load p.bson p.peek_len disk uid) [
      | none ↦ rest
      | some id ↦ if id.has_privkey then true else rest
    ]

-- `wish_identity_local_exists`
unfoldable pub local_exists : Platform → Disk → Bool
unfolding local_exists_loop
local_exists p disk = local_exists_loop p disk (listed p disk)

-- What follows a change of an identity: the answer, the list of the core, an announcement, and a
-- report to the services.
unfoldable pub after_change : Platform → Req → Identity → Hub → Hub
unfolding get_of
after_change p req id h =
    report_identity p id true
      (output (advertized id.uid) (update_identities p (get_of p req id.uid h)))

unfoldable pub created : Platform → Req → Identity → Hub → Hub
unfolding after_change
created p req id h =
    let r = save_identity_entry p.bson p.peek_len h.disk p.max_uids id in
    output (signal "identity")
      (open_relays p id.uid (after_change p req id (record h { disk = r.1 })))

unfoldable pub create_from : Platform → Req → Option (List ℕ) → Hub → Hub
unfolding local_exists created
create_from p req none h = refuse req 309 "Argument 1 must be string" h
create_from p req (some alias) h =
    if local_exists p h.disk
    then refuse req 304 "Identity exists. Multiple not yet supported." h
    else created p req (create_local_identity (world_of p) p.decimal p.keypair h.relay_db alias) h

-- `wish_api_identity_create`
unfoldable pub api_identity_create : Platform → Req → List ℕ → Hub → Hub
unfolding create_from
api_identity_create p req args h = create_from p req (p.bson.find_string args "0") h

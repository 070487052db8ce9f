-- ===== src/Api/Changes.antt =====
-- The handlers of src/wish_api_identity.c that change an identity, remove it or import one.
pub mod Removal
use wish_c.Prelude.{
  ℕ, zero, suc, ◌+◌, Bool, false, List, [], ◌∷◌, Option, none, some, take, set, get_or,
  if◌then◌else◌,
}
use wish_c.Connection.Types.{zero_connection}
use wish_c.Pool.{is_connected_luid_ruid}
use wish_c.ServiceRegistry.{entry_is_valid, zero_entry}
use wish_c.Identity.{Identity, alias_len, max_transports, max_transport_len}
use wish_c.Identity.Database.{
  identity_load, identity_exists, identity_update, save_identity_entry, Saved, ok, db_full,
  write_failed, no_memory,
}
use wish_c.Identity.Removal.{identity_remove}
use wish_c.Identity.Making.{identity_from_bson}
use wish_c.Identity.Meta.{changed_meta}
use wish_c.Api.{
  Caller, from_app, from_connection, Req, Hub, Platform, Item, binary, text, boolean, start_object,
  finish, sent, signal, output, refuse, find_id, world_of,
}
use wish_c.Api.Shared.{update_identities, report_identity, close_relays}
use wish_c.Api.Identities.{after_change}

-- The change is written, and the handler ends like `identity.get`.
unfoldable pub change_identity : Platform → Req → Identity → Hub → Hub
change_identity p req id h =
    let r = identity_update p.bson p.peek_len h.disk id in
    output (signal "identity") (after_change p req id (record h { disk = r.1 }))

unfoldable pub with_alias : Option (List ℕ) → Identity → Identity
with_alias none id = id
with_alias (some alias) id = record id { alias = take alias_len alias }

-- The loop over the transports of the argument: whether there was one, and the new transports.
unfoldable pub new_transports : Platform → List ℕ → (rounds : ℕ) → ℕ → List (List ℕ) → List (List ℕ)
new_transports p args zero i transports = transports
new_transports p args (suc rounds) i transports = elim (p.find_host_transport args i) [
  | none ↦ transports
  | some t ↦ new_transports p args rounds (i + 1) (set transports i (take max_transport_len t))
]

-- The document of an identity with the changes of the argument; an empty one that cannot be made
-- leaves none.
unfoldable pub updated_doc : Platform → Option (List ℕ) → List ℕ → Option (List ℕ)
updated_doc p doc change =
    changed_meta p.bson p.peek_len doc (p.bson.encode []) (some (p.as_update change))

-- The meta document, where the argument has no transports.
unfoldable pub update_meta : Platform → Req → Option (List ℕ) → Identity → Hub → Hub
unfolding change_identity updated_doc
update_meta p req none id h = refuse req 63 "Expecting object." h
update_meta p req (some change) id h =
    change_identity p req (record id { meta = updated_doc p id.meta change }) h

unfoldable pub update_with : Platform → Req → List ℕ → Option (List ℕ) → Identity → Hub → Hub
unfolding update_meta new_transports
update_with p req args none id h = update_meta p req (p.find_object args "1") id h
update_with p req args (some t) id h =
    change_identity p req
      (record id { transports = new_transports p args max_transports 0 id.transports }) h

unfoldable pub update_loaded : Platform → Req → List ℕ → Option Identity → Hub → Hub
unfolding update_with with_alias
update_loaded p req args none h = refuse req 345 "Could not load identity." h
update_loaded p req args (some id) h =
    update_with p req args (p.find_host_transport args 0)
      (with_alias (p.bson.find_string args "1.alias") id) h

unfoldable pub update_found : Platform → Req → List ℕ → Option (List ℕ) → Hub → Hub
unfolding update_loaded
update_found p req args none h = refuse req 345 "Invalid uid." h
update_found p req args (some uid) h =
    update_loaded p req args (identity_load p.bson p.peek_len h.disk uid) h

-- `wish_api_identity_update`
unfoldable pub api_identity_update : Platform → Req → List ℕ → Hub → Hub
unfolding update_found
api_identity_update p req args h = update_found p req args (find_id p args "0") h

unfoldable pub permissions_with : Platform → Req → Identity → Option (List ℕ) → Hub → Hub
unfolding change_identity updated_doc
permissions_with p req id none h = refuse req 63 "Expecting object." h
permissions_with p req id (some change) h =
    change_identity p req (record id { permissions = updated_doc p id.permissions change }) h

unfoldable pub permissions_loaded : Platform → Req → List ℕ → Option Identity → Hub → Hub
unfolding permissions_with
permissions_loaded p req args none h = refuse req 345 "Could not load identity." h
permissions_loaded p req args (some id) h = permissions_with p req id (p.find_object args "1") h

unfoldable pub permissions_found : Platform → Req → List ℕ → Option (List ℕ) → Hub → Hub
unfolding permissions_loaded
permissions_found p req args none h = refuse req 345 "Invalid uid." h
permissions_found p req args (some uid) h =
    permissions_loaded p req args (identity_load p.bson p.peek_len h.disk uid) h

-- `wish_api_identity_permissions`
unfoldable pub api_identity_permissions : Platform → Req → List ℕ → Hub → Hub
unfolding permissions_found
api_identity_permissions p req args h = permissions_found p req args (find_id p args "0") h

-- The one who asked is still there: an app that is registered, or a connection between identities that
-- are connected or connecting.
unfoldable pub is_there : Hub → Caller → Bool
is_there h (from_app i) = entry_is_valid (get_or h.registry i zero_entry)
is_there h (from_connection i) =
    let c = get_or h.core.connection_pool i (zero_connection 0) in
    is_connected_luid_ruid h.core c.luid c.ruid

unfoldable pub remove_answer : Req → List Item → Hub → Hub
unfolding is_there
remove_answer req items h =
    if is_there h req.caller then output (signal "identity") (output (sent req items) h) else h

unfoldable pub removed : Platform → Req → List ℕ → List Item → Option (List ℕ) → Hub → Hub
unfolding remove_answer
removed p req uid items none h = refuse req 344 "Failed writing reponse." h
removed p req uid items (some doc) h =
    remove_answer req items (close_relays p uid (update_identities p h))

unfoldable pub report_gone : Platform → Option Identity → Hub → Hub
report_gone p none h = h
report_gone p (some id) h = report_identity p id false h

unfoldable pub remove_found : Platform → Req → Option (List ℕ) → Hub → Hub
unfolding removed report_gone
remove_found p req none h = refuse req 343 "Invalid argument. Expecting 32 byte bin data." h
remove_found p req (some uid) h =
    let told = report_gone p (identity_load p.bson p.peek_len h.disk uid) h in
    let r = identity_remove p.bson p.peek_len (world_of p) told.disk told.core uid in
    removed p req uid (boolean "data" r.0 ∷ [])
      (p.build (some p.rpc_buffer_sz) (boolean "data" r.0 ∷ []))
      (record told { disk = r.1; core = r.2 })

-- `wish_api_identity_remove`
unfoldable pub api_identity_remove : Platform → Req → List ℕ → Hub → Hub
unfolding remove_found
api_identity_remove p req args h = remove_found p req (find_id p args "0") h

unfoldable pub import_saved : Req → Identity → Saved → Hub → Hub
import_saved req id ok h =
    output
      (sent req
        (start_object "data" ∷ (text "alias" id.alias ∷ (binary "uid" id.uid ∷ (finish ∷ [])))))
      h
import_saved req id db_full h = refuse req 201 "Too many identities." h
import_saved req id write_failed h = refuse req 201 "Too many identities." h
import_saved req id no_memory h = refuse req 201 "Too many identities." h

unfoldable pub import_read : Platform → Req → Option Identity → Hub → Hub
unfolding import_saved
import_read p req none h = refuse req 76 "There was an error when populating the new id struct" h
import_read p req (some id) h =
    if identity_exists p.bson p.peek_len h.disk id.uid
    then refuse req 202 "Identity already exists." h
    else (let r = save_identity_entry p.bson p.peek_len h.disk p.max_uids id in
        import_saved req id r.0 (record h { disk = r.1 }))

unfoldable pub import_found : Platform → Req → Option (List ℕ) → Hub → Hub
unfolding import_read
import_found p req none h =
    refuse req 76
      "Expected argument 1 to be Buffer. Should you have supplied the 'data' element instead of the whole exported document?"
      h
import_found p req (some doc) h = import_read p req (identity_from_bson (world_of p) p.bson doc) h

-- `wish_api_identity_import`
unfoldable pub api_identity_import : Platform → Req → List ℕ → Hub → Hub
unfolding import_found
api_identity_import p req args h = import_found p req (p.bson.find_bin args "0") h

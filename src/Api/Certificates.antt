-- ===== src/Api/Certificates.antt =====
-- Exports and certificates of identities: `wish_identity_export` and `wish_build_signed_cert` of
-- src/wish_identity.c, and the handler `wish_api_identity_export` of src/wish_api_identity.c.
use wish_c.Prelude.{ℕ, ◌+◌, List, [], ◌∷◌, ◌++◌, Option, none, some, ltb, if◌then◌else◌}
use wish_c.Identity.{Identity, used_transports, ◌>>=◌}
use wish_c.Identity.Scan.{Disk}
use wish_c.Identity.Database.{identity_load}
use wish_c.Identity.Signing.{Signing, no_privkey, invalid_input, signature, identity_sign}
use wish_c.Api.{
  Req, Hub, Platform, Item, text, binary, document, start_array, start_object, text_at, copied,
  finish, sent, output, refuse, find_id, world_of,
}

-- The transports that are not empty, numbered from i.
unfoldable pub numbered : ℕ → List (ℕ × List ℕ) → List Item
numbered i [] = []
numbered i ((j, t) ∷ rest) = text_at i t ∷ numbered (i + 1) rest

unfoldable pub meta_item : Option (List ℕ) → List Item
meta_item none = []
meta_item (some doc) = document "meta" doc ∷ []

unfoldable pub export_items : Identity → Option (List ℕ) → List Item
unfolding numbered meta_item
export_items id meta =
    text "alias" id.alias
    ∷ (binary "uid" id.uid
        ∷ (binary "pubkey" id.pubkey
            ∷ (start_array "transports"
                ∷ (numbered 0 (used_transports 0 id.transports) ++ finish ∷ meta_item meta))))

-- `wish_identity_export` into a buffer of this size.
unfoldable pub identity_export : Platform → Identity → Option (List ℕ) → ℕ → Option (List ℕ)
unfolding export_items
identity_export p id meta room = do
  data_doc ← p.build (some 1024) (export_items id meta)
  meta_doc ← p.build (some 246) []
  p.build (some room) (binary "data" data_doc ∷ (binary "meta" meta_doc ∷ []))

unfoldable pub signature_items : List ℕ → Identity → List ℕ → List Item
signature_items cert id sign =
    copied cert "data"
    ∷ (copied cert "meta"
        ∷ (start_array "signatures"
            ∷ (start_object "0"
                ∷ (binary "uid" id.uid ∷ (binary "sign" sign ∷ (finish ∷ (finish ∷ [])))))))

unfoldable pub cert_signed : Platform → Identity → ℕ → List ℕ → Signing → Option (List ℕ)
unfolding signature_items
cert_signed p id room cert no_privkey = none
cert_signed p id room cert invalid_input = none
cert_signed p id room cert (signature sign) =
    if p.has_field cert "data"
    then (if p.has_field cert "meta"
        then p.build (some room) (signature_items cert id sign)
        else none)
    else none

-- The metadata is small enough.
unfoldable pub meta_fits : Platform → Option (List ℕ) → Option (Option (List ℕ))
meta_fits p none = some none
meta_fits p (some doc) = if ltb 1024 (p.bson.size doc) then none else some (some doc)

-- `wish_build_signed_cert` into a buffer of this size.
unfoldable pub build_signed_cert : Platform → Disk → List ℕ → Option (List ℕ) → ℕ → Option (List ℕ)
unfolding identity_export cert_signed meta_fits
build_signed_cert p disk luid meta room = do
  id ← identity_load p.bson p.peek_len disk luid
  fit ← meta_fits p meta
  cert ← identity_export p id fit 1024
  cert_signed p id room cert (identity_sign (world_of p) id (some cert) none)

unfoldable pub export_answer : Platform → Req → Option (List ℕ) → Hub → Hub
export_answer p req none h = refuse req 92 "Internal export failed." h
export_answer p req (some doc) h = output (sent req (document "data" doc ∷ [])) h

unfoldable pub export_loaded : Platform → Req → Option Identity → Hub → Hub
unfolding export_answer
export_loaded p req none h = refuse req 343 "Failed to load identity." h
export_loaded p req (some id) h = export_answer p req (identity_export p id none p.rpc_buffer_sz) h

unfoldable pub export_found : Platform → Req → Option (List ℕ) → Hub → Hub
unfolding export_loaded
export_found p req none h = refuse req 8 "Missing export uid argument, expecting Buffer(32)" h
export_found p req (some uid) h = export_loaded p req (identity_load p.bson p.peek_len h.disk uid) h

-- `wish_api_identity_export`
unfoldable pub api_identity_export : Platform → Req → List ℕ → Hub → Hub
unfolding export_found
api_identity_export p req args h = export_found p req (find_id p args "0") h

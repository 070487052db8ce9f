-- ===== src/Api/Signatures.antt =====
-- The handler `wish_api_identity_sign` of src/wish_api_identity.c.
use wish_c.Prelude.{
  ℕ, zero, suc, ◌+◌, ◌&&◌, List, [], ◌∷◌, ◌++◌, Option, none, some, length, take, leb,
  if◌then◌else◌,
}
use wish_c.Connection.Types.{signature_len}
use wish_c.Identity.{Identity}
use wish_c.Identity.Database.{identity_load}
use wish_c.Identity.Signing.{Signing, no_privkey, invalid_input, signature, identity_sign}
use wish_c.Api.{
  Req, Hub, Platform, Item, binary, words, start_array, start_object, start_at, copied, copied_at,
  finish, refuse, answer, find_id, world_of,
}

-- A binary of at least n and at most m bytes.
unfoldable pub bin_between : ℕ → ℕ → Option (List ℕ) → Option (List ℕ)
bin_between n m none = none
bin_between n m (some xs) = if leb n (length xs) && leb (length xs) m then some xs else none

-- The signatures that are there already.
unfoldable pub copied_signatures : List ℕ → ℕ → ℕ → List Item
copied_signatures args i zero = []
copied_signatures args i (suc n) =
    copied_at i args "1.signatures" ∷ copied_signatures args (i + 1) n

unfoldable pub claim_item : Option (List ℕ) → List Item
claim_item none = []
claim_item (some claim) = binary "claim" claim ∷ []

unfoldable pub new_signature : ℕ → List ℕ → Option (List ℕ) → List ℕ → List Item
unfolding claim_item
new_signature n luid claim sign =
    start_at n
    ∷ (words "algo" "sha256-ed25519"
        ∷ (binary "uid" luid ∷ (binary "sign" sign ∷ (claim_item claim ++ finish ∷ []))))

unfoldable pub meta_copied : Platform → List ℕ → List Item
meta_copied p args = if p.has_field args "1.meta" then copied args "1.meta" ∷ [] else []

-- The document of the argument with one more signature.
unfoldable pub signed_items :
    Platform → List ℕ → List ℕ → List ℕ → Option (List ℕ) → List ℕ → List Item
unfolding copied_signatures new_signature meta_copied
signed_items p args luid blob claim sign =
    let n = p.count_of args "1.signatures" in
    start_object "data"
    ∷ (binary "data" blob
        ∷ (meta_copied p args
            ++ start_array "signatures"
              ∷ (copied_signatures args 0 n
                  ++ (new_signature n luid claim sign ++ finish ∷ (finish ∷ [])))))

unfoldable pub signed_answer :
    Platform → Req → List ℕ → List ℕ → List ℕ → Option (List ℕ) → Signing → Hub → Hub
unfolding signed_items
signed_answer p req args luid blob claim no_privkey h =
    refuse req 345 "Failed producing signature" h
signed_answer p req args luid blob claim invalid_input h =
    refuse req 345 "Failed producing signature" h
signed_answer p req args luid blob claim (signature sign) h =
    let items = signed_items p args luid blob claim sign in
    answer req 344 "Failed writing reponse." items (p.build (some p.rpc_buffer_sz) items) h

unfoldable pub sign_blob :
    Platform → Req → List ℕ → List ℕ → Identity → Option (List ℕ) → Option (List ℕ) → Hub → Hub
unfolding signed_answer
sign_blob p req args luid id claim none h =
    refuse req 345 "Second arg object does not have { data: <Buffer> }." h
sign_blob p req args luid id claim (some blob) h =
    signed_answer p req args luid blob claim (identity_sign (world_of p) id (some blob) claim) h

unfoldable pub sign_object :
    Platform → Req → List ℕ → List ℕ → Identity → Option (List ℕ) → Option (List ℕ) → Hub → Hub
unfolding sign_blob
sign_object p req args luid id claim none h =
    refuse req 345 "Second arg not valid hash or object." h
sign_object p req args luid id claim (some object) h =
    sign_blob p req args luid id claim (p.bson.find_bin args "1.data") h

-- A hash is answered with the bytes of a signature that nothing has written.
unfoldable pub sign_second :
    Platform → Req → List ℕ → List ℕ → Identity → Option (List ℕ) → Option (List ℕ) → Hub → Hub
unfolding sign_object
sign_second p req args luid id claim none h =
    sign_object p req args luid id claim (p.find_object args "1") h
sign_second p req args luid id claim (some hash) h =
    let items = binary "data" (take signature_len (world_of p).stack) ∷ [] in
    answer req 344 "Failed writing reponse." items (p.build (some p.rpc_buffer_sz) items) h

unfoldable pub sign_loaded : Platform → Req → List ℕ → List ℕ → Option Identity → Hub → Hub
unfolding sign_second bin_between
sign_loaded p req args luid none h = refuse req 345 "Could not load identity." h
sign_loaded p req args luid (some id) h =
    sign_second p req args luid id (bin_between 5 512 (p.bson.find_bin args "2"))
      (bin_between 32 64 (p.bson.find_bin args "1")) h

unfoldable pub sign_found : Platform → Req → List ℕ → Option (List ℕ) → Hub → Hub
unfolding sign_loaded
sign_found p req args none h = refuse req 345 "Invalid uid." h
sign_found p req args (some luid) h =
    sign_loaded p req args luid (identity_load p.bson p.peek_len h.disk luid) h

-- `wish_api_identity_sign`
unfoldable pub api_identity_sign : Platform → Req → List ℕ → Hub → Hub
unfolding sign_found
api_identity_sign p req args h = sign_found p req args (find_id p args "0") h

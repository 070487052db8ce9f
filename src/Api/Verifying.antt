-- ===== src/Api/Verifying.antt =====
-- The handler `wish_api_identity_verify` of src/wish_api_identity.c.
pub mod Verdicts
pub mod Reading
pub mod Verified
use Prim.Native.String.{String}
use package.text.Mathlib.Text
use wish_c.Prelude.{
  ℕ, ◌+◌, Bool, true, false, ◌&&◌, List, [], ◌∷◌, ◌++◌, Option, none, some, length, ◌==◌,
  if◌then◌else◌,
}
use wish_c.Connection.Types.{wish_id_len, signature_len}
use wish_c.Identity.{Identity}
use wish_c.Identity.Scan.{Disk}
use wish_c.Identity.Database.{identity_load}
use wish_c.Identity.Signing.{Verifying, not_verified, bad_input, verified, identity_verify}
use wish_c.Api.{
  Req, Hub, Platform, Item, Value, bin_value, string_value, other_value, binary, text, boolean,
  null, start_object, start_array, start_at, copied, finish, refuse, answer, world_of,
}

-- What was found in an object of the array, with what is copied of it.
pub record Signed : Type 0 where
  pub sign : Option (List ℕ)
  pub uid : Option (List ℕ)
  pub claim : Option (List ℕ)
  pub copies : List Item

abbrev pub no_fields : Signed
no_fields = record { sign = none; uid = none; claim = none; copies = [] }

unfoldable pub read_field : Signed → String → Value → Signed
read_field s key (bin_value xs) =
    if Text.◌==◌ key "sign" && length xs == signature_len
    then record s { sign = some xs }
    else if Text.◌==◌ key "uid" && length xs == wish_id_len
    then record s { uid = some xs; copies = s.copies ++ binary key xs ∷ [] }
    else if Text.◌==◌ key "claim"
    then record s { claim = some xs; copies = s.copies ++ binary key xs ∷ [] }
    else s
read_field s key (string_value xs) =
    if Text.◌==◌ key "algo" then record s { copies = s.copies ++ text key xs ∷ [] } else s
read_field s key other_value = s

-- The loop over the fields of an object.
unfoldable pub read_fields : Signed → List (String × Value) → Signed
unfolding read_field
read_fields s [] = s
read_fields s ((key, value) ∷ fields) = read_fields (read_field s key value) fields

unfoldable pub verdict_item : Verifying → Item
verdict_item verified = boolean "sign" true
verdict_item not_verified = boolean "sign" false
verdict_item bad_input = boolean "sign" false

unfoldable pub verdict_by : Platform → List ℕ → Option (List ℕ) → List ℕ → Option Identity → Item
unfolding verdict_item
verdict_by p blob claim sign none = null "sign"
verdict_by p blob claim sign (some id) =
    verdict_item (identity_verify (world_of p) id (some blob) claim sign)

-- The verdict on a signature: there is none where the signature or the signer is missing or unknown.
unfoldable pub verdict :
    Platform → Disk → List ℕ → Option (List ℕ) → Option (List ℕ) → Option (List ℕ) → Item
unfolding verdict_by
verdict p disk blob claim none uid = null "sign"
verdict p disk blob claim (some sign) none = null "sign"
verdict p disk blob claim (some sign) (some uid) =
    verdict_by p blob claim sign (identity_load p.bson p.peek_len disk uid)

unfoldable pub verified_items :
    Platform → Disk → List ℕ → ℕ → List (List (String × Value)) → List Item
unfolding read_fields verdict
verified_items p disk blob i [] = []
verified_items p disk blob i (fields ∷ rest) =
    let s = read_fields no_fields fields in
    start_at i
    ∷ (s.copies
        ++ verdict p disk blob s.claim s.sign s.uid
          ∷ (finish ∷ verified_items p disk blob (i + 1) rest))

unfoldable pub verify_data : Platform → Req → List ℕ → Option (List ℕ) → Hub → Hub
unfolding verified_items
verify_data p req args none h = refuse req 345 "Object does not have { data: <Buffer> }." h
verify_data p req args (some blob) h =
    let head =
      start_object "data"
      ∷ (binary "data" blob
          ∷ (if p.has_field args "0.meta" then copied args "0.meta" ∷ [] else [])) in
    let signatures = verified_items p h.disk blob 0 (p.signatures_of args) in
    let items = head ++ start_array "signatures" ∷ (signatures ++ finish ∷ (finish ∷ [])) in
    answer req 344 "Failed writing reponse." items (p.build (some p.rpc_buffer_sz) items) h

unfoldable pub verify_object : Platform → Req → List ℕ → Option (List ℕ) → Hub → Hub
unfolding verify_data
verify_object p req args none h = refuse req 345 "Expected object" h
verify_object p req args (some object) h = verify_data p req args (p.bson.find_bin args "0.data") h

-- `wish_api_identity_verify`
unfoldable pub api_identity_verify : Platform → Req → List ℕ → Hub → Hub
unfolding verify_object
api_identity_verify p req args h = verify_object p req args (p.find_object args "0") h

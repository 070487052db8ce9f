-- ===== src/Api/Verifying/Verified.antt =====
-- When the handler `wish_api_identity_verify` of src/wish_api_identity.c answers that a signature holds.
use Prim.Native.String.{String}
use wish_c.Prelude.{ℕ, ◌≡◌, true, List, [], ◌∷◌, Option, some}
use wish_c.Identity.{Identity}
use wish_c.Identity.Scan.{Disk}
use wish_c.Identity.Database.{identity_load}
use wish_c.Identity.Signing.{signed_hash}
use wish_c.Api.{Output, Platform, Item, Value, sent, world_of}
use wish_c.Api.Verifying.Reading.{IsField, Found}

-- One of the objects has a signature and a signer as its fields, the signer is stored, and ed25519
-- accepts the signature of the hash of the data and the object's claim under the stored key.
pub record HoldsIn (p : Platform) (disk : Disk) (blob : List ℕ) (fields : List (String × Value))
    : Type 0 where
  pub signature : List ℕ
  pub signer : List ℕ
  pub claim : Option (List ℕ)
  pub stored : Identity
  pub has_signature : IsField "sign" signature fields
  pub has_signer : IsField "uid" signer fields
  pub has_claim : Found "claim" fields claim
  pub is_stored : identity_load p.bson p.peek_len disk signer ≡ some stored
  pub accepted :
      (world_of p).verify signature (signed_hash (world_of p) blob claim) stored.pubkey ≡ true

pub data SomeHolds (p : Platform) (disk : Disk) (blob : List ℕ)
    : List (List (String × Value)) → Type 0 where
  this_one :
      {fields : List (String × Value)} {rest : List (List (String × Value))}
      → HoldsIn p disk blob fields
      → SomeHolds p disk blob (fields ∷ rest)
  another :
      {fields : List (String × Value)} {rest : List (List (String × Value))}
      → SomeHolds p disk blob rest
      → SomeHolds p disk blob (fields ∷ rest)

-- The items of the first output, if it is an answer.
item_list : List Output → List Item
item_list (sent req items ∷ outputs) = items
item_list _ = []

-- The data of the document, with one of its signatures that holds.
pub record Verified (p : Platform) (disk : Disk) (args : List ℕ) : Type 0 where
  pub blob : List ℕ
  pub has_blob : p.bson.find_bin args "0.data" ≡ some blob
  pub holds : SomeHolds p disk blob (p.signatures_of args)

-- ===== src/Api/Verifying/Verdicts.antt =====
-- When `identity.verify` (src/wish_api_identity.c) says that a signature holds.

use wish_c.Prelude.{ℕ, ◌≡◌, refl, Bool, true, false, List, [], ◌∷◌, Option, none, some}
use wish_c.Connection.Handshake.Outcome.{if_cases}
use wish_c.Identity.{Identity}
use wish_c.Identity.Scan.{Disk}
use wish_c.Identity.Database.{identity_load}
use wish_c.Identity.Signing.{
  Verifying, not_verified, bad_input, verified, identity_verify, signed_hash,
}
use wish_c.Api.{Platform, Item, boolean, world_of}
use wish_c.Api.Verifying.{verdict_item, verdict_by, verdict}

-- The item says that the signature holds.
unfoldable pub is_true : Item → Bool
is_true (boolean name value) = value
is_true _ = false

verdict_item-verified : (v : Verifying) → is_true (verdict_item v) ≡ true → v ≡ verified
unfolding is_true verdict_item
verdict_item-verified verified e = refl
verdict_item-verified not_verified e = absurd cc
verdict_item-verified bad_input e = absurd cc

module _ (p : Platform) (disk : Disk) (blob : List ℕ) (claim : Option (List ℕ)) where
  -- The signature and the signer are there, the signer is stored, and ed25519 accepts the signature of the
  -- hash of the data and the claim under the stored key.
  pub record Holds (sign uid : Option (List ℕ)) : Type 0 where
    pub signature : List ℕ
    pub signer : List ℕ
    pub stored : Identity
    pub has_signature : sign ≡ some signature
    pub has_signer : uid ≡ some signer
    pub is_stored : identity_load p.bson p.peek_len disk signer ≡ some stored
    pub accepted :
        (world_of p).verify signature (signed_hash (world_of p) blob claim) stored.pubkey ≡ true

  verified-accepted :
      (message : List ℕ) (sign : List ℕ) (id : Identity)
      → identity_verify (world_of p) id (some message) claim sign ≡ verified
      → (world_of p).verify sign (signed_hash (world_of p) message claim) id.pubkey ≡ true
  unfolding identity_verify
  verified-accepted [] sign id e = absurd cc
  verified-accepted (x ∷ message) sign id e =
      if_cases
        (λ r.
          r ≡ verified
          → (world_of p).verify sign (signed_hash (world_of p) (x ∷ message) claim) id.pubkey
            ≡ true)
        ((world_of p).verify sign (signed_hash (world_of p) (x ∷ message) claim) id.pubkey)
        {x = verified} {y = not_verified} (λ b r. b) (λ b r. absurd cc) e

  by-Holds :
      (sign uid : List ℕ) (id : Option Identity)
      → identity_load p.bson p.peek_len disk uid ≡ id
      → is_true (verdict_by p blob claim sign id) ≡ true
      → Holds (some sign) (some uid)
  unfolding verdict_by is_true
  by-Holds sign uid none l e = absurd cc
  by-Holds sign uid (some id) l e = record {
    signature = sign;
    signer = uid;
    stored = id;
    has_signature = refl;
    has_signer = refl;
    is_stored = l;
    accepted = verified-accepted blob sign id (verdict_item-verified _ e);
  }

  -- When a verdict says that the signature holds, it does.
  pub is_true-Holds :
      (sign uid : Option (List ℕ))
      → is_true (verdict p disk blob claim sign uid) ≡ true
      → Holds sign uid
  unfolding verdict is_true
  is_true-Holds none uid e = absurd cc
  is_true-Holds (some sign) none e = absurd cc
  is_true-Holds (some sign) (some uid) e = by-Holds sign uid _ refl e

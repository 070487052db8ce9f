-- ===== src/Identity/Signing.antt =====
-- `wish_identity_sign` and `wish_identity_verify` of src/wish_identity.c.
use Prim.Native.Nat.{bit_xor}
use wish_c.Prelude.{
  ℕ, ◌≡◌, ◌≢◌, sym, ap, ◌∙◌, true, List, [], ◌∷◌, Option, none, some, if◌then◌else◌,
}
use wish_c.Connection.Types.{World}
use wish_c.Connection.Transport.Framing.{if_true}
use wish_c.Connection.Handshake.Outcome.{if_cases}
use wish_c.Identity.{Identity}

-- `hash[c] ^= claim_hash[c]`
unfoldable pub xor_bytes : List ℕ → List ℕ → List ℕ
xor_bytes [] ys = []
xor_bytes (x ∷ xs) [] = x ∷ xs
xor_bytes (x ∷ xs) (y ∷ ys) = bit_xor x y ∷ xor_bytes xs ys

-- The hash that is signed. A claim may be missing or empty.
unfoldable pub signed_hash : World → List ℕ → Option (List ℕ) → List ℕ
signed_hash w message none = w.sha256 message
signed_hash w message (some []) = w.sha256 message
signed_hash w message (some (x ∷ claim)) = xor_bytes (w.sha256 message) (w.sha256 (x ∷ claim))

-- What the two functions return.
pub data Signing : Type 0 where
  no_privkey invalid_input : Signing
  signature : List ℕ → Signing

pub data Verifying : Type 0 where
  not_verified bad_input verified : Verifying

sign_data : World → Identity → Option (List ℕ) → Option (List ℕ) → Signing
sign_data w id none claim = invalid_input
sign_data w id (some []) claim = invalid_input
sign_data w id (some (x ∷ message)) claim =
    signature (w.sign (signed_hash w (x ∷ message) claim) id.privkey)

-- `wish_identity_sign`
unfoldable pub identity_sign : World → Identity → Option (List ℕ) → Option (List ℕ) → Signing
unfolding sign_data
identity_sign w id message claim =
    if id.has_privkey then sign_data w id message claim else no_privkey

-- `wish_identity_verify`
unfoldable pub identity_verify :
    World → Identity → Option (List ℕ) → Option (List ℕ) → List ℕ → Verifying
identity_verify w id none claim sign = bad_input
identity_verify w id (some []) claim sign = bad_input
identity_verify w id (some (x ∷ message)) claim sign =
    if w.verify sign (signed_hash w (x ∷ message) claim) id.pubkey then verified else not_verified

unfoldable signature_of : Signing → List ℕ
signature_of no_privkey = []
signature_of invalid_input = []
signature_of (signature s) = s

-- What ed25519 promises of the keys of an identity: a signature of the one is accepted by the other.
pub record IsKeyPair (w : World) (id : Identity) : Type 0 where
  pub accepted : (hash : List ℕ) → w.verify (w.sign hash id.privkey) hash id.pubkey ≡ true

-- A signature that `wish_identity_sign` makes for a message, with or without a claim, is accepted by
-- `wish_identity_verify` for the same message and claim, when ed25519 accepts what it signs with the
-- keys of the identity.
pub identity_verify-identity_sign :
    (w : World) (id : Identity) (message claim : Option (List ℕ)) (sign : List ℕ)
    → IsKeyPair w id
    → identity_sign w id message claim ≡ signature sign
    → identity_verify w id message claim sign ≡ verified
unfolding identity_verify identity_sign sign_data signature_of
identity_verify-identity_sign w id none claim sign keys h =
    absurd (if_cases (λ x. x ≢ signature sign) id.has_privkey (λ e p. cc) (λ e p. cc) h)
identity_verify-identity_sign w id (some []) claim sign keys h =
    absurd (if_cases (λ x. x ≢ signature sign) id.has_privkey (λ e p. cc) (λ e p. cc) h)
identity_verify-identity_sign w id (some (x ∷ message)) claim sign keys h =
    if_cases
      (λ r.
        r ≡ signature sign
        → (if w.verify sign (signed_hash w (x ∷ message) claim) id.pubkey
            then verified
            else not_verified)
          ≡ verified)
      id.has_privkey
      (λ e p. if_true not_verified (
        ap (λ s. w.verify s (signed_hash w (x ∷ message) claim) id.pubkey) (sym (ap signature_of p))
        ∙ keys.accepted (signed_hash w (x ∷ message) claim)))
      (λ e p. absurd (no_signature p)) h
  where
    no_signature : no_privkey ≢ signature sign
    no_signature p = cc

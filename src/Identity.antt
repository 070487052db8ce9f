-- ===== src/Identity.antt =====
-- Identities (src/wish_identity.c, src/wish_identity.h): what one is, how it is written as a BSON
-- document and read from one, and its flags. The database of identities is in the children.
pub mod Scan
pub mod Database
pub mod Documents
pub mod Lookups
pub mod Changes
pub mod Outcomes
pub mod Saving
pub mod Bounds
pub mod Fields
pub mod RoundTrip
pub mod Meta
pub mod Removal
pub mod Signing
pub mod Making
pub mod Tests
use Prim.Native.String.{String}
use wish_c.Prelude.{
  ℕ, zero, suc, ◌+◌, Bool, true, false, List, [], ◌∷◌, ◌++◌, Option, none, some, length, take,
  replicate, ltb, ◌==◌, if◌then◌else◌,
}

-- WISH_MAX_TRANSPORTS, WISH_MAX_TRANSPORT_LEN, WISH_ALIAS_LEN, WISH_PUBKEY_LEN, WISH_PRIVKEY_LEN
abbrev pub max_transports : ℕ
max_transports = 4

abbrev pub max_transport_len : ℕ
max_transport_len = 64

abbrev pub alias_len : ℕ
alias_len = 48

abbrev pub pubkey_len : ℕ
pubkey_len = 32

abbrev pub privkey_len : ℕ
privkey_len = 64

-- `wish_identity_t`. A string field holds its characters without the terminator; a document that may
-- be NULL is an option.
pub record Identity : Type 0 where
  pub uid : List ℕ
  pub pubkey : List ℕ
  pub has_privkey : Bool
  pub privkey : List ℕ
  pub alias : List ℕ
  pub transports : List (List ℕ)
  pub permissions : Option (List ℕ)
  pub meta : Option (List ℕ)

-- What is appended to a document that is built.
pub data Field : Type 0 where
  text : String → List ℕ → Field
  binary : String → List ℕ → Field
  boolean : String → Bool → Field
  null : String → Field
  texts : String → List (ℕ × List ℕ) → Field

-- The BSON library and the allocator. `find_transport` is the search for the string at the path
-- "transports.i"; `size` is the length that a document says, where a negative one counts as 0;
-- `encode` builds a document of these fields, if there is memory; `update` is `bson_update`.
pub record Bson : Type 0 where
  pub size : List ℕ → ℕ
  pub find_bin : List ℕ → String → Option (List ℕ)
  pub find_string : List ℕ → String → Option (List ℕ)
  pub find_transport : List ℕ → ℕ → Option (List ℕ)
  pub find_bool : List ℕ → String → Option Bool
  pub encode : List Field → Option (List ℕ)
  pub update : List ℕ → List ℕ → List ℕ
  pub alloc_ok : ℕ → Bool

-- The transports that are not empty, with their places, `i` being that of the head.
unfoldable pub used_transports : ℕ → List (List ℕ) → List (ℕ × List ℕ)
used_transports i [] = []
used_transports i (t ∷ rest) =
    if ltb 0 (length t) then (i, t) ∷ used_transports (i + 1) rest else used_transports (i + 1) rest

-- A document that is stored as a binary of the length that it says.
unfoldable pub stored : Bson → String → Option (List ℕ) → List Field
stored b name none = []
stored b name (some doc) = binary name (take (b.size doc) doc) ∷ []

unfoldable pub privkey_field : Bool → List ℕ → List Field
privkey_field has_privkey privkey = if has_privkey then binary "privkey" privkey ∷ [] else []

-- The fields that `wish_identity_to_bson` appends. A text is its characters: in C an alias or a
-- transport that fills its array has no terminator, and what stands behind it would be appended too.
unfoldable pub identity_fields : Bson → Identity → List Field
unfolding used_transports stored privkey_field
identity_fields b id =
    text "alias" id.alias
    ∷ (binary "uid" id.uid
        ∷ (binary "pubkey" id.pubkey
            ∷ (privkey_field id.has_privkey id.privkey
                ++ (stored b "meta" id.meta
                    ++ (stored b "permissions" id.permissions
                        ++ texts "transports" (used_transports 0 id.transports) ∷ [])))))

-- `wish_identity_to_bson`
unfoldable pub identity_to_bson : Bson → Identity → Option (List ℕ)
identity_to_bson b id = b.encode (identity_fields b id)

-- A document in a binary is taken if its length is the binary's.
unfoldable pub loaded_doc : Bson → Option (List ℕ) → Option (List ℕ)
loaded_doc b none = none
loaded_doc b (some doc) =
    if length doc == b.size doc then (if b.alloc_ok (b.size doc) then some doc else none) else none

-- The transports from the place i on.
unfoldable pub loaded_transports : Bson → List ℕ → ℕ → ℕ → List (List ℕ)
loaded_transports b buf zero i = []
loaded_transports b buf (suc n) i =
    elim (b.find_transport buf i) [ none ↦ [] | some t ↦ take max_transport_len t ]
    ∷ loaded_transports b buf n (i + 1)

-- The private key, if there is one of the right length; `none` is a bad length.
unfoldable pub loaded_privkey : Option (List ℕ) → Option (Bool × List ℕ)
loaded_privkey none = some (false, replicate privkey_len 0)
loaded_privkey (some key) = if length key == privkey_len then some (true, key) else none

-- What is read when the three fields that have to be there are.
unfoldable pub complete : Bson → List ℕ → List ℕ → List ℕ → Bool × List ℕ → List ℕ → Identity
unfolding loaded_doc loaded_transports
complete b buf uid pubkey (has_privkey, privkey) alias = record {
  uid = uid;
  pubkey = take pubkey_len pubkey;
  has_privkey = has_privkey;
  privkey = privkey;
  alias = take alias_len alias;
  transports = loaded_transports b buf max_transports 0;
  permissions = loaded_doc b (b.find_bin buf "permissions");
  meta = loaded_doc b (b.find_bin buf "meta");
}

infixl 5 ◌>>=◌
abbrev pub ◌>>=◌ : {A B : Type 0} → Option A → (A → Option B) → Option B
none >>= f = none
some a >>= f = f a

-- From the public key, the private key and the alias that were found, if they were.
unfoldable pub load_from :
    Bson → List ℕ → List ℕ → Option (List ℕ) → Option (List ℕ) → Option (List ℕ) → Option Identity
unfolding loaded_privkey complete
load_from b uid buf found_pubkey found_privkey found_alias = do
  pubkey ← found_pubkey
  key ← loaded_privkey found_privkey
  alias ← found_alias
  some (complete b buf uid pubkey key alias)

-- The part of `wish_identity_load` behind the comparison of the uids.
unfoldable pub load_fields : Bson → List ℕ → List ℕ → Option Identity
unfolding load_from
load_fields b uid buf =
    load_from b uid buf (b.find_bin buf "pubkey") (b.find_bin buf "privkey")
      (b.find_string buf "alias")

-- A flag of a document that may be missing.
unfoldable pub flag : Bson → Bool → Option (List ℕ) → String → Bool
flag b default none name = default
flag b default (some doc) name = elim (b.find_bool doc name) [ none ↦ default | some value ↦ value ]

-- `wish_identity_is_banned`
unfoldable pub is_banned : Bson → Identity → Bool
unfolding flag
is_banned b id = flag b false id.permissions "banned"

-- `wish_identity_get_meta_connect`
unfoldable pub get_meta_connect : Bson → Identity → Bool
unfolding flag
get_meta_connect b id = flag b true id.meta "connect"

-- `wish_identity_has_meta_unconfirmed_friend_request_flag`
unfoldable pub has_meta_unconfirmed_friend_request : Bson → Identity → Bool
unfolding flag
has_meta_unconfirmed_friend_request b id = flag b false id.meta "unconfirmedFriendRequest"

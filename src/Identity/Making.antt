-- ===== src/Identity/Making.antt =====
-- Identities that are made (src/wish_identity.c): from a certificate, and a local one with its keys.
use wish_c.Prelude.{
  ℕ, zero, suc, true, false, List, [], ◌∷◌, ◌++◌, Option, none, some, take, replicate,
}
use wish_c.Address.{relay_encode_as_url, scheme}
use wish_c.Relay.{Relay, server_host}
use wish_c.Identity.{
  Identity, Bson, alias_len, pubkey_len, privkey_len, max_transports, loaded_transports, ◌>>=◌,
}
use wish_c.Connection.Types.{World, wish_id_len}

-- A zeroed `wish_identity_t`.
abbrev pub zero_identity : Identity
zero_identity = record {
  uid = replicate wish_id_len 0;
  pubkey = replicate pubkey_len 0;
  has_privkey = false;
  privkey = replicate privkey_len 0;
  alias = [];
  transports = replicate max_transports [];
  permissions = none;
  meta = none;
}

-- `wish_pubkey2uid`, which reads WISH_PUBKEY_LEN bytes.
abbrev pub pubkey2uid : World → List ℕ → List ℕ
pubkey2uid w pubkey = w.sha256 (take pubkey_len pubkey)

-- `wish_identity_from_bson`, where the binary has the bytes that are copied.
unfoldable pub identity_from_bson : World → Bson → List ℕ → Option Identity
identity_from_bson w b cert = do
  pubkey ← b.find_bin cert "pubkey"
  alias ← b.find_string cert "alias"
  some (record {
    uid = pubkey2uid w pubkey;
    pubkey = take pubkey_len pubkey;
    has_privkey = false;
    privkey = replicate privkey_len 0;
    alias = take alias_len alias;
    transports = loaded_transports b cert max_transports 0;
    permissions = none;
    meta = none;
  })

-- The URLs of the relays, in the places that there are.
unfoldable pub relay_urls : (ℕ → List ℕ) → ℕ → List Relay → List (List ℕ)
relay_urls decimal zero relays = []
relay_urls decimal (suc room) [] = [] ∷ relay_urls decimal room []
relay_urls decimal (suc room) (relay ∷ relays) =
    relay_encode_as_url decimal relay.host relay.port ∷ relay_urls decimal room relays

-- The transports of a new identity: the preferred server, when no relay is known.
unfoldable pub first_transports : (ℕ → List ℕ) → List Relay → List (List ℕ)
unfolding relay_urls
first_transports decimal [] = (scheme ++ server_host) ∷ ([] ∷ ([] ∷ ([] ∷ [])))
first_transports decimal (relay ∷ relays) = relay_urls decimal max_transports (relay ∷ relays)

-- `wish_create_local_identity`, with the keys that ed25519 makes of random bytes.
unfoldable pub create_local_identity :
    World → (ℕ → List ℕ) → List ℕ × List ℕ → List Relay → List ℕ → Identity
unfolding first_transports
create_local_identity w decimal (pubkey, privkey) relay_db alias = record {
  uid = pubkey2uid w pubkey;
  pubkey = pubkey;
  has_privkey = true;
  privkey = privkey;
  alias = take alias_len alias;
  transports = first_transports decimal relay_db;
  permissions = none;
  meta = none;
}

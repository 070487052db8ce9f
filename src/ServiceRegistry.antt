-- ===== src/ServiceRegistry.antt =====
-- The registry of local services (src/wish_service_registry.c): a fixed array of entries, of which
-- those with a name are in use. A pointer to an entry is its index. A string field holds its
-- characters without the terminator.
pub mod Lookup
mod Tests
use wish_c.Prelude.{
  ℕ, zero, suc, ◌+◌, Bool, true, false, not, ◌&&◌, List, [], ◌∷◌, ◌++◌, Option, none, some, set,
  get_or, length, take, replicate, ltb, same, if◌then◌else◌,
}
use wish_c.Pool.{find, update_at}

-- `struct wish_service_entry`; permissions are never written.
pub record AppEntry : Type 0 where
  pub wsid : List ℕ
  pub name : List ℕ
  pub protocols : List (List ℕ)

-- WISH_APP_NAME_MAX_LEN, WISH_APP_MAX_PROTOCOLS and WISH_PROTOCOL_NAME_MAX_LEN
abbrev pub app_name_max_len : ℕ
app_name_max_len = 32

abbrev pub app_max_protocols : ℕ
app_max_protocols = 2

abbrev pub protocol_name_max_len : ℕ
protocol_name_max_len = 10

-- What the removal of a service tells others.
pub data Notice : Type 0 where
  peer_update : AppEntry → Bool → Notice
  peer_update_locals : List ℕ → AppEntry → Bool → Notice
  requests_cleaned : ℕ → Notice

-- An entry after `memset`.
abbrev pub zero_entry : AppEntry
zero_entry = record { wsid = replicate 32 0; name = []; protocols = replicate app_max_protocols [] }

-- `wish_service_entry_is_valid`
unfoldable pub entry_is_valid : AppEntry → Bool
entry_is_valid e = ltb 0 (length e.name)

-- The entry is in use, for this service id.
unfoldable pub is_service : List ℕ → AppEntry → Bool
is_service wsid e = entry_is_valid e && same wsid e.wsid

-- `wish_service_get_entry`
unfoldable pub get_entry : List AppEntry → List ℕ → Option ℕ
get_entry registry wsid = find (is_service wsid) registry

-- The loop over the names of protocols: `find_string` is the search for the element j of the
-- document, and `rounds` are left.
register_protocols : (ℕ → Option (List ℕ)) → (rounds : ℕ) → ℕ → List (List ℕ) → List (List ℕ)
register_protocols find_string zero j protocols = protocols
register_protocols find_string (suc rounds) j protocols = elim (find_string j) [
  | none ↦ protocols
  | some protocol ↦
      register_protocols find_string rounds (j + 1)
        (set protocols j (take protocol_name_max_len protocol))
]

unfoldable pub fill_entry : List ℕ → List ℕ → (ℕ → Option (List ℕ)) → AppEntry → AppEntry
unfolding register_protocols
fill_entry wsid name find_string e = record {
  wsid = wsid;
  name = take app_name_max_len name;
  protocols = register_protocols find_string app_max_protocols 0 e.protocols;
}

add_new : List AppEntry → List ℕ → List ℕ → (ℕ → Option (List ℕ)) → Option ℕ → List AppEntry
add_new registry wsid name find_string none = registry
add_new registry wsid name find_string (some i) =
    update_at i (fill_entry wsid name find_string) registry

add_unless : List AppEntry → List ℕ → List ℕ → (ℕ → Option (List ℕ)) → Option ℕ → List AppEntry
unfolding add_new
add_unless registry wsid name find_string (some i) = registry
add_unless registry wsid name find_string none =
    add_new registry wsid name find_string (find (λ e. not (entry_is_valid e)) registry)

-- `wish_service_register_add`
unfoldable pub register_add :
    List AppEntry → List ℕ → List ℕ → (ℕ → Option (List ℕ)) → List AppEntry
unfolding add_unless
register_add registry wsid name find_string =
    add_unless registry wsid name find_string (get_entry registry wsid)

-- The first protocol of an entry.
abbrev pub first_protocol : AppEntry → List ℕ
first_protocol e = get_or e.protocols 0 []

-- The loop that tells the services with the same first protocol.
tell_locals : List AppEntry → AppEntry → List Notice
tell_locals [] gone = []
tell_locals (e ∷ rest) gone =
    let told = tell_locals rest gone in
    if entry_is_valid e && same (first_protocol e) (first_protocol gone)
    then peer_update_locals e.wsid gone false ∷ told
    else told

-- What is removed and told, when the service has the index. Open requests
-- of the app are those with its entry as their context.
remove_at : List AppEntry → Option ℕ → List AppEntry × List Notice
unfolding tell_locals
remove_at registry none = (registry, [])
remove_at registry (some i) =
    let gone = get_or registry i zero_entry in
    (
      update_at i (λ e. zero_entry) registry,
      peer_update gone false ∷ (tell_locals registry gone ++ requests_cleaned i ∷ []),
    )

-- `wish_service_register_remove`
unfoldable pub register_remove : List AppEntry → List ℕ → List AppEntry × List Notice
unfolding remove_at
register_remove registry wsid = remove_at registry (get_entry registry wsid)

-- ===== src/Address.antt =====
-- Transport addresses: the parsers of src/wish_utils.c and the printer `wish_relay_encode_as_url` of
-- src/wish_relay_client.c. A C string is its characters without the terminator; a pointer that
-- `strchr` or `strrchr` returns is an index of them.
pub mod RoundTrip
pub mod Tests
use wish_c.Prelude.{
  ℕ, zero, suc, ◌+◌, ◌-◌, ◌%◌, ◌^◌, Bool, true, false, List, [], ◌∷◌, ◌++◌, Option, none, some,
  take, drop, length, ltb, ◌==◌, if◌then◌else◌,
}
use wish_c.Pool.{find}

abbrev pub colon : ℕ
colon = b':'

abbrev pub slash : ℕ
slash = b'/'

-- `strrchr`
unfoldable pub last_index : ℕ → List ℕ → Option ℕ
last_index c [] = none
last_index c (x ∷ xs) = elim (last_index c xs) [
  | none ↦ if x == c then some 0 else none
  | some i ↦ some (suc i)
]

-- `strchr`
unfoldable pub first_index : ℕ → List ℕ → Option ℕ
first_index c xs = find (λ x. x == c) xs

-- What `wish_parse_transport_host_port` comes to: there is no colon; the last slash stands behind it,
-- so that the length of the host is negative; or the host is there, and a port or none.
pub data HostPort : Type 0 where
  no_colon : HostPort
  negative_length : HostPort
  host_port : List ℕ → Option ℕ → HostPort

-- Where the host starts.
unfoldable pub host_start : Option ℕ → ℕ
host_start none = 0
host_start (some i) = i + 1

-- `atoi` is the C library's; its result is taken as an unsigned number.
module _ (atoi : List ℕ → ℕ) where
  unfoldable pub port_at : List ℕ → Option ℕ → Option ℕ
  port_at url none = none
  port_at url (some i) =
      let parsed_port = atoi (drop (i + 1) url) % 2 ^ 16 in
      if parsed_port == 0 then none else some parsed_port

  -- `wish_parse_transport_port`
  unfoldable pub parse_transport_port : List ℕ → Option ℕ
  unfolding port_at
  parse_transport_port url = port_at url (last_index colon url)

  unfoldable pub host_at : List ℕ → ℕ → Option ℕ → HostPort
  host_at url start none = no_colon
  host_at url start (some i) =
      if ltb i start
      then negative_length
      else host_port (take (i - start) (drop start url)) (parse_transport_port url)

  -- `wish_parse_transport_host_port`
  unfoldable pub parse_transport_host_port : List ℕ → HostPort
  unfolding host_at host_start
  parse_transport_host_port url =
      host_at url (host_start (last_index slash url)) (last_index colon url)

  -- The bytes of the address, n of them, each up to a dot but for the last.
  unfoldable pub ip_bytes : ℕ → List ℕ → Option (List ℕ)
  ip_bytes zero s = some []
  ip_bytes (suc zero) s = some (atoi s % 2 ^ 8 ∷ [])
  ip_bytes (suc (suc n)) s = elim (first_index b'.' s) [
    | none ↦ none
    | some k ↦ elim (ip_bytes (suc n) (drop (k + 1) s)) [
      | none ↦ none
      | some bytes ↦ some (atoi s % 2 ^ 8 ∷ bytes)
    ]
  ]

  unfoldable pub ip_start : List ℕ → Option ℕ → List ℕ
  ip_start url none = url
  ip_start url (some i) = drop (i + 2) url

  -- Without a colon, the terminator is counted.
  ip_length : List ℕ → Option ℕ → ℕ
  ip_length start none = length start + 1
  ip_length start (some i) = i

  -- From the start of the text of the address, and its length.
  unfoldable pub ip_from : List ℕ → ℕ → Option (List ℕ)
  ip_from start len = if ltb 15 len then none else if ltb len 7 then none else ip_bytes 4 start

  unfoldable pub ip_measured : List ℕ → Option (List ℕ)
  unfolding ip_length
  ip_measured start = ip_from start (ip_length start (first_index colon start))

  -- `wish_parse_transport_ip`. In a text that ends in its first slash, C reads on behind the end of the
  -- text; here nothing is left to read.
  unfoldable pub parse_transport_ip : List ℕ → Option (List ℕ)
  unfolding ip_measured ip_start
  parse_transport_ip url = ip_measured (ip_start url (first_index slash url))

  -- `wish_parse_transport_ip_port`
  unfoldable pub parse_transport_ip_port : List ℕ → Option (List ℕ × ℕ)
  parse_transport_ip_port url = elim (parse_transport_ip url) [
    | none ↦ none
    | some ip ↦ elim (parse_transport_port url) [ none ↦ none | some port ↦ some (ip, port) ]
  ]

-- "wish://"
abbrev pub scheme : List ℕ
scheme = b'w' ∷ (b'i' ∷ (b's' ∷ (b'h' ∷ (b':' ∷ (b'/' ∷ (b'/' ∷ []))))))

-- `wish_relay_encode_as_url`, with what the C library prints for `%d`.
unfoldable pub relay_encode_as_url : (ℕ → List ℕ) → List ℕ → ℕ → List ℕ
relay_encode_as_url decimal host port = scheme ++ (host ++ colon ∷ decimal port)

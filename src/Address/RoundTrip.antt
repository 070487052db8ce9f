-- ===== src/Address/RoundTrip.antt =====
-- What a printed address is parsed as.
use wish_c.Prelude.{
  ℕ, suc, ◌+◌, ◌-◌, ◌%◌, ◌^◌, ◌<◌, ◌≡◌, refl, ap, ◌∙◌, true, false, List, [], ◌∷◌, ◌++◌, none, some,
  arith, take, drop, take-append, length, ltb, ◌==◌, if◌then◌else◌,
}
use wish_c.Connection.Transport.Framing.{if_true}
use wish_c.Identity.Saving.{if_false}
use wish_c.Address.{
  colon, slash, scheme, last_index, host_port, port_at, host_at, host_start, parse_transport_port,
  parse_transport_host_port, relay_encode_as_url,
}

same_char : (c : ℕ) → (c == c) ≡ true
same_char c = ground arith

-- The character is not in the string.
pub data Without (c : ℕ) : List ℕ → Type 0 where
  nowhere : Without c []
  elsewhere : {x : ℕ} {xs : List ℕ} → (x == c) ≡ false → Without c xs → Without c (x ∷ xs)

Without-append : {c : ℕ} (xs ys : List ℕ) → Without c xs → Without c ys → Without c (xs ++ ys)
Without-append [] ys nowhere k = k
Without-append (x ∷ xs) ys (elsewhere e h) k = elsewhere e (Without-append xs ys h k)

last_index-Without : (c : ℕ) (xs : List ℕ) → Without c xs → last_index c xs ≡ none
unfolding last_index
last_index-Without c [] nowhere = refl
last_index-Without c (x ∷ xs) (elsewhere e h) =
    ap (λ o. elim o [ none ↦ if x == c then some 0 else none | some i ↦ some (suc i) ])
      (last_index-Without c xs h)
    ∙ if_false (some 0) e

last_index-append :
    (c : ℕ) (xs ys : List ℕ) → Without c ys → last_index c (xs ++ c ∷ ys) ≡ some (length xs)
unfolding last_index
last_index-append c [] ys h =
    ap (λ o. elim o [ none ↦ if c == c then some 0 else none | some i ↦ some (suc i) ])
      (last_index-Without c ys h)
    ∙ if_true none (same_char c)
last_index-append c (x ∷ xs) ys h =
    ap (λ o. elim o [ none ↦ if x == c then some 0 else none | some i ↦ some (suc i) ])
      (last_index-append c xs ys h)

drop_past : (c : ℕ) (xs ys : List ℕ) → drop (length xs + 1) (xs ++ c ∷ ys) ≡ ys
drop_past c [] ys = refl
drop_past c (x ∷ xs) ys =
    let e : suc (length xs) + 1 ≡ suc (length xs + 1) = omega arith in
    ap (λ n. drop n (x ∷ (xs ++ c ∷ ys))) e ∙ drop_past c xs ys

-- What C's `%d` and `atoi` promise of a port: its digits are no colon and no slash, and it is read
-- back.
pub record IsPrinted (atoi : List ℕ → ℕ) (decimal : ℕ → List ℕ) (port : ℕ) : Type 0 where
  pub no_colons : Without colon (decimal port)
  pub no_slashes : Without slash (decimal port)
  pub read_back : atoi (decimal port) ≡ port

module _ (atoi : List ℕ → ℕ) (decimal : ℕ → List ℕ) (host : List ℕ) (port : ℕ)
    (printed : IsPrinted atoi decimal port) (in_range : port < 2 ^ 16) (not_zero : 0 < port)
    (no_slash : Without slash host) where
  abbrev url : List ℕ
  url = relay_encode_as_url decimal host port

  colon_found : last_index colon url ≡ some (length (scheme ++ host))
  unfolding relay_encode_as_url
  colon_found = last_index-append colon (scheme ++ host) (decimal port) printed.no_colons

  slash_found : last_index slash url ≡ some 6
  unfolding relay_encode_as_url
  slash_found =
      last_index-append slash (b'w' ∷ (b'i' ∷ (b's' ∷ (b'h' ∷ (b':' ∷ (b'/' ∷ []))))))
        (host ++ colon ∷ decimal port)
        (Without-append host (colon ∷ decimal port) no_slash (elsewhere refl printed.no_slashes))

  port_found : parse_transport_port atoi url ≡ some port
  unfolding parse_transport_port port_at relay_encode_as_url
  port_found =
      ap (port_at atoi url) colon_found
      ∙ ap (λ s. if atoi s % 2 ^ 16 == 0 then none else some (atoi s % 2 ^ 16)) behind_colon
      ∙ ap (λ n. if n == 0 then none else some n) value
      ∙ if_false none (positive port not_zero)
    where
      behind_colon : drop (length (scheme ++ host) + 1) url ≡ decimal port
      behind_colon = drop_past colon (scheme ++ host) (decimal port)

      value : atoi (decimal port) % 2 ^ 16 ≡ port
      value = ap (λ n. n % 2 ^ 16) printed.read_back ∙ ground arith

      positive : (n : ℕ) → 0 < n → (n == 0) ≡ false
      positive n h = ground arith

  -- The address that `wish_relay_encode_as_url` prints is parsed as the host and the port that it was
  -- printed of, when the host has no slash, the port is one of TCP, and `%d` and `atoi` do what the C
  -- library promises of it.
  pub parse-encode : parse_transport_host_port atoi url ≡ host_port host (some port)
  unfolding parse_transport_host_port host_at host_start relay_encode_as_url
  parse-encode =
      ap (λ o. host_at atoi url (host_start o) (last_index colon url)) slash_found
      ∙ ap (host_at atoi url 7) colon_found
      ∙ if_false _ (in_front (length host))
      ∙ ap (λ n. host_port (take n (host ++ colon ∷ decimal port)) (parse_transport_port atoi url))
          (behind_scheme (length host))
      ∙ ap (λ h. host_port h (parse_transport_port atoi url))
          (take-append host (colon ∷ decimal port) refl)
      ∙ ap (host_port host) port_found
    where
      in_front : (n : ℕ) → ltb (suc (suc (suc (suc (suc (suc (suc n))))))) 7 ≡ false
      in_front n = ground arith

      behind_scheme : (n : ℕ) → suc (suc (suc (suc (suc (suc (suc n)))))) - 7 ≡ n
      behind_scheme n = omega arith

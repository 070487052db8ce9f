-- ===== src/Relay/Servers.antt =====
-- The list of relay servers holds each server once.
use wish_c.Prelude.{ℕ, ◌≡◌, refl, Bool, true, false, ◌||◌, List, [], ◌∷◌, ◌++◌, none, some}
use wish_c.Connection.Handshake.Outcome.{if_cases}
use wish_c.Address.{HostPort, no_colon, negative_length, host_port, parse_transport_host_port}
use wish_c.Relay.{Relay, is_server, new_relay, is_known, add_parsed, client_add}

-- None of these is the client of the same server.
pub data Apart (r : Relay) : List Relay → Type 0 where
  alone : Apart r []
  from_next :
      {x : Relay} {xs : List Relay}
      → is_server x.host x.port r ≡ false
      → Apart r xs
      → Apart r (x ∷ xs)

pub data Distinct : List Relay → Type 0 where
  no_relays : Distinct []
  and_relay : {r : Relay} {rs : List Relay} → Apart r rs → Distinct rs → Distinct (r ∷ rs)

Apart-snoc :
    (r x : Relay) (rs : List Relay)
    → Apart r rs
    → is_server x.host x.port r ≡ false
    → Apart r (rs ++ x ∷ [])
Apart-snoc r x [] alone e = from_next e alone
Apart-snoc r x (y ∷ rs) (from_next f a) e = from_next f (Apart-snoc r x rs a e)

or_left : (a b : Bool) → a || b ≡ false → a ≡ false
or_left true b h = h
or_left false b h = refl

or_right : (a b : Bool) → a || b ≡ false → b ≡ false
or_right true true h = h
or_right true false h = refl
or_right false b h = h

Distinct-snoc :
    (x : Relay) (rs : List Relay)
    → Distinct rs
    → is_known x.host x.port rs ≡ false
    → Distinct (rs ++ x ∷ [])
unfolding is_known
Distinct-snoc x [] no_relays h = and_relay alone no_relays
Distinct-snoc x (r ∷ rs) (and_relay a d) h =
    and_relay (Apart-snoc r x rs a (or_left _ _ h)) (Distinct-snoc x rs d (or_right _ _ h))

add_parsed-Distinct : (rs : List Relay) (p : HostPort) → Distinct rs → Distinct (add_parsed rs p)
unfolding add_parsed new_relay
add_parsed-Distinct rs no_colon d = d
add_parsed-Distinct rs negative_length d = d
add_parsed-Distinct rs (host_port host none) d = d
add_parsed-Distinct rs (host_port host (some port)) d =
    if_cases Distinct (is_known host port rs) (λ e. d)
      (λ e. Distinct-snoc (new_relay host port) rs d e)

-- `wish_relay_client_add` keeps the list of relay clients free of two clients of one server, whatever
-- text it is given.
pub client_add-Distinct :
    (atoi : List ℕ → ℕ) (rs : List Relay) (host : List ℕ)
    → Distinct rs
    → Distinct (client_add atoi rs host)
unfolding client_add
client_add-Distinct atoi rs host d = add_parsed-Distinct rs (parse_transport_host_port atoi host) d

-- ===== src/Address/Tests.antt =====
-- Addresses on small inputs, with numbers of one digit.
use wish_c.Prelude.{ℕ, ◌+◌, ◌-◌, ◌≡◌, refl, List, [], ◌∷◌, some, arith}
use wish_c.Address.{parse_transport_host_port, host_port, relay_encode_as_url}
use wish_c.Address.RoundTrip.{nowhere, elsewhere, IsPrinted, parse-encode}

abbrev one_digit : ℕ → List ℕ
one_digit n = (48 + n) ∷ []

abbrev pub atoi_one : List ℕ → ℕ
atoi_one [] = 0
atoi_one (x ∷ xs) = x - 48

seven-IsPrinted : IsPrinted atoi_one one_digit 7
seven-IsPrinted = record {
  no_colons = elsewhere refl nowhere;
  no_slashes = elsewhere refl nowhere;
  read_back = refl;
}

-- "1.2.3.4:5"
abbrev one_two_three_four : List ℕ
one_two_three_four =
    b'1' ∷ (b'.' ∷ (b'2' ∷ (b'.' ∷ (b'3' ∷ (b'.' ∷ (b'4' ∷ (b':' ∷ (b'5' ∷ []))))))))

parse-encode_example :
    parse_transport_host_port atoi_one (relay_encode_as_url one_digit (b'h' ∷ (b'i' ∷ [])) 7)
    ≡ host_port (b'h' ∷ (b'i' ∷ [])) (some 7)
parse-encode_example =
    parse-encode atoi_one one_digit (b'h' ∷ (b'i' ∷ [])) 7 seven-IsPrinted (omega arith)
      (omega arith) (elsewhere refl (elsewhere refl nowhere))

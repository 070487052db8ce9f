-- ===== src/Nonce/Tests.antt =====
-- Runs of the nonce counter, and the theorems about it at concrete inputs.
use wish_c.Prelude.{ℕ, ◌+◌, ◌%◌, ◌^◌, ◌≡◌, refl, List, [], ◌∷◌, arith}
use wish_c.Nonce.{update_nonce, uint32_convert_be, store32}
use wish_c.Nonce.Counter.{IsNonce, nonce, be_value, update_nonce_lem}

abbrev carrying : List ℕ
carrying = 0 ∷ 0 ∷ 0 ∷ 7 ∷ 255 ∷ 255 ∷ 255 ∷ 255 ∷ []

carrying-IsNonce : IsNonce carrying
carrying-IsNonce = nonce 0 0 0 7 255 255 255 255 (omega arith) (omega arith)

carries : update_nonce carrying ≡ 0 ∷ 0 ∷ 0 ∷ 8 ∷ 0 ∷ 0 ∷ 0 ∷ 0 ∷ []
unfolding update_nonce uint32_convert_be store32
carries = refl

update_nonce_lem_example :
    IsNonce (update_nonce carrying)
    × (be_value (update_nonce carrying) ≡ (be_value carrying + 1) % 2 ^ 64)
update_nonce_lem_example = update_nonce_lem carrying-IsNonce

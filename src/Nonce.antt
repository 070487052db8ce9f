-- ===== src/Nonce.antt =====
-- The counter part of the AES-GCM initialisation vectors (`uint32_convert_be`, `update_nonce` of
-- src/wish_connection.c), on a little-endian machine.
pub mod Counter
mod Tests
use wish_c.Prelude.{
  ℕ, ◌+◌, ◌*◌, ◌/◌, ◌%◌, ◌^◌, List, [], ◌∷◌, ◌++◌, take, drop, ◌==◌, if◌then◌else◌,
}

abbrev pub uint32_mod : ℕ
uint32_mod = 2 ^ 32

-- `memcpy(&v, p, 4)` into a uint32_t.
abbrev pub load32 : List ℕ → ℕ
load32 (a ∷ b ∷ c ∷ d ∷ rest) = a + b * 2 ^ 8 + c * 2 ^ 16 + d * 2 ^ 24
load32 _ = 0

-- `memcpy(p, &v, 4)`: the bytes of a uint32_t in memory.
pub store32 : ℕ → List ℕ
store32 v = v % 2 ^ 8 ∷ v / 2 ^ 8 % 2 ^ 8 ∷ v / 2 ^ 16 % 2 ^ 8 ∷ v / 2 ^ 24 % 2 ^ 8 ∷ []

-- `result <<= CHAR_BIT; result += byte`, for each byte in memory.
convert_loop : List ℕ → ℕ → ℕ
convert_loop [] result = result
convert_loop (x ∷ xs) result = convert_loop xs ((result * 2 ^ 8 % uint32_mod + x) % uint32_mod)

pub uint32_convert_be : ℕ → ℕ
unfolding convert_loop store32
uint32_convert_be v = convert_loop (store32 v) 0

-- The case of `update_nonce` after `nonce1++`: the first word changes on a carry only.
bump : ℕ → ℕ → List ℕ → List ℕ
bump nonce1 nonce2 nonce_bin =
    (if nonce1 == 0
      then store32 (uint32_convert_be ((nonce2 + 1) % uint32_mod))
      else take 4 nonce_bin)
    ++ store32 (uint32_convert_be nonce1)

-- The 8 bytes behind `nonce_bin`.
pub update_nonce : List ℕ → List ℕ
unfolding bump
update_nonce nonce_bin =
    bump ((uint32_convert_be (load32 (drop 4 nonce_bin)) + 1) % uint32_mod)
      (uint32_convert_be (load32 (take 4 nonce_bin))) nonce_bin

-- `update_nonce(iv + 4)`, on the 12 bytes of an initialisation vector.
pub update_iv : List ℕ → List ℕ
update_iv iv = take 4 iv ++ update_nonce (drop 4 iv)

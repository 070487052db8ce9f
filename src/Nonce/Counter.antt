-- ===== src/Nonce/Counter.antt =====
-- The nonce of src/wish_connection.c is a 64-bit big-endian counter.
use wish_c.Prelude.{
  ℕ, ◌+◌, ◌-◌, ◌*◌, ◌/◌, ◌%◌, ◌^◌, ◌<◌, ◌≡◌, ◌∙◌, List, [], ◌∷◌, ◌++◌, arith, Bool-cases, ◌==◌, inl,
  inr,
}
use wish_c.Nonce.{uint32_mod, load32, store32, convert_loop, uint32_convert_be, bump, update_nonce}

-- The eight bytes are bytes.
pub data IsNonce : List ℕ → Type 0 where
  nonce :
      (a b c d e f g h : ℕ)
      → (a < 256) × (b < 256) × (c < 256) × (d < 256)
      → (e < 256) × (f < 256) × (g < 256) × (h < 256)
      → IsNonce (a ∷ b ∷ c ∷ d ∷ e ∷ f ∷ g ∷ h ∷ [])

abbrev be32 : ℕ → ℕ → ℕ → ℕ → ℕ
be32 a b c d = a * 2 ^ 24 + b * 2 ^ 16 + c * 2 ^ 8 + d

-- The number that a byte string stands for, most significant byte first.
abbrev be_from : ℕ → List ℕ → ℕ
be_from n [] = n
be_from n (x ∷ xs) = be_from (n * 2 ^ 8 + x) xs

abbrev pub be_value : List ℕ → ℕ
be_value xs = be_from 0 xs

convert_loop-bytes :
    (a b c d : ℕ)
    → a < 256
    → b < 256
    → c < 256
    → d < 256
    → convert_loop (a ∷ b ∷ c ∷ d ∷ []) 0 ≡ be32 a b c d
unfolding convert_loop
convert_loop-bytes a b c d ha hb hc hd = omega arith

convert-load :
    (a b c d : ℕ) (rest : List ℕ)
    → a < 256
    → b < 256
    → c < 256
    → d < 256
    → uint32_convert_be (load32 (a ∷ b ∷ c ∷ d ∷ rest)) ≡ be32 a b c d
unfolding uint32_convert_be
convert-load a b c d rest ha hb hc hd =
    let v : ℕ = a + b * 2 ^ 8 + c * 2 ^ 16 + d * 2 ^ 24 in
    let p : v % 2 ^ 8 ≡ a = omega arith in
    let q : v / 2 ^ 8 % 2 ^ 8 ≡ b = omega arith in
    let r : v / 2 ^ 16 % 2 ^ 8 ≡ c = omega arith in
    let s : v / 2 ^ 24 % 2 ^ 8 ≡ d = omega arith in
    rw (p, q, r, s) (convert_loop-bytes a b c d ha hb hc hd)

convert-eq :
    (v : ℕ)
    → uint32_convert_be v
      ≡ be32 (v % 2 ^ 8) (v / 2 ^ 8 % 2 ^ 8) (v / 2 ^ 16 % 2 ^ 8) (v / 2 ^ 24 % 2 ^ 8)
unfolding uint32_convert_be
convert-eq v = convert_loop-bytes _ _ _ _ (omega arith) (omega arith) (omega arith) (omega arith)

-- What is stored are the bytes of the number, most significant byte first.
store-convert :
    (v : ℕ)
    → store32 (uint32_convert_be v)
      ≡ v / 2 ^ 24 % 2 ^ 8 ∷ v / 2 ^ 16 % 2 ^ 8 ∷ v / 2 ^ 8 % 2 ^ 8 ∷ v % 2 ^ 8 ∷ []
unfolding store32
store-convert v =
    let a : ℕ = v % 2 ^ 8 in
    let b : ℕ = v / 2 ^ 8 % 2 ^ 8 in
    let c : ℕ = v / 2 ^ 16 % 2 ^ 8 in
    let d : ℕ = v / 2 ^ 24 % 2 ^ 8 in
    rw (convert-eq v) (store-be32 a b c d (omega arith) (omega arith) (omega arith) (omega arith))
  where
    store-be32 :
        (a b c d : ℕ)
        → a < 256
        → b < 256
        → c < 256
        → d < 256
        → store32 (be32 a b c d) ≡ d ∷ c ∷ b ∷ a ∷ []
    store-be32 a b c d ha hb hc hd =
        let v : ℕ = be32 a b c d in
        let p : v % 2 ^ 8 ≡ d = omega arith in
        let q : v / 2 ^ 8 % 2 ^ 8 ≡ c = omega arith in
        let r : v / 2 ^ 16 % 2 ^ 8 ≡ b = omega arith in
        let s : v / 2 ^ 24 % 2 ^ 8 ≡ a = omega arith in rw (p, q, r, s)

bytes-be32 :
    (v : ℕ)
    → v < uint32_mod
    → be32 (v / 2 ^ 24 % 2 ^ 8) (v / 2 ^ 16 % 2 ^ 8) (v / 2 ^ 8 % 2 ^ 8) (v % 2 ^ 8) ≡ v
bytes-be32 v h = omega arith

-- The two words of a nonce.
be_value-words :
    (a b c d e f g h : ℕ)
    → be_value (a ∷ b ∷ c ∷ d ∷ e ∷ f ∷ g ∷ h ∷ []) ≡ be32 a b c d * 2 ^ 32 + be32 e f g h
be_value-words a b c d e f g h = omega arith

abbrev be_bytes : ℕ → List ℕ
be_bytes v = v / 2 ^ 24 % 2 ^ 8 ∷ v / 2 ^ 16 % 2 ^ 8 ∷ v / 2 ^ 8 % 2 ^ 8 ∷ v % 2 ^ 8 ∷ []

words-IsNonce :
    (v w : ℕ)
    → v < uint32_mod
    → w < uint32_mod
    → IsNonce (be_bytes v ++ be_bytes w) × (be_value (be_bytes v ++ be_bytes w) ≡ v * 2 ^ 32 + w)
words-IsNonce v w hv hw = (
  nonce _ _ _ _ _ _ _ _ (omega arith) (omega arith),
  be_value-words _ _ _ _ _ _ _ _ ∙ rw (bytes-be32 v hv, bytes-be32 w hw),
)

same_word-IsNonce :
    (a b c d w : ℕ)
    → (a < 256) × (b < 256) × (c < 256) × (d < 256)
    → w < uint32_mod
    → IsNonce (a ∷ b ∷ c ∷ d ∷ be_bytes w)
      × (be_value (a ∷ b ∷ c ∷ d ∷ be_bytes w) ≡ be32 a b c d * 2 ^ 32 + w)
same_word-IsNonce a b c d w k hw =
    (nonce _ _ _ _ _ _ _ _ k (omega arith), be_value-words _ _ _ _ _ _ _ _ ∙ rw (bytes-be32 w hw))

-- What `bump` makes of the two words, in the two cases of the carry.
abbrev Counts : ℕ → List ℕ → Type 0
Counts n xs = IsNonce xs × (be_value xs ≡ n)

bump-Counts :
    (a b c d low : ℕ) (rest : List ℕ)
    → (a < 256) × (b < 256) × (c < 256) × (d < 256)
    → low < uint32_mod
    → Counts
        ((be32 a b c d * 2 ^ 32 + low + 1) % 2 ^ 64)
        (bump ((low + 1) % uint32_mod) (be32 a b c d) (a ∷ b ∷ c ∷ d ∷ rest))
unfolding bump
bump-Counts a b c d low rest k hl = elim (Bool-cases ((low + 1) % uint32_mod == 0)) [
  | inl carry ↦
      let zero_low : low ≡ uint32_mod - 1 = ground arith in
      rw (carry, store-convert, store-convert)
        (
          (words-IsNonce ((be32 a b c d + 1) % uint32_mod) ((low + 1) % uint32_mod) (omega arith)
              (omega arith)).0,
          (words-IsNonce ((be32 a b c d + 1) % uint32_mod) ((low + 1) % uint32_mod) (omega arith)
                (omega arith)).1
              ∙ omega (arith, zero_low),
        )
  | inr still ↦
      let low' : (low + 1) % uint32_mod ≡ low + 1 = ground arith in
      rw (still, store-convert)
        (
          (same_word-IsNonce a b c d ((low + 1) % uint32_mod) k (omega arith)).0,
          (same_word-IsNonce a b c d ((low + 1) % uint32_mod) k (omega arith)).1 ∙ omega arith,
        )
]

-- `update_nonce` keeps eight bytes, and adds one to the number that they are, modulo 2^64.
pub update_nonce_lem :
    {xs : List ℕ}
    → IsNonce xs
    → IsNonce (update_nonce xs) × (be_value (update_nonce xs) ≡ (be_value xs + 1) % 2 ^ 64)
unfolding update_nonce
update_nonce_lem (nonce a b c d e f g h k l) = rw (convert-load e f g h [] l.0 l.1 l.2 l.3) (
    rw (convert-load a b c d [] k.0 k.1 k.2 k.3) (
      rw (be_value-words a b c d e f g h)
        (bump-Counts a b c d (be32 e f g h) (e ∷ f ∷ g ∷ h ∷ []) k (omega arith))))

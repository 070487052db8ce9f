-- ===== src/Prelude/Bytes.antt =====
-- Byte strings: `memcmp` on buffers of one length, and lookups in a list by a Boolean test.
use Prim.Native.Nat.{ℕ}
use mathlib.Core.Path.{◌≡◌, refl}
use mathlib.Core.Bool.{Bool, true, false, ◌&&◌}
use mathlib.Core.List.{List, [], ◌∷◌}
use native.Mathlib.Omega.{arith}
use wish_c.Prelude.Tests.{◌==◌, ltb, if◌then◌else◌}

-- `memcmp(a, b, n) == 0`, for two buffers of n bytes.
unfoldable pub same : List ℕ → List ℕ → Bool
same [] [] = true
same [] (y ∷ ys) = false
same (x ∷ xs) [] = false
same (x ∷ xs) (y ∷ ys) = (x == y) && same xs ys

-- `memcmp(a, b, n) < 0`, for two buffers of n bytes.
unfoldable pub precedes : List ℕ → List ℕ → Bool
precedes [] ys = false
precedes (x ∷ xs) [] = false
precedes (x ∷ xs) (y ∷ ys) = if x == y then precedes xs ys else ltb x y

pub same_refl : (xs : List ℕ) → same xs xs ≡ true
unfolding same
same_refl [] = refl
same_refl (x ∷ xs) = ground (arith, same_refl xs)

pub same→eq : (xs ys : List ℕ) → same xs ys ≡ true → xs ≡ ys
unfolding same
same→eq [] [] h = refl
same→eq [] (y ∷ ys) h = cc
same→eq (x ∷ xs) [] h = cc
same→eq (x ∷ xs) (y ∷ ys) h = ground (arith, same→eq xs ys)

pub eq→same : (xs ys : List ℕ) → xs ≡ ys → same xs ys ≡ true
eq→same xs ys e = rw e (same_refl ys)

-- No two hosts both hold the smaller id.
pub precedes_asymm : (xs ys : List ℕ) → precedes xs ys ≡ true → precedes ys xs ≡ false
unfolding precedes
precedes_asymm [] ys h = cc
precedes_asymm (x ∷ xs) [] h = cc
precedes_asymm (x ∷ xs) (y ∷ ys) h = ground (arith, precedes_asymm xs ys)

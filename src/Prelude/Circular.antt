-- ===== src/Prelude/Circular.antt =====
-- Part of an array read in a circle, and what a store just behind it does.
use native.Mathlib.Nat.{mod-add-mod, mod-eq_of_lt, mod-eq-sub-mod, add-zero}
use native.Mathlib.Decide.{dec_lt}
use wish_c.Prelude.{
  ℕ, zero, suc, ◌+◌, ◌-◌, ◌%◌, ◌≤◌, ◌<◌, ◌≡◌, ◌≢◌, refl, ap, ap₂, ◌∙◌, List, [], ◌∷◌, ◌++◌, arith,
  length, set, get_or, get_or-set_self, get_or-set_ne,
}

around : {size h k : ℕ} → h < size → suc k < size → (h + suc k) % size ≢ h
around {size} {h} {k} hh hk = elim (dec_lt (h + suc k) size) [
  | yes p ↦ omega (arith, mod-eq_of_lt p)
  | no p ↦ omega (
    arith,
    mod-eq-sub-mod {n = h + suc k} {m = size} (omega arith),
    mod-eq_of_lt {n = h + suc k - size} {m = size} (omega arith),
  )
]

module _ {ℓ} {A : Type ℓ} (d : A) where
  -- n elements from index h on, going round at `size`.
  abbrev pub stretch : List A → ℕ → ℕ → ℕ → List A
  stretch xs size h zero = []
  stretch xs size h (suc n) = get_or xs h d ∷ stretch xs size ((h + 1) % size) n

  pub length-stretch : (xs : List A) (size h n : ℕ) → length (stretch xs size h n) ≡ n
  length-stretch xs size h zero = refl
  length-stretch xs size h (suc n) = ap suc (length-stretch xs size ((h + 1) % size) n)

  -- An element stored just behind a stretch makes it longer by that element.
  pub stretch-set :
      (xs : List A) (size : ℕ) (x : A) (n h i : ℕ)
      → size ≤ length xs
      → h < size
      → n < size
      → (h + n) % size ≡ i
      → stretch (set xs i x) size h (suc n) ≡ stretch xs size h n ++ x ∷ []
  stretch-set xs size x zero h i hm hh hn e =
      rw (← e, add-zero, mod-eq_of_lt hh, get_or-set_self xs h x d (omega arith))
  stretch-set xs size x (suc n) h i hm hh hn e =
      ap₂ ◌∷◌ (get_or-set_ne xs x d (rw (← e) (around hh hn))) (
        stretch-set xs size x n ((h + 1) % size) i hm (omega arith) (omega arith)
          (mod-add-mod (h + 1) size n ∙ ap (λ k. k % size) (omega arith) ∙ e))

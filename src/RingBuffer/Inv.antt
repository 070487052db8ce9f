-- ===== src/RingBuffer/Inv.antt =====
-- The representation invariant of the ring buffer of src/rb.c, and the bytes that a buffer holds.

use wish_c.Prelude.{
  ℕ, suc, ◌+◌, ◌-◌, ◌%◌, ◌≤◌, ◌<◌, ◌≡◌, ◌≢◌, refl, ap, List, [], ◌∷◌, ◌++◌, arith, length, get_or,
  length-set,
}
use wish_c.Prelude.Circular.{stretch, length-stretch, stretch-set}
use wish_c.RingBuffer.{Ring, uint16_mod, put, consume, write_cursor, space}

-- No index leaves the memory, and no uint16_t counter wraps.
pub record IsValid (r : Ring) : Type 0 where
  pub some_room : 0 < r.max_len
  pub in_memory : r.max_len ≤ length r.memory
  pub word : r.max_len < uint16_mod
  pub read_in : r.read_at < r.max_len
  pub len_in : r.data_len ≤ r.max_len

-- The bytes that the buffer holds, oldest first.
abbrev pub contents : Ring → List ℕ
contents r = stretch 0 r.memory r.max_len r.read_at r.data_len

pub length-contents : (r : Ring) → length (contents r) ≡ r.data_len
length-contents r = length-stretch 0 r.memory r.max_len r.read_at r.data_len

pub contents-put :
    {r : Ring} (x : ℕ)
    → IsValid r
    → r.data_len ≢ r.max_len
    → contents (put r (write_cursor r) x) ≡ contents r ++ x ∷ []
unfolding put
contents-put {r} x v ne =
    let e : (r.data_len + 1) % uint16_mod ≡ suc r.data_len = omega arith in
    rw e (
      stretch-set 0 r.memory r.max_len x r.data_len r.read_at (write_cursor r) v.in_memory v.read_in
        (omega arith) refl)

pub put-IsValid :
    {r : Ring} (x : ℕ) → IsValid r → r.data_len ≢ r.max_len → IsValid (put r (write_cursor r) x)
unfolding put
put-IsValid {r} x v ne = omega (arith, length-set r.memory (write_cursor r) x)

pub consume-IsValid : {r : Ring} → IsValid r → r.data_len ≢ 0 → IsValid (consume r)
unfolding consume
consume-IsValid v ne = omega arith

-- A buffer that is not empty holds the byte at its read index, then what is left.
pub contents-consume :
    {r : Ring}
    → IsValid r
    → r.data_len ≢ 0
    → contents r ≡ get_or r.memory r.read_at 0 ∷ contents (consume r)
unfolding consume
contents-consume {r} v ne =
    let e : r.data_len ≡ suc (r.data_len - 1) = omega arith in
    let w : (r.read_at + 1) % uint16_mod ≡ r.read_at + 1 = omega arith in
    rw w (ap (stretch 0 r.memory r.max_len r.read_at) e)

pub space-eq : {r : Ring} → IsValid r → space r ≡ r.max_len - r.data_len
unfolding space
space-eq v = omega arith

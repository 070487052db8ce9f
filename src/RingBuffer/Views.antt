-- ===== src/RingBuffer/Views.antt =====
-- `ring_buffer_skip` and `ring_buffer_peek` of src/rb.c against `ring_buffer_read`, and the way of
-- bytes through a buffer.
use wish_c.Prelude.{
  ℕ, zero, suc, ◌+◌, ◌-◌, ◌%◌, ◌≤◌, ◌<◌, ◌≡◌, refl, ap, ap₂, min, List, [], ◌∷◌, ◌++◌, arith,
  length, take, drop, length-drop, ◌∙◌, Bool-cases, inl, inr, ltb, get_or, sym,
}
use wish_c.Prelude.Circular.{stretch}
use wish_c.RingBuffer.{
  read_loop, consume, is_empty, Ring, uint16_mod, consume, write, read_loop, read, skip_loop, skip,
  peek_loop, peek,
}
use wish_c.RingBuffer.Inv.{IsValid, contents, length-contents}
use wish_c.RingBuffer.Fifo.{write_lem, read_lem}

skip_loop-eq :
    (n : ℕ) (r : Ring) (cursor count : ℕ)
    → skip_loop n r count ≡ ((read_loop n r cursor count).0, (read_loop n r cursor count).2)
unfolding skip_loop read_loop
skip_loop-eq zero r cursor count = refl
skip_loop-eq (suc n) r cursor count =
    ground (arith, skip_loop-eq n (consume r) (consume r).read_at ((count + 1) % uint16_mod))

-- `ring_buffer_skip` leaves the buffer as a read of as many bytes does, and returns the same number.
pub skip-eq-read : (r : Ring) (n : ℕ) → skip r n ≡ ((read r n).0, (read r n).2)
unfolding skip read
skip-eq-read r n = skip_loop-eq n r r.read_at 0

peek_loop-eq :
    (n : ℕ) (r : Ring) (cursor count : ℕ)
    → r.max_len < uint16_mod
    → cursor < r.max_len
    → count + n < uint16_mod
    → peek_loop n r cursor count ≡ (count + n, stretch 0 r.memory r.max_len cursor n)
unfolding peek_loop
peek_loop-eq zero r cursor count w c h = ap₂ (λ a b. (a, b)) (omega arith) refl
peek_loop-eq (suc n) r cursor count w c h =
    ground
      (arith, peek_loop-eq n r ((cursor + 1) % uint16_mod % r.max_len) ((count + 1) % uint16_mod))

take-stretch_short :
    (mem : List ℕ) (size n m h : ℕ)
    → n ≤ m
    → take n (stretch 0 mem size h m) ≡ stretch 0 mem size h n
take-stretch_short mem size zero m h le = refl
take-stretch_short mem size (suc n) zero h le = absurd (omega arith)
take-stretch_short mem size (suc n) (suc m) h le =
    ap (λ s. get_or mem h 0 ∷ s) (take-stretch_short mem size n m ((h + 1) % size) (omega arith))

pub take-length {ℓ} : {A : Type ℓ} (n : ℕ) (xs : List A) → length xs ≤ n → take n xs ≡ xs
take-length zero [] h = refl
take-length zero (x ∷ xs) h = absurd (omega arith)
take-length (suc n) [] h = refl
take-length (suc n) (x ∷ xs) h = ap (λ s. x ∷ s) (take-length n xs (omega arith))

-- `ring_buffer_peek` shows the bytes that a read of as many would hand over, and their number.
pub peek-eq-read :
    {r : Ring} (n : ℕ) → IsValid r → n < uint16_mod → peek r n ≡ ((read r n).0, (read r n).1)
unfolding peek
peek-eq-read {r} n v h = elim (Bool-cases (ltb r.data_len n)) [
  | inl e ↦ rw e (
      ground (
        arith,
        peek_loop-eq r.data_len r r.read_at 0,
        read_lem n v h,
        take-length n (contents r),
        length-contents r,
      ))
  | inr e ↦ rw e (
      ground (
        arith,
        peek_loop-eq n r r.read_at 0,
        read_lem n v h,
        take-stretch_short r.memory r.max_len n r.data_len r.read_at,
      ))
]

-- Bytes that fit into an empty buffer come out of it as they went in.
pub read-write :
    {r : Ring} (xs : List ℕ)
    → IsValid r
    → r.data_len ≡ 0
    → length xs ≤ r.max_len
    → ((read (write r xs).1 (length xs)).0 ≡ length xs)
      × ((read (write r xs).1 (length xs)).1 ≡ xs)
      × ((read (write r xs).1 (length xs)).2.data_len ≡ 0)
read-write {r} xs v e h =
    let filled : Ring = (write r xs).1 in
    let nothing : contents r ≡ [] = rw e in
    let w : ((write r xs).0 ≡ min (length xs) (r.max_len - r.data_len))
        × (contents filled ≡ contents r ++ take (r.max_len - r.data_len) xs)
        × IsValid filled
        × (filled.max_len ≡ r.max_len) =
      write_lem xs v (omega arith) in
    let held : contents filled ≡ xs =
      w.1 ∙ ap₂ ◌++◌ nothing (take-length (r.max_len - r.data_len) xs (omega arith)) in
    let t : ((read filled (length xs)).0 ≡ min (length xs) filled.data_len)
        × ((read filled (length xs)).1 ≡ take (length xs) (contents filled))
        × (contents (read filled (length xs)).2 ≡ drop (length xs) (contents filled))
        × IsValid (read filled (length xs)).2
        × ((read filled (length xs)).2.max_len ≡ filled.max_len) =
      read_lem (length xs) w.2 (omega arith) in
    let size : filled.data_len ≡ length xs = sym (length-contents filled) ∙ ap length held in
    (
      omega (arith, t.0, size),
      t.1 ∙ ap (take (length xs)) held ∙ take-length (length xs) xs (omega arith),
      omega (
        arith,
        length-contents (read filled (length xs)).2,
        ap length (t.2 ∙ ap (drop (length xs)) held),
        length-drop (length xs) xs,
      ),
    )

read_loop-left :
    (n : ℕ) (r : Ring) (cursor count : ℕ) → (read_loop n r cursor count).2.data_len ≡ r.data_len - n
unfolding read_loop consume is_empty
read_loop-left zero r cursor count = omega arith
read_loop-left (suc n) r cursor count =
    ground (arith, read_loop-left n (consume r) (consume r).read_at ((count + 1) % uint16_mod))

-- The bytes left by a read, for any buffer.
pub read-left : (r : Ring) (n : ℕ) → (read r n).2.data_len ≡ r.data_len - n
unfolding read
read-left r n = read_loop-left n r r.read_at 0
